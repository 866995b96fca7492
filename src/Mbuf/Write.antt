-- ===== src/Mbuf/Write.antt =====
-- `mbcopyback` of src/mbuf.c: bytes written into a buffer at an offset, or put in front of it.
use mpdx.Common.{
  ℕ, ◌+◌, ◌-◌, ◌/◌, ◌≤◌, Bool, true, false, ◌||◌, some, List, ◌++◌, ◌≡◌, refl, sym, ap, ◌∙◌, inl,
  inr, arith, length, take, drop, ltb, if◌then◌else◌,
}
use mathlib.Core.Path.{ap₂}
use mpdx.Mbuf.{Mbuf, at, before, mballoc, read, copy_in, data_of, bytes_at, make_room, mbcopyback}
use mpdx.Mbuf.Read.{
  read-same, take-read, drop-read, read-append, read-copied, read-uncopied, read-bytes_at,
}
use mpdx.Mbuf.Access.{contents, IsValid, mballoc_fits}

-- A buffer with the old data at `b` and room for `e` more bytes behind it.
record HasRoom (m : Mbuf) (b e : ℕ) (n : Mbuf) : Type 0 where
  fits : n.offset + (b + m.cnt + e) ≤ n.size
  kept : read n.memory (n.offset + b) m.cnt ≡ contents m

copied_whole :
    (f : ℕ → ℕ) (start : ℕ) (m : Mbuf)
    → read (copy_in f start (data_of m) m.cnt) start m.cnt ≡ contents m
unfolding contents
copied_whole f start m =
    let here : start ≡ start + 0 = omega arith in
    ap (λ s. read (copy_in f start (data_of m) m.cnt) s m.cnt) here
    ∙ read-copied f (data_of m) start m.cnt 0 m.cnt (omega arith)
    ∙ read-same (data_of m) m.memory 0 m.offset m.cnt (λ i h. ap m.memory (omega arith))

roomy :
    (junk : ℕ → ℕ) (m : Mbuf) (b e : ℕ) (grow shift : Bool)
    → ltb m.size (b + m.cnt + e) ≡ grow
    → (ltb m.offset b || ltb m.size (m.offset + m.cnt + e)) ≡ shift
    → let new = mballoc junk (b + m.cnt + e) in
      let middle = (m.size - (b + m.cnt + e)) / 2 in
      HasRoom m b e (
        if grow
        then record new {
          memory = copy_in new.memory (new.offset + b) (data_of m) m.cnt;
          cnt = m.cnt;
        }
        else if shift
        then record m { memory = copy_in m.memory (middle + b) (data_of m) m.cnt; offset = middle }
        else record m { offset = m.offset - b })
roomy junk m b e true shift g s = record {
  fits = mballoc_fits junk (b + m.cnt + e);
  kept = copied_whole (mballoc junk (b + m.cnt + e)).memory _ m;
}
roomy junk m b e false true g s = record { fits = ground arith; kept = copied_whole m.memory _ m }
roomy junk m b e false false g s = record {
  fits = ground arith;
  kept = unfold contents in ap (λ k. read m.memory k m.cnt) (ground arith);
}

make_room-HasRoom : (junk : ℕ → ℕ) (m : Mbuf) (b e : ℕ) → HasRoom m b e (make_room junk m b e)
unfolding make_room
make_room-HasRoom junk m b e = roomy junk m b e _ _ refl refl

-- Bytes laid over the data from `offset` on, where the data reaches that far.
pub overlay : ℕ → List ℕ → List ℕ → List ℕ
overlay offset buf old = take offset old ++ (buf ++ drop (offset + length buf) old)

buf_copied :
    (f : ℕ → ℕ) (start : ℕ) (buf : List ℕ)
    → read (copy_in f start (bytes_at buf) (length buf)) start (length buf) ≡ buf
buf_copied f start buf =
    let here : start ≡ start + 0 = omega arith in
    ap (λ s. read (copy_in f start (bytes_at buf) (length buf)) s (length buf)) here
    ∙ read-copied f (bytes_at buf) start (length buf) 0 (length buf) (omega arith)
    ∙ read-bytes_at buf

read-three :
    (f : ℕ → ℕ) (s i j k n : ℕ)
    → n ≡ i + (j + k)
    → read f s n ≡ read f s i ++ (read f (s + i) j ++ read f (s + i + j) k)
read-three f s i j k n h =
    ap (read f s) h
    ∙ read-append f s i (j + k)
    ∙ ap (λ xs. read f s i ++ xs) (read-append f (s + i) j k)

written :
    (m n : Mbuf) (offset : ℕ) (buf : List ℕ)
    → HasRoom m 0 (offset + length buf - (0 + m.cnt)) n
    → offset ≤ m.cnt
    → read
        (copy_in n.memory (n.offset + offset) (bytes_at buf) (length buf))
        n.offset
        (0 + m.cnt + (offset + length buf - (0 + m.cnt)))
      ≡ overlay offset buf (contents m)
unfolding overlay
written m n offset buf room h =
    let l = length buf in
    let start = n.offset + offset in
    let f = copy_in n.memory start (bytes_at buf) l in
    let rest = m.cnt - (offset + l) in
    let front : read f n.offset offset ≡ take offset (contents m) =
      read-uncopied n.memory (bytes_at buf) start l n.offset offset (inl (omega arith))
      ∙ ap₂ (read n.memory) (omega arith) (ground arith)
      ∙ sym (take-read n.memory (n.offset + 0) offset m.cnt)
      ∙ ap (take offset) room.kept in
    let back : read f (start + l) rest ≡ drop (offset + l) (contents m) =
      read-uncopied n.memory (bytes_at buf) start l (start + l) rest (inr (omega arith))
      ∙ ap (λ s. read n.memory s rest) (omega arith)
      ∙ sym (drop-read n.memory (n.offset + 0) (offset + l) m.cnt)
      ∙ ap (drop (offset + l)) room.kept in
    read-three f n.offset offset l rest _ (omega arith)
    ∙ ap₂ ◌++◌ front (ap₂ ◌++◌ (buf_copied n.memory start buf) back)

prepended :
    (m n : Mbuf) (buf : List ℕ)
    → HasRoom m (length buf) (0 + length buf - (length buf + m.cnt)) n
    → read
        (copy_in n.memory (n.offset + 0) (bytes_at buf) (length buf))
        n.offset
        (length buf + m.cnt + (0 + length buf - (length buf + m.cnt)))
      ≡ buf ++ contents m
prepended m n buf room =
    let l = length buf in
    let here : n.offset + 0 ≡ n.offset = omega arith in
    let whole : l + m.cnt + (0 + l - (l + m.cnt)) ≡ l + m.cnt = omega arith in
    let f = copy_in n.memory n.offset (bytes_at buf) l in
    ap₂ (λ s k. read (copy_in n.memory s (bytes_at buf) l) n.offset k) here whole
    ∙ read-append f n.offset l m.cnt
    ∙ ap₂ ◌++◌ (buf_copied n.memory n.offset buf) (
        read-uncopied n.memory (bytes_at buf) n.offset l (n.offset + l) m.cnt (inr (omega arith))
        ∙ room.kept)

-- `mbcopyback` at an offset within the data overwrites the bytes there and appends what is left; with an
-- offset below zero by the number of bytes, it puts them in front. The data stays within its memory.
pub mbcopyback_refines :
    (junk : ℕ → ℕ) (m : Mbuf) (offset : ℕ) (buf : List ℕ)
    → offset ≤ m.cnt
    → (contents (mbcopyback junk (some m) (at offset) buf) ≡ overlay offset buf (contents m))
      × IsValid (some (mbcopyback junk (some m) (at offset) buf))
      × (contents (mbcopyback junk (some m) (before (length buf)) buf) ≡ buf ++ contents m)
      × IsValid (some (mbcopyback junk (some m) (before (length buf)) buf))
unfolding mbcopyback
mbcopyback_refines junk m offset buf h =
    let n = length buf in
    let at_room = make_room-HasRoom junk m 0 (offset + n - (0 + m.cnt)) in
    let front_room = make_room-HasRoom junk m n (0 + n - (n + m.cnt)) in
    (
      unfold contents in
          written m (make_room junk m 0 (offset + n - (0 + m.cnt))) offset buf at_room h,
      at_room.fits,
      unfold contents in prepended m (make_room junk m n (0 + n - (n + m.cnt))) buf front_room,
      front_room.fits,
    )
