-- ===== src/Mbuf/Access.antt =====
-- src/mbuf.c: a buffer as the bytes it holds, for reading, truncating and splitting.
use mpdx.Common.{
  ℕ, zero, suc, ◌+◌, ◌-◌, ◌≤◌, Bool, true, false, Option, none, some, List, [], ◌≡◌, refl, sym, ap,
  ◌∙◌, inl, inr, arith, length, take, drop, ltb, leb, ◌==◌, if◌then◌else◌, Bool-cases,
}
use mathlib.Core.Path.{ap₂}
use mpdx.Mbuf.{
  Mbuf, at, before, alloc_size, mballoc, read, copy_in, data_of, smaller, mbread, mbcopy, mbtrunc,
  mbadj, mbsplit,
}
use mpdx.Mbuf.Read.{
  take-all, drop-all, length-read, read-same, take-read, drop-read, read-none, read-copied,
}

-- The bytes of a buffer; a NULL has none.
unfoldable pub contents : Mbuf → List ℕ
unfolding read
contents b = read b.memory b.offset b.cnt

abbrev pub contents? : Option Mbuf → List ℕ
contents? none = []
contents? (some b) = contents b

-- The data lies in the memory of the buffer.
abbrev pub IsValid : Option Mbuf → Type 0
IsValid none = Unit {0}
IsValid (some b) = b.offset + b.cnt ≤ b.size

alloc_size-le : (n : ℕ) → n ≤ alloc_size n
unfolding alloc_size
alloc_size-le n = ground arith

-- A new buffer has room for the bytes asked for, in the middle of its memory.
pub mballoc_fits : (junk : ℕ → ℕ) (n : ℕ) → (mballoc junk n).offset + n ≤ (mballoc junk n).size
unfolding mballoc
mballoc_fits junk n = omega (arith, alloc_size-le n)

not_empty :
    (b : Mbuf) (n : ℕ) (empty : Bool)
    → (b.cnt - smaller n b.cnt == 0) ≡ empty
    → b.offset + b.cnt ≤ b.size
    → let left =
        if empty
        then none
        else some
            (record b { offset = b.offset + smaller n b.cnt; cnt = b.cnt - smaller n b.cnt }) in
      (contents? left ≡ drop n (contents b)) × IsValid left
unfolding contents
not_empty b n true e h =
    (sym (drop-read b.memory b.offset n b.cnt ∙ read-none b.memory _ _ (ground arith)), tt)
not_empty b n false e h =
    let part : smaller n b.cnt ≡ n = ground arith in
    (
      ap₂ (λ k l. read b.memory (b.offset + k) (b.cnt - l)) part part
          ∙ sym (drop-read b.memory b.offset n b.cnt),
      ground arith,
    )

-- Of a buffer whose data lies in its memory, `mbread` takes the first bytes off, as many as there
-- are, and leaves the others within the memory.
pub mbread_refines :
    (b : Option Mbuf) (n : ℕ)
    → IsValid b
    → let (bytes, left) = mbread b n in
      (bytes ≡ take n (contents? b)) × (contents? left ≡ drop n (contents? b)) × IsValid left
unfolding mbread contents
mbread_refines none zero h = (refl, refl, tt)
mbread_refines none (suc n) h = (refl, refl, tt)
mbread_refines (some b) n h =
    let (rest, valid) = not_empty b n (b.cnt - smaller n b.cnt == 0) refl h in
    (sym (take-read b.memory b.offset n b.cnt), rest, valid)

-- `mbcopy` copies the bytes from an offset on, as many as there are.
pub mbcopy_refines :
    (b : Option Mbuf) (offset n : ℕ) → mbcopy b offset n ≡ take n (drop offset (contents? b))
unfolding mbcopy contents
mbcopy_refines none zero zero = refl
mbcopy_refines none zero (suc n) = refl
mbcopy_refines none (suc offset) zero = refl
mbcopy_refines none (suc offset) (suc n) = refl
mbcopy_refines (some b) offset n =
    let cut =
      ap (take n) (drop-read b.memory b.offset offset b.cnt)
      ∙ take-read b.memory (b.offset + offset) n (b.cnt - offset) in
    elim (Bool-cases (leb b.cnt offset)) [
      | inl e ↦ rw e (sym (cut ∙ read-none b.memory _ _ (ground arith)))
      | inr e ↦ rw e (sym cut)
    ]

trunc_keeps :
    (b : Mbuf) (n : ℕ)
    → contents (if ltb n b.cnt then record b { cnt = n } else b) ≡ take n (contents b)
unfolding contents
trunc_keeps b n = elim (Bool-cases (ltb n b.cnt)) [
  | inl e ↦
      rw e (sym (take-read b.memory b.offset n b.cnt ∙ ap (read b.memory b.offset) (ground arith)))
  | inr e ↦
      rw e (sym (take-read b.memory b.offset n b.cnt ∙ ap (read b.memory b.offset) (ground arith)))
]

adj_drops :
    (b : Mbuf) (n : ℕ)
    → contents (
        if ltb n b.cnt
        then record b { cnt = b.cnt - n; offset = b.offset + n }
        else record b { cnt = 0 })
      ≡ drop n (contents b)
unfolding contents
adj_drops b n = elim (Bool-cases (ltb n b.cnt)) [
  | inl e ↦ rw e (sym (drop-read b.memory b.offset n b.cnt))
  | inr e ↦ rw e (sym (drop-read b.memory b.offset n b.cnt ∙ read-none b.memory _ _ (ground arith)))
]

adj_keeps :
    (b : Mbuf) (n : ℕ)
    → contents (if ltb n b.cnt then record b { cnt = b.cnt - n } else record b { cnt = 0 })
      ≡ take (length (contents b) - n) (contents b)
unfolding contents
adj_keeps b n =
    let kept =
      ap (λ k. take (k - n) (read b.memory b.offset b.cnt)) (length-read b.memory b.offset b.cnt)
      ∙ take-read b.memory b.offset (b.cnt - n) b.cnt in
    elim (Bool-cases (ltb n b.cnt)) [
      | inl e ↦ rw e (sym (kept ∙ ap (read b.memory b.offset) (ground arith)))
      | inr e ↦ rw e (sym (kept ∙ read-none b.memory _ _ (ground arith)))
    ]

-- `mbtrunc` keeps the first bytes; `mbadj` drops bytes at the beginning, or at the end when the
-- number is below zero; data that lay in the memory of the buffer stays within it.
pub cut_refines :
    (b : Option Mbuf) (n : ℕ)
    → IsValid b
    → (contents? (mbtrunc b n) ≡ take n (contents? b))
      × IsValid (mbtrunc b n)
      × (contents? (mbadj b (at n)) ≡ drop n (contents? b))
      × IsValid (mbadj b (at n))
      × (contents? (mbadj b (before n)) ≡ take (length (contents? b) - n) (contents? b))
      × IsValid (mbadj b (before n))
unfolding mbtrunc mbadj contents
cut_refines none zero h = (refl, tt, refl, tt, refl, tt)
cut_refines none (suc n) h = (refl, tt, refl, tt, sym (take-all (0 - suc n) [] (omega arith)), tt)
cut_refines (some b) n h =
    (trunc_keeps b n, ground arith, adj_drops b n, ground arith, adj_keeps b n, ground arith)

-- The bytes from `n` on, copied elsewhere.
moved_tail :
    (junk : ℕ → ℕ) (start : ℕ) (b : Mbuf) (n : ℕ)
    → read (copy_in junk start (λ i. data_of b (n + i)) (b.cnt - n)) start (b.cnt - n)
      ≡ drop n (contents b)
unfolding contents
moved_tail junk start b n =
    let m = b.cnt - n in
    let tail : ℕ → ℕ = λ i. data_of b (n + i) in
    let here : start ≡ start + 0 = omega arith in
    ap (λ s. read (copy_in junk start tail m) s m) here
    ∙ read-copied junk tail start m 0 m (omega arith)
    ∙ read-same tail b.memory 0 (b.offset + n) m (λ i h. ap b.memory (omega arith))
    ∙ sym (drop-read b.memory b.offset n b.cnt)

-- `mbsplit` leaves the first bytes in the buffer and puts the others in a new one; where the data
-- lay within its memory, both do so.
pub mbsplit_refines :
    (junk : ℕ → ℕ) (b : Option Mbuf) (n : ℕ)
    → IsValid b
    → let (first, second) = mbsplit junk b n in
      (contents? first ≡ take n (contents? b))
      × (contents? second ≡ drop n (contents? b))
      × IsValid first
      × IsValid second
unfolding mbsplit contents
mbsplit_refines junk none zero h = (refl, refl, tt, tt)
mbsplit_refines junk none (suc n) h = (refl, refl, tt, tt)
mbsplit_refines junk (some b) n h = elim (Bool-cases (leb b.cnt n)) [
  | inl e ↦ rw e (
    sym (
        take-all n (read b.memory b.offset b.cnt)
          (ground (arith, length-read b.memory b.offset b.cnt))),
    sym (
        drop-all n (read b.memory b.offset b.cnt)
          (ground (arith, length-read b.memory b.offset b.cnt))),
    h,
    tt,
  )
  | inr e ↦ rw e (
    sym (take-read b.memory b.offset n b.cnt ∙ ap (read b.memory b.offset) (ground arith)),
    moved_tail junk (mballoc junk (b.cnt - n)).offset b n,
    ground arith,
    mballoc_fits junk (b.cnt - n),
  )
]
