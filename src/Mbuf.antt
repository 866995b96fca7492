-- ===== src/Mbuf.antt =====
-- src/mbuf.c: packet buffers with room before and behind the data. The memory behind the header is a
-- function from positions to bytes; `junk` is what fresh memory holds. Sizes are far below the range of
-- `int`; a failing `malloc` ends the daemon. A freed buffer is not used again.
pub mod Examples
pub mod Read
pub mod Access
pub mod Write
use mpdx.Common.{
  ℕ, zero, suc, ◌+◌, ◌-◌, ◌*◌, ◌/◌, Bool, true, false, not, ◌&&◌, ◌||◌, Option, none, some, List,
  [], ◌∷◌, length, get_or, ltb, leb, ◌==◌, if◌then◌else◌,
}

-- `struct mpdmbuf`, and the memory that follows it.
pub record Mbuf : Type 0 where
  pub size : ℕ
  pub offset : ℕ
  pub cnt : ℕ
  pub memory : ℕ → ℕ

-- An `int`: at or above zero, or so much below it.
pub data Place : Type 0 where
  at before : ℕ → Place

-- `sizeof(struct mpdmbuf)`.
abbrev pub header_size : ℕ
header_size = 12

unfoldable pub alloc_size : ℕ → ℕ
alloc_size size =
    if size == 0
    then 64 - header_size
    else if ltb size 512
    then ((size - 1) / 32 + 1) * 64 - header_size
    else ((size - 1) / 64 + 1) * 64 + 512 - header_size

unfoldable pub mballoc : (ℕ → ℕ) → ℕ → Mbuf
unfolding alloc_size
mballoc junk size = record {
  size = alloc_size size;
  offset = (alloc_size size - size) / 2;
  cnt = 0;
  memory = junk;
}

-- `n` bytes of memory.
unfoldable pub read : (ℕ → ℕ) → ℕ → ℕ → List ℕ
read memory start zero = []
read memory start (suc n) = memory start ∷ read memory (suc start) n

-- `memcpy` and `memmove`: `n` bytes of `source` from `start` on.
abbrev pub copy_in : (ℕ → ℕ) → ℕ → (ℕ → ℕ) → ℕ → (ℕ → ℕ)
copy_in memory start source n =
    λ j. if leb start j && ltb j (start + n) then source (j - start) else memory j

-- The bytes from `MBDATAU` on.
abbrev pub data_of : Mbuf → ℕ → ℕ
data_of b i = b.memory (b.offset + i)

abbrev pub smaller : ℕ → ℕ → ℕ
smaller a b = if ltb b a then b else a

-- `mbread`: the bytes, and the buffer or NULL.
unfoldable pub mbread : Option Mbuf → ℕ → List ℕ × Option Mbuf
unfolding read
mbread none cnt = ([], none)
mbread (some b) cnt =
    let nread = smaller cnt b.cnt in
    let left = record b { offset = b.offset + nread; cnt = b.cnt - nread } in
    (read b.memory b.offset nread, if left.cnt == 0 then none else some left)

-- `mbcopy`.
unfoldable pub mbcopy : Option Mbuf → ℕ → ℕ → List ℕ
unfolding read
mbcopy none offset cnt = []
mbcopy (some b) offset cnt =
    if leb b.cnt offset
    then []
    else read b.memory (b.offset + offset) (smaller cnt (b.cnt - offset))

-- `mbtrunc`.
unfoldable pub mbtrunc : Option Mbuf → ℕ → Option Mbuf
mbtrunc none max = none
mbtrunc (some b) max = some (if ltb max b.cnt then record b { cnt = max } else b)

-- `mbadj`.
unfoldable pub mbadj : Option Mbuf → Place → Option Mbuf
mbadj none place = none
mbadj (some b) (at n) = some (
    if ltb n b.cnt
    then record b { cnt = b.cnt - n; offset = b.offset + n }
    else record b { cnt = 0 })
mbadj (some b) (before n) =
    some (if ltb n b.cnt then record b { cnt = b.cnt - n } else record b { cnt = 0 })

-- `mbsplit`: the first buffer, which the code changes in place, and the new one or NULL.
unfoldable pub mbsplit : (ℕ → ℕ) → Option Mbuf → ℕ → Option Mbuf × Option Mbuf
unfolding mballoc
mbsplit junk none cnt = (none, none)
mbsplit junk (some b) cnt =
    let new = mballoc junk (b.cnt - cnt) in
    if leb b.cnt cnt then (some b, none) else (
      some (record b { cnt = cnt }),
      some (record new {
        memory = copy_in new.memory new.offset (λ i. data_of b (cnt + i)) (b.cnt - cnt);
        cnt = b.cnt - cnt;
      }),
    )

-- How far an `int` is below zero, and how far above.
abbrev pub below : Place → ℕ
below (at n) = 0
below (before n) = n

abbrev pub above : Place → ℕ
above (at n) = n
above (before n) = 0

abbrev pub bytes_at : List ℕ → ℕ → ℕ
bytes_at buf i = get_or buf i 0

-- The room that `mbcopyback` makes: a buffer with `b` bytes more before the data and `e` behind it.
unfoldable pub make_room : (ℕ → ℕ) → Mbuf → ℕ → ℕ → Mbuf
unfolding mballoc
make_room junk m b e =
    let new = mballoc junk (b + m.cnt + e) in
    let middle = (m.size - (b + m.cnt + e)) / 2 in
    if ltb m.size (b + m.cnt + e)
    then record new { memory = copy_in new.memory (new.offset + b) (data_of m) m.cnt; cnt = m.cnt }
    else if ltb m.offset b || ltb m.size (m.offset + m.cnt + e)
    then record m { memory = copy_in m.memory (middle + b) (data_of m) m.cnt; offset = middle }
    else record m { offset = m.offset - b }

-- `mbcopyback`. Without a buffer, an offset below zero counts as zero.
unfoldable pub mbcopyback : (ℕ → ℕ) → Option Mbuf → Place → List ℕ → Mbuf
unfolding make_room
mbcopyback junk none place buf =
    let new = mballoc junk (above place + length buf) in
    record new {
      memory = copy_in new.memory (new.offset + above place) (bytes_at buf) (length buf);
      cnt = above place + length buf;
    }
mbcopyback junk (some m) place buf =
    let b = below place in
    let e = above place + length buf - (b + m.cnt) in
    let roomy = make_room junk m b e in
    record roomy {
      cnt = b + m.cnt + e;
      memory = copy_in roomy.memory (roomy.offset + above place) (bytes_at buf) (length buf);
    }
