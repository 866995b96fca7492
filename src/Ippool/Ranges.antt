-- ===== src/Ippool/Ranges.antt =====
-- src/ippool.c: adding a range of addresses to a pool.
use mathlib.Core.Path.{ap₂}
use native.Mathlib.Decide.{ℕ_discrete}
use mpdx.Common.{
  ℕ, zero, suc, ◌+◌, ◌-◌, ◌*◌, ◌≤◌, ◌<◌, Bool, true, false, not, ◌&&◌, ◌||◌, List, [], ◌∷◌, ◌++◌,
  ◌≡◌, refl, ◌∙◌, arith, length, ltb, leb, if◌then◌else◌, u32, Bool-cases, inl, inr,
}
use mpdx.Ippool.{
  IpRec, holds, count_nonzero, new_recs, int_min, done, exits, overrun, Memory, add_recs,
}
use mpdx.Ippool.Allocation.{allocate-fits, allocate_short, allocate_negative}
use mpdx.Ippool.Leases.{Distinct, uses}

-- No address of the pool is 0.0.0.0.
abbrev pub AllNonzero : List IpRec → Type 0
AllNonzero [] = Unit {0}
AllNonzero (r ∷ rs) = (0 < r.ip) × AllNonzero rs

abbrev in_range : ℕ → ℕ → ℕ → Bool
in_range j ip left = leb ip j && ltb j (ip + left)

length-new_recs : (old : List IpRec) (left ip : ℕ) → length (new_recs old left ip) ≤ left
unfolding add_recs
length-new_recs old zero ip = omega arith
length-new_recs old (suc left) ip = ground (arith, length-new_recs old left (u32 (ip + 1)))

holds-new_recs :
    (old : List IpRec) (j left ip : ℕ)
    → ip + left < 4294967296
    → holds j (new_recs old left ip) ≡ (not (holds j old) && in_range j ip left)
unfolding add_recs
holds-new_recs old j zero ip h = ground arith
holds-new_recs old j (suc left) ip h =
    let wrap : u32 (ip + 1) ≡ ip + 1 = omega arith in
    let rest = holds-new_recs old j left (ip + 1) (omega arith) in
    rw wrap (elim (ℕ_discrete ip j) [ yes e ↦ ground (arith, rest) | no e ↦ ground (arith, rest) ])

keeps_Distinct :
    (b : Bool) (r : IpRec) (rs : List IpRec)
    → (b ≡ false → holds r.ip rs ≡ false)
    → Distinct rs
    → Distinct (if b then rs else r ∷ rs)
keeps_Distinct true r rs h d = d
keeps_Distinct false r rs h d = (h refl, d)

holds_head : (r : IpRec) (rs : List IpRec) → holds r.ip (r ∷ rs) ≡ true
unfolding add_recs
holds_head r rs = ground arith

holds_tail : (j : ℕ) (r : IpRec) (rs : List IpRec) → holds j rs ≡ true → holds j (r ∷ rs) ≡ true
unfolding add_recs
holds_tail j r rs h = ground arith

holds-append : (j : ℕ) (xs ys : List IpRec) → holds j (xs ++ ys) ≡ (holds j xs || holds j ys)
unfolding add_recs
holds-append j [] ys = refl
holds-append j (x ∷ xs) ys = ground (arith, holds-append j xs ys)

uses-append : (j : ℕ) (xs ys : List IpRec) → uses j (xs ++ ys) ≡ (uses j xs || uses j ys)
unfolding uses
uses-append j [] ys = refl
uses-append j (x ∷ xs) ys = ground (arith, uses-append j xs ys)

uses-new_recs : (old : List IpRec) (j left ip : ℕ) → uses j (new_recs old left ip) ≡ false
unfolding add_recs uses
uses-new_recs old j zero ip = refl
uses-new_recs old j (suc left) ip = ground (arith, uses-new_recs old j left (u32 (ip + 1)))

count_nonzero-length : (rs : List IpRec) → AllNonzero rs → count_nonzero rs ≡ length rs
unfolding add_recs
count_nonzero-length [] h = refl
count_nonzero-length (r ∷ rs) h = ground (arith, count_nonzero-length rs h.1)

count_nonzero-le : (rs : List IpRec) → count_nonzero rs ≤ length rs
unfolding add_recs
count_nonzero-le [] = omega arith
count_nonzero-le (r ∷ rs) = ground (arith, count_nonzero-le rs)

new_recs-Distinct :
    (old : List IpRec) (left ip : ℕ) → ip + left < 4294967296 → Distinct (new_recs old left ip)
unfolding add_recs
new_recs-Distinct old zero ip h = tt
new_recs-Distinct old (suc left) ip h =
    let wrap : u32 (ip + 1) ≡ ip + 1 = omega arith in
    rw wrap (
      keeps_Distinct (holds ip old) (record { ip = ip; used = false }) (new_recs old left (ip + 1))
        (ground (arith, holds-new_recs old ip left (ip + 1)))
        (new_recs-Distinct old left (ip + 1) (omega arith)))

-- Nothing in `ys` stands in `xs`.
append-Distinct :
    (xs ys : List IpRec)
    → Distinct xs
    → Distinct ys
    → ((j : ℕ) → holds j xs ≡ true → holds j ys ≡ false)
    → Distinct (xs ++ ys)
append-Distinct [] ys dx dy apart = dy
append-Distinct (x ∷ xs) ys dx dy apart = (
  holds-append x.ip xs ys ∙ ap₂ ◌||◌ dx.0 (apart x.ip (holds_head x xs)),
  append-Distinct xs ys dx.1 dy (λ j h. apart j (holds_tail j x xs h)),
)

-- A range of at most 65536 addresses above `begin`, below 255.255.255.255, added to a pool of less than 2^28
-- addresses and none of them 0.0.0.0, with pointers of eight bytes and a `malloc` that gives the memory, fits the
-- memory: afterwards the pool holds exactly the old addresses and the range, the same ones are in use, and addresses
-- that were distinct stay so.
pub add_recs-done :
    (m : Memory) (old : List IpRec) (begin end : ℕ)
    → m.pointer_size ≡ 8
    → length old < 268435456
    → AllNonzero old
    → begin ≤ end
    → end + 1 < 4294967296
    → end < begin + 65536
    → m.gives ((length old + (end - begin + 1)) * 8 + 8) ≡ true
    → (rs : List IpRec) × (add_recs m old begin end ≡ done rs)
      × ((j : ℕ) → holds j rs ≡ (holds j old || (leb begin j && leb j end)))
      × ((j : ℕ) → uses j rs ≡ uses j old)
      × (Distinct old → Distinct rs)
unfolding add_recs
add_recs-done m old begin end w few nz h k l g =
    let c : u32 (end + 4294967296 - begin + 1) ≡ end - begin + 1 = omega arith in
    let fresh = new_recs old (end - begin + 1) begin in
    let below : begin + (end - begin + 1) < 4294967296 = omega arith in
    let positive : ltb (end - begin + 1) int_min ≡ true = ground arith in
    let small : ltb 65536 (end - begin + 1) ≡ false = ground arith in
    let total : u32 (length old + (end - begin + 1)) ≡ length old + (end - begin + 1) =
      omega arith in
    (
      old ++ fresh,
      rw (c, positive, small, count_nonzero-length old nz, total)
          (allocate-fits m w (length old + (end - begin + 1)) ((length old + length fresh) * 8)
            (old ++ fresh) (omega arith)
            (omega (arith, length-new_recs old (end - begin + 1) begin)) g),
      λ j.
          ground
            (arith, holds-append j old fresh, holds-new_recs old j (end - begin + 1) begin below),
      λ j. ground (arith, uses-append j old fresh, uses-new_recs old j (end - begin + 1) begin),
      λ d.
          append-Distinct old fresh d (new_recs-Distinct old (end - begin + 1) begin below)
            (λ j e. ground (arith, holds-new_recs old j (end - begin + 1) begin below)),
    )

-- A range whose end lies more than one below its beginning, by at most 2^31 + 1, added to a pool of less than 2^28
-- addresses, with pointers of eight bytes and a `malloc` that never gives 2^63 bytes or more, is never added. Where
-- `total + c` is below -1 the size that comes of it is huge, and the daemon exits. Otherwise `malloc` is asked for
-- `(total + c + 1) * 8` bytes; where it gives them the code writes past them, and where not the daemon exits.
pub add_recs-reversed :
    (m : Memory) (old : List IpRec) (begin end : ℕ)
    → m.pointer_size ≡ 8
    → ((n : ℕ) → 9223372036854775808 ≤ n → m.gives n ≡ false)
    → length old < 268435456
    → begin < 4294967296
    → end + 1 < begin
    → begin ≤ end + 2147483649
    → add_recs m old begin end ≡ (
        if ltb (count_nonzero old + end + 2) begin
        then exits
        else if m.gives ((count_nonzero old + end + 2 - begin) * 8)
        then overrun
        else exits)
unfolding add_recs
add_recs-reversed m old begin end w huge few h k l =
    let most = count_nonzero-le old in
    let n = count_nonzero old in
    let c : u32 (end + 4294967296 - begin + 1) ≡ end + 4294967297 - begin = omega arith in
    let negative : ltb (end + 4294967297 - begin) int_min ≡ false = ground arith in
    elim (Bool-cases (ltb (n + end + 1) begin)) [
      | inl e ↦
          let total : u32 (n + (end + 4294967297 - begin)) ≡ 4294967296 - (begin - (n + end + 1)) =
            ground (arith, most) in
          let none_left : n + end + 2 - begin ≡ 0 = ground arith in
          let same : ltb 1 (begin - (n + end + 1)) ≡ ltb (n + end + 2) begin = ground arith in
          rw (c, negative, total)
            (allocate_negative m w (begin - (n + end + 1)) ((length old + 0) * 8) (old ++ [])
                (ground arith) (omega arith) huge
              ∙ rw (same, none_left) refl)
      | inr e ↦
          let total : u32 (n + (end + 4294967297 - begin)) ≡ n + end + 1 - begin =
            ground (arith, most) in
          let size : (n + end + 1 - begin) * 8 + 8 ≡ (n + end + 2 - begin) * 8 = ground arith in
          let reached : ltb (n + end + 2) begin ≡ false = ground arith in
          rw (c, negative, total, reached)
            (allocate_short m w (n + end + 1 - begin) ((length old + 0) * 8) (old ++ [])
                (ground (arith, most)) (ground (arith, most))
              ∙ rw size refl)
    ]
