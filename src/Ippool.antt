-- ===== src/Ippool.antt =====
-- src/ippool.c: named pools of IPv4 addresses, each address free or in use. An address is a number
-- in host order; a name is the list of its bytes. The mutex makes each call one step.
pub mod Examples
pub mod Leases
pub mod Commute
pub mod Nonzero
pub mod Allocation
pub mod Ranges
use mpdx.Common.{
  ℕ, zero, suc, ◌+◌, ◌-◌, ◌*◌, ◌%◌, ◌^◌, ◌≤◌, ◌<◌, Bool, true, false, not, ◌&&◌, ◌||◌, Option, none,
  some, List, [], ◌∷◌, ◌++◌, length, take, ltb, leb, ◌==◌, if◌then◌else◌, u32,
}

-- `struct ippool_rec`.
pub record IpRec : Type 0 where
  pub ip : ℕ
  pub used : Bool

-- `struct ippool`; `size` is the length of `pool`.
pub record Pool : Type 0 where
  pub name : List ℕ
  pub pool : List IpRec

-- `strcmp(a, b) == 0`.
unfoldable pub same_name : List ℕ → List ℕ → Bool
same_name [] [] = true
same_name (a ∷ xs) (b ∷ ys) = a == b && same_name xs ys
same_name _ _ = false

abbrev kept : IpRec → Option (ℕ × List IpRec) → Option (ℕ × List IpRec)
kept r none = none
kept r (some (ip, rs)) = some (ip, r ∷ rs)

-- The loop of `IPPoolGet`: the first free address, which is then in use.
pub get_first : List IpRec → Option (ℕ × List IpRec)
get_first [] = none
get_first (r ∷ rs) =
    if not r.used then some (r.ip, record r { used = true } ∷ rs) else kept r (get_first rs)

abbrev put_back : Pool → List Pool → Option (ℕ × List IpRec) → Option (ℕ × List Pool)
put_back p ps none = none
put_back p ps (some (ip, rs)) = some (ip, record p { pool = rs } ∷ ps)

abbrev behind : Pool → Option (ℕ × List Pool) → Option (ℕ × List Pool)
behind p none = none
behind p (some (ip, ps)) = some (ip, p ∷ ps)

-- `IPPoolGet`: an address, or `none` for -1.
unfoldable pub ippool_get : List Pool → List ℕ → Option (ℕ × List Pool)
unfolding get_first
ippool_get [] name = none
ippool_get (p ∷ ps) name =
    if same_name p.name name
    then put_back p ps (get_first p.pool)
    else behind p (ippool_get ps name)

-- The loop of `IPPoolFree`.
pub free_first : ℕ → List IpRec → List IpRec
free_first ip [] = []
free_first ip (r ∷ rs) = if r.ip == ip then record r { used = false } ∷ rs else r ∷ free_first ip rs

-- `IPPoolFree`.
pub ippool_free : List Pool → List ℕ → ℕ → List Pool
unfolding free_first
ippool_free [] name ip = []
ippool_free (p ∷ ps) name ip =
    if same_name p.name name
    then record p { pool = free_first ip p.pool } ∷ ps
    else p ∷ ippool_free ps name ip

unfoldable pub holds : ℕ → List IpRec → Bool
holds ip [] = false
holds ip (r ∷ rs) = r.ip == ip || holds ip rs

-- `total`: how many addresses are not 0.0.0.0.
pub count_nonzero : List IpRec → ℕ
count_nonzero [] = 0
count_nonzero (r ∷ rs) = if r.ip == 0 then count_nonzero rs else suc (count_nonzero rs)

-- The loop of `IPPoolAdd`, with `c - i` rounds left: the new records, all free.
pub new_recs : List IpRec → ℕ → ℕ → List IpRec
unfolding holds
new_recs old zero ip = []
new_recs old (suc left) ip =
    let rest = new_recs old left (u32 (ip + 1)) in
    if holds ip old then rest else record { ip = ip; used = false } ∷ rest

-- `c`, an `int`: this bit pattern is `end - begin + 1`.
abbrev pub range_size : ℕ → ℕ → ℕ
range_size begin end = u32 (end + 4294967296 - begin + 1)

abbrev pub int_min : ℕ
int_min = 2147483648

-- `c > 65536`.
abbrev pub is_too_big : ℕ → ℕ → Bool
is_too_big begin end = ltb (range_size begin end) int_min && ltb 65536 (range_size begin end)

-- How `IPPoolAdd` ends for one pool: with a value, with no change for a range that is too big, in the exit of
-- `Malloc`, or in a write past the memory that `Malloc` gave.
pub data Added {ℓ} (A : Type ℓ) : Type ℓ where
  done : A → Added A
  too_big exits overrun : Added A

-- The machine: the bytes of a pointer, which are also those of a `size_t`, and whether `malloc` gives memory of a
-- size.
pub record Memory : Type 0 where
  pub pointer_size : ℕ
  pub gives : ℕ → Bool

-- A number as a `size_t`, and the bit pattern of an `int` as one: the sign is extended.
abbrev pub size_t : Memory → ℕ → ℕ
size_t m n = n % 256 ^ m.pointer_size

abbrev pub int_to_size : Memory → ℕ → ℕ
int_to_size m n = if ltb n int_min then n else n + 256 ^ m.pointer_size - 4294967296

-- `sizeof(struct ippool_rec)` and `sizeof(struct ippool)`.
abbrev pub rec_size : ℕ
rec_size = 8

abbrev pub pool_size : Memory → ℕ
pool_size m = 16 + 3 * m.pointer_size

-- `Malloc` of `size` bytes, into which `used` bytes are written then. It asks for a pointer more, which it writes
-- with the zeros of all the bytes behind it.
unfoldable pub allocate {ℓ} : {A : Type ℓ} → Memory → ℕ → ℕ → A → Added A
allocate m size used x =
    let given = size_t m (m.pointer_size + size) in
    if not (m.gives given)
    then exits
    else if ltb given (m.pointer_size + size) || ltb size used
    then overrun
    else done x

-- `IPPoolAdd` on the records of a pool, the test of the size included. With a `c` that is not positive its loop has no round.
unfoldable pub add_recs : Memory → List IpRec → ℕ → ℕ → Added (List IpRec)
unfolding count_nonzero new_recs allocate
add_recs m old begin end =
    let c = range_size begin end in
    let total = count_nonzero old in
    let fresh = if ltb c int_min then new_recs old c begin else [] in
    let size = size_t m (int_to_size m (u32 (total + c)) * rec_size) in
    if is_too_big begin end
    then too_big
    else allocate m size ((length old + length fresh) * rec_size) (old ++ fresh)

abbrev with_recs : Pool → List Pool → Added (List IpRec) → Added (List Pool)
with_recs p ps (done rs) = done (record p { pool = rs } ∷ ps)
with_recs p ps too_big = too_big
with_recs p ps exits = exits
with_recs p ps overrun = overrun

abbrev after : Pool → Added (List Pool) → Added (List Pool)
after p (done ps) = done (p ∷ ps)
after p too_big = too_big
after p exits = exits
after p overrun = overrun

abbrev pub has_pool : List Pool → List ℕ → Bool
has_pool [] name = false
has_pool (p ∷ ps) name = same_name p.name name || has_pool ps name

-- The pool of that name gets the range.
add_to : Memory → List Pool → List ℕ → ℕ → ℕ → Added (List Pool)
unfolding add_recs
add_to m [] name begin end = done []
add_to m (p ∷ ps) name begin end =
    if same_name p.name name
    then with_recs p ps (add_recs m p.pool begin end)
    else after p (add_to m ps name begin end)

-- `LINK_MAX_NAME - 1` bytes of a name are kept by `strlcpy`.
abbrev pub max_name : ℕ
max_name = 15

-- `IPPoolAdd`: a pool that is missing is made first, at the head, but not for a range that is too big.
pub ippool_add : Memory → List Pool → List ℕ → ℕ → ℕ → Added (List Pool)
unfolding add_to allocate
ippool_add m ps name begin end =
    if is_too_big begin end
    then too_big
    else if has_pool ps name
    then add_to m ps name begin end
    else if m.gives (size_t m (m.pointer_size + pool_size m))
    then with_recs (record { name = take max_name name; pool = [] }) ps (add_recs m [] begin end)
    else exits
