-- ===== src/Ippool/Examples.antt =====
-- Small pools, for the lemmas of src/ippool.c.
use mpdx.Common.{
  ℕ, ◌≤◌, ◌*◌, ◌-◌, ◌+◌, ◌||◌, true, false, List, [], ◌∷◌, ◌≡◌, refl, arith, ltb, ◌==◌,
  if◌then◌else◌,
}
use mpdx.Ippool.{
  IpRec, Pool, done, exits, overrun, Memory, ippool_get, ippool_free, add_recs, holds, same_name,
  count_nonzero,
}
use mpdx.Ippool.Leases.{AllDistinct, leased, get-leased, free-get}
use mpdx.Ippool.Ranges.{add_recs-reversed}

abbrev taken : IpRec
taken = record { ip = 10; used = true }

abbrev idle : ℕ → IpRec
idle ip = record { ip = ip; used = false }

abbrev name : List ℕ
name = 112 ∷ 49 ∷ []

abbrev pools : List Pool
pools = record { name = name; pool = taken ∷ idle 11 ∷ idle 12 ∷ [] } ∷ []

abbrev after_one : List Pool
after_one =
    record { name = name; pool = taken ∷ record { ip = 11; used = true } ∷ idle 12 ∷ [] } ∷ []

get-leased_example :
    AllDistinct after_one
    × (leased name 11 pools ≡ false)
    × ((j : ℕ) → leased name j after_one ≡ (11 == j || leased name j pools))
unfolding ippool_get holds same_name
get-leased_example = get-leased name pools after_one 11 ((refl, (refl, (refl, tt))), tt) refl

free-get_example : ippool_free after_one name 11 ≡ pools
unfolding ippool_get holds same_name
free-get_example = free-get name pools after_one 11 ((refl, (refl, (refl, tt))), tt) refl

-- Pointers of eight bytes, and memory of every size below 2^63.
abbrev machine : Memory
machine = record { pointer_size = 8; gives = λ n. ltb n 9223372036854775808 }

machine-gives : (n : ℕ) → 9223372036854775808 ≤ n → machine.gives n ≡ false
machine-gives n h = ground arith

add_recs-reversed_example : add_recs machine (idle 5 ∷ idle 6 ∷ []) 12 10 ≡ (
    if ltb (count_nonzero (idle 5 ∷ idle 6 ∷ []) + 10 + 2) 12
    then exits
    else if machine.gives ((count_nonzero (idle 5 ∷ idle 6 ∷ []) + 10 + 2 - 12) * 8)
    then overrun
    else exits)
add_recs-reversed_example =
    add_recs-reversed machine (idle 5 ∷ idle 6 ∷ []) 12 10 refl machine-gives (omega arith)
      (omega arith) (omega arith) (omega arith)

overrun_test : add_recs machine (idle 5 ∷ idle 6 ∷ []) 12 10 ≡ overrun
unfolding add_recs
overrun_test = refl

exits_test : add_recs machine (idle 5 ∷ []) 20 10 ≡ exits
unfolding add_recs
exits_test = refl

nothing_test : add_recs machine (idle 5 ∷ []) 11 10 ≡ done (idle 5 ∷ [])
unfolding add_recs
nothing_test = refl
