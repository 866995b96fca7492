-- ===== src/Ip/Examples.antt =====
-- Addresses and ranges, and the properties of src/ip.c at them.
use mpdx.Common.{ℕ, true, false, List, [], ◌∷◌, ◌≡◌, ◌≢◌, ◌<◌, refl, ap, arith}
use mpdx.Ip.{UAddr, ip6, u_addrempty, ip_addr_in_range}
use mpdx.Ip.Prefix.{same_front, in_range-same_front}

-- 2001:db8::1 and 2001:db8:1::1.
abbrev host : List ℕ
host = 32 ∷ 1 ∷ 13 ∷ 184 ∷ 0 ∷ 0 ∷ 0 ∷ 0 ∷ 0 ∷ 0 ∷ 0 ∷ 0 ∷ 0 ∷ 0 ∷ 0 ∷ 1 ∷ []

abbrev other : List ℕ
other = 32 ∷ 1 ∷ 13 ∷ 184 ∷ 0 ∷ 1 ∷ 0 ∷ 0 ∷ 0 ∷ 0 ∷ 0 ∷ 0 ∷ 0 ∷ 0 ∷ 0 ∷ 1 ∷ []

host-full : u_addrempty (ip6 host) ≡ false
unfolding u_addrempty
host-full = refl

in_range-same_front_example :
    ip_addr_in_range (λ w b. 0) (record { addr = ip6 host; width = 32 }) (ip6 other)
    ≡ same_front 4 other host
in_range-same_front_example = in_range-same_front (λ w b. 0) 4 host other host-full

-- A machine whose undefined shift keeps no bit of a byte takes an address into a range of width 20
-- that differs from it in the seventeenth bit.
in_range_gap :
    ip_addr_in_range
      (λ w b. 0)
      (record { addr = ip6 host; width = 20 })
      (ip6 (32 ∷ 1 ∷ 141 ∷ 184 ∷ 0 ∷ 0 ∷ 0 ∷ 0 ∷ 0 ∷ 0 ∷ 0 ∷ 0 ∷ 0 ∷ 0 ∷ 0 ∷ 1 ∷ []))
    ≡ true
unfolding ip_addr_in_range
in_range_gap = refl

fifth : UAddr → ℕ
fifth (ip6 (_ ∷ _ ∷ _ ∷ _ ∷ _ ∷ b ∷ bs)) = b
fifth _ = 0

host-other : ip6 host ≢ ip6 other
unfolding fifth
host-other e = ones (ap fifth e) (omega arith)
  where
    ones : {m n : ℕ} → m ≡ n → m < n → ⊥
    ones p q = omega arith
