-- ===== src/Ip/Prefix.antt =====
-- The ranges of IPv6 addresses whose width is a whole number of bytes: `IpAddrInRange` of src/ip.c.
use mpdx.Common.{
  ℕ, zero, suc, ◌+◌, ◌*◌, ◌/◌, Bool, true, false, ◌&&◌, List, [], ◌∷◌, ◌≡◌, refl, arith, ◌==◌,
  lt→ltb, le→ltb,
}
use mpdx.Ip.{ip6, u_addrempty, bytes_in_range, ip_addr_in_range}

-- The first bytes are the same.
unfoldable pub same_front : ℕ → List ℕ → List ℕ → Bool
same_front zero as_ bs = true
same_front (suc n) (a ∷ as_) (b ∷ bs) = a == b && same_front n as_ bs
same_front (suc n) _ _ = true

bytes-same_front :
    (overlong : ℕ → ℕ → ℕ) (i k width : ℕ) (xs ys : List ℕ)
    → width ≡ (i + k) * 8
    → bytes_in_range overlong width i xs ys ≡ same_front k xs ys
unfolding bytes_in_range same_front
bytes-same_front overlong i zero width (x ∷ xs) (y ∷ ys) e =
    rw (le→ltb i ((width + 7) / 8) (omega arith)) refl
bytes-same_front overlong i (suc k) width (x ∷ xs) (y ∷ ys) e =
    rw
      (
        lt→ltb i ((width + 7) / 8) (omega arith),
        lt→ltb (i * 8 + 7) width (omega arith),
        bytes-same_front overlong (suc i) k width xs ys (omega arith),
      )
      refl
bytes-same_front overlong i zero width [] ys e = refl
bytes-same_front overlong i (suc k) width [] ys e = refl
bytes-same_front overlong i zero width (x ∷ xs) [] e = refl
bytes-same_front overlong i (suc k) width (x ∷ xs) [] e = refl

-- An IPv6 address is in a range whose width is `n` bytes, and whose address is not all zero, exactly
-- when its first `n` bytes are those of the range.
pub in_range-same_front :
    (overlong : ℕ → ℕ → ℕ) (n : ℕ) (r a : List ℕ)
    → u_addrempty (ip6 r) ≡ false
    → ip_addr_in_range overlong (record { addr = ip6 r; width = n * 8 }) (ip6 a) ≡ same_front n a r
unfolding ip_addr_in_range
in_range-same_front overlong n r a e =
    rw e (bytes-same_front overlong 0 n (n * 8) a r (omega arith))
