-- ===== src/Ip/Order.antt =====
-- The order of addresses: `u_addrcompare` of src/ip.c.
use mpdx.Common.{ℕ, ◌<◌, List, [], ◌∷◌, ◌≡◌, ◌≢◌, ◌⊎◌, inl, inr, refl, sym, ap, ◌∙◌, arith, length}
use mpdx.Ip.{
  UAddr, unspec, ip4, ip6, Sign, less, same, more, s_addr, compare_numbers, compare_bytes,
  u_addrcompare,
}

-- What the type of an address allows: 32 bits, or sixteen bytes.
abbrev pub IsAddr : UAddr → Type 0
IsAddr unspec = Unit {0}
IsAddr (ip4 n) = n < 4294967296
IsAddr (ip6 bs) = length bs ≡ 16

unfoldable pub flip : Sign → Sign
flip less = more
flip same = same
flip more = less

numbers-same : (a b : ℕ) (s : Sign) → compare_numbers a b s ≡ same → (a ≡ b) × (s ≡ same)
numbers-same a b s h = (ground arith, ground arith)

numbers-flip : (a b : ℕ) (s : Sign) → compare_numbers b a (flip s) ≡ flip (compare_numbers a b s)
unfolding flip
numbers-flip a b s = ground arith

bytes-same : (xs ys : List ℕ) → length xs ≡ length ys → compare_bytes xs ys ≡ same → xs ≡ ys
unfolding compare_bytes
bytes-same [] [] e h = refl
bytes-same [] (y ∷ ys) e h = absurd (omega arith)
bytes-same (x ∷ xs) [] e h = absurd (omega arith)
bytes-same (x ∷ xs) (y ∷ ys) e h =
    let (here, rest) = numbers-same x y (compare_bytes xs ys) h in
    rw (here, bytes-same xs ys (omega arith) rest) refl

bytes-flip : (xs ys : List ℕ) → compare_bytes ys xs ≡ flip (compare_bytes xs ys)
unfolding compare_bytes flip
bytes-flip [] [] = refl
bytes-flip [] (y ∷ ys) = refl
bytes-flip (x ∷ xs) [] = refl
bytes-flip (x ∷ xs) (y ∷ ys) = rw (bytes-flip xs ys) (numbers-flip x y (compare_bytes xs ys))

s_addr-injective : (a b : ℕ) → a < 4294967296 → b < 4294967296 → s_addr a ≡ s_addr b → a ≡ b
s_addr-injective a b h k e = omega arith

flipped : {s t : Sign} → s ≡ t → flip s ≡ flip t
flipped e = ap flip e

compare-flip : (a b : UAddr) → u_addrcompare b a ≡ flip (u_addrcompare a b)
unfolding u_addrcompare flip
compare-flip unspec unspec = refl
compare-flip unspec (ip4 b) = refl
compare-flip unspec (ip6 b) = refl
compare-flip (ip4 a) unspec = refl
compare-flip (ip4 a) (ip4 b) = numbers-flip (s_addr a) (s_addr b) same
compare-flip (ip4 a) (ip6 b) = refl
compare-flip (ip6 a) unspec = refl
compare-flip (ip6 a) (ip4 b) = refl
compare-flip (ip6 a) (ip6 b) = bytes-flip a b

compare-same : (a b : UAddr) → IsAddr a → IsAddr b → u_addrcompare a b ≡ same → a ≡ b
unfolding u_addrcompare
compare-same unspec unspec h k e = refl
compare-same unspec (ip4 b) h k e = absurd (ground arith)
compare-same unspec (ip6 b) h k e = absurd (ground arith)
compare-same (ip4 a) unspec h k e = absurd (ground arith)
compare-same (ip4 a) (ip4 b) h k e =
    ap ip4 (s_addr-injective a b h k (numbers-same (s_addr a) (s_addr b) same e).0)
compare-same (ip4 a) (ip6 b) h k e = absurd (ground arith)
compare-same (ip6 a) unspec h k e = absurd (ground arith)
compare-same (ip6 a) (ip4 b) h k e = absurd (ground arith)
compare-same (ip6 a) (ip6 b) h k e = ap ip6 (bytes-same a b (h ∙ sym k) e)

-- Of two different addresses, of 32 bits or sixteen bytes, `u_addrcompare` puts one before the other,
-- and the same one when its arguments are exchanged.
pub u_addrcompare_order :
    (a b : UAddr)
    → IsAddr a
    → IsAddr b
    → a ≢ b
    → ((u_addrcompare a b ≡ less) × (u_addrcompare b a ≡ more))
      ⊎ ((u_addrcompare a b ≡ more) × (u_addrcompare b a ≡ less))
unfolding flip
u_addrcompare_order a b h k d = ordered (u_addrcompare a b) refl
  where
    ordered :
        (s : Sign)
        → u_addrcompare a b ≡ s
        → ((u_addrcompare a b ≡ less) × (u_addrcompare b a ≡ more))
          ⊎ ((u_addrcompare a b ≡ more) × (u_addrcompare b a ≡ less))
    ordered less e = inl (e, compare-flip a b ∙ flipped e)
    ordered same e = absurd (d (compare-same a b h k e))
    ordered more e = inr (e, compare-flip a b ∙ flipped e)
