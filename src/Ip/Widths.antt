-- ===== src/Ip/Widths.antt =====
-- Masks and their widths: `in_addrtowidth` and `widthtoin_addr` of src/ip.c.
use mpdx.Common.{
  ℕ, zero, suc, ◌-◌, ◌+◌, ◌≤◌, ◌<◌, Bool, true, ◌&&◌, Option, none, some, ◌⊎◌, inl, inr, ◌≡◌, refl,
  ap, ◌∙◌, arith, ◌==◌,
}
use mpdx.Ip.{in_addrtowidth, widthtoin_addr}

-- A test of all the numbers below a bound.
all_below : ℕ → (ℕ → Bool) → Bool
all_below zero f = true
all_below (suc n) f = f n && all_below n f

both : (a b : Bool) → (a && b) ≡ true → (a ≡ true) × (b ≡ true)
both a b h = ground arith

all_below-at : (n : ℕ) (f : ℕ → Bool) (k : ℕ) → all_below n f ≡ true → k < n → f k ≡ true
unfolding all_below
all_below-at zero f k h e = absurd (omega arith)
all_below-at (suc n) f k h e =
    let (here, rest) = both (f n) (all_below n f) h in
    elim (is_last k n e) [ inl p ↦ ap f p ∙ here | inr q ↦ all_below-at n f k rest q ]
  where
    is_last : (a b : ℕ) → a < suc b → (a ≡ b) ⊎ (a < b)
    is_last a b h = ground arith

abbrev width_of : Option ℕ → ℕ
width_of none = 0
width_of (some mask) = in_addrtowidth mask

unfoldable keeps_width : ℕ → Bool
keeps_width k = width_of (widthtoin_addr (k + 1)) == k + 1

all_widths : all_below 32 keeps_width ≡ true
unfolding all_below keeps_width in_addrtowidth widthtoin_addr
all_widths = refl

keeps_width-at : (k : ℕ) → k < 32 → width_of (widthtoin_addr (k + 1)) ≡ k + 1
unfolding keeps_width
keeps_width-at k h = equal _ _ (all_below-at 32 keeps_width k all_widths h)
  where
    equal : (a b : ℕ) → (a == b) ≡ true → a ≡ b
    equal a b e = ground arith

abbrev pub width_back : Option ℕ → Option ℕ
width_back none = none
width_back (some mask) = some (in_addrtowidth mask)

width_back-of : (o : Option ℕ) (w : ℕ) → 1 ≤ w → width_of o ≡ w → width_back o ≡ some w
width_back-of none w h e = absurd (omega arith)
width_back-of (some mask) w h e = ap some e

-- The mask that `widthtoin_addr` makes of a width from 1 to 32 has that width for `in_addrtowidth`.
pub width_roundtrip :
    (width : ℕ) → 1 ≤ width → width ≤ 32 → width_back (widthtoin_addr width) ≡ some width
width_roundtrip width low high =
    let back : width ≡ width - 1 + 1 = omega arith in
    width_back-of (widthtoin_addr width) width low (
      ap (λ w. width_of (widthtoin_addr w)) back
      ∙ keeps_width-at (width - 1) (omega arith)
      ∙ omega arith)
