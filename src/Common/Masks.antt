-- ===== src/Common/Masks.antt =====
-- An integer used as a bit mask is the function that tells its bits.
use Prim.Native.Nat.{ℕ}
use mathlib.Core.Bool.{Bool, false, not, ◌&&◌, ◌||◌}
use mpdx.Common.Tests.{◌==◌}

abbrev pub Mask : Type 0
Mask = ℕ → Bool

abbrev pub no_bits : Mask
no_bits i = false

-- `mask |= 1 << k` and `mask &= ~(1 << k)`.
abbrev pub set_bit : ℕ → Mask → Mask
set_bit k mask i = i == k || mask i

abbrev pub clear_bit : ℕ → Mask → Mask
clear_bit k mask i = not (i == k) && mask i
