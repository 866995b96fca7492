-- ===== src/Common/Words.antt =====
-- Fixed-width integers as bit patterns: `u_char`, `u_short`, and the signed `short`.
use Prim.Native.Nat.{ℕ, ◌+◌, ◌-◌, ◌*◌, ◌/◌, ◌%◌}
use mathlib.Core.Bool.{Bool, ◌&&◌}
use mathlib.Core.List.{List, [], ◌∷◌}
use mpdx.Common.Tests.{ltb, leb, if◌then◌else◌}

abbrev pub u8 : ℕ → ℕ
u8 n = n % 256

abbrev pub u16 : ℕ → ℕ
u16 n = n % 65536

abbrev pub u32 : ℕ → ℕ
u32 n = n % 4294967296

-- `x--` on a `short`.
abbrev pub pred16 : ℕ → ℕ
pred16 x = (x + 65535) % 65536

-- `x > 0` on a `short`.
abbrev pub is_pos16 : ℕ → Bool
is_pos16 x = ltb 0 x && ltb x 32768

-- The two parts of the integer that a `short` stands for: it is `pos16 x - neg16 x`.
abbrev pub pos16 : ℕ → ℕ
pos16 x = if ltb x 32768 then x else 0

abbrev pub neg16 : ℕ → ℕ
neg16 x = if ltb x 32768 then 0 else 65536 - x

-- `x * y >= z` on `short`s, computed in `int`.
abbrev pub mul_ge16 : ℕ → ℕ → ℕ → Bool
mul_ge16 x y z =
    leb (pos16 z + (pos16 x * neg16 y + neg16 x * pos16 y))
      (pos16 x * pos16 y + neg16 x * neg16 y + neg16 z)

-- Network byte order.
abbrev pub be16 : ℕ → List ℕ
be16 n = (n / 256 % 256) ∷ (n % 256) ∷ []

abbrev pub be32 : ℕ → List ℕ
be32 n = (n / 16777216 % 256) ∷ (n / 65536 % 256) ∷ (n / 256 % 256) ∷ (n % 256) ∷ []

-- The number that bytes in network order stand for.
abbrev pub from_be : ℕ → List ℕ → ℕ
from_be acc [] = acc
from_be acc (b ∷ bs) = from_be (acc * 256 + b) bs
