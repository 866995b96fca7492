-- ===== src/Ippool/Nonzero.antt =====
-- src/ippool.c: pools without the address 0.0.0.0.
use mpdx.Common.{ℕ, true, false, List, [], ◌∷◌, some, ◌≡◌, ◌∙◌, arith, ◌==◌, Bool-cases, inl, inr}
use mpdx.Ippool.{IpRec, Pool, holds, ippool_get}
use mpdx.Ippool.Leases.{Taken, Taken-holds, holds_of_Taken, Leased, get-Leased}

abbrev pub NoZero : List Pool → Type 0
NoZero [] = Unit {0}
NoZero (p ∷ ps) = (holds 0 p.pool ≡ false) × NoZero ps

Taken-nonzero :
    {rs qs : List IpRec} {ip : ℕ} → Taken rs ip qs → holds 0 rs ≡ false → (ip == 0) ≡ false
Taken-nonzero {rs} {qs} {ip} t z = elim (Bool-cases (ip == 0)) [
  | inl e ↦
      let same : ip ≡ 0 = ground (arith, e) in
      let held : holds 0 rs ≡ true = rw (← same) (holds_of_Taken t) in absurd (cc (z, held))
  | inr e ↦ e
]

Leased-nonzero :
    {name : List ℕ} {ps qs : List Pool} {ip : ℕ}
    → Leased name ps ip qs
    → NoZero ps
    → ((ip == 0) ≡ false) × NoZero qs
Leased-nonzero (Leased.here p ps u t) z = (Taken-nonzero t z.0, (Taken-holds 0 t ∙ z.0, z.1))
Leased-nonzero (Leased.there p u t) z = let (n, zs) = Leased-nonzero t z.1 in (n, (z.0, zs))

-- Pools that do not hold 0.0.0.0 hand out another address.
pub get-nonzero :
    (name : List ℕ) (ps qs : List Pool) (ip : ℕ)
    → NoZero ps
    → ippool_get ps name ≡ some (ip, qs)
    → ((ip == 0) ≡ false) × NoZero qs
get-nonzero name ps qs ip z h = Leased-nonzero (get-Leased name ps (ip, qs) h) z
