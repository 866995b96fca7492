-- ===== src/Ippool/Commute.antt =====
-- src/ippool.c: giving back two addresses, and giving back one of two.
use mpdx.Common.{ℕ, false, arith, List, [], ◌∷◌, ◌≡◌, refl, ap, ◌==◌, Bool-cases, inl, inr}
use mpdx.Ippool.{IpRec, Pool, free_first, same_name, ippool_free}
use mpdx.Ippool.Leases.{uses, leased}

pub free_first_comm :
    (a b : ℕ) (rs : List IpRec) → free_first b (free_first a rs) ≡ free_first a (free_first b rs)
unfolding free_first
free_first_comm a b [] = refl
free_first_comm a b (r ∷ rs) = elim (Bool-cases (r.ip == a)) [
  | inl e ↦ elim (Bool-cases (r.ip == b)) [ inl f ↦ simp (e, f) refl | inr f ↦ simp (e, f) refl ]
  | inr e ↦ elim (Bool-cases (r.ip == b)) [
    | inl f ↦ simp (e, f) refl
    | inr f ↦ simp (e, f) (ap (λ qs. r ∷ qs) (free_first_comm a b rs))
  ]
]

-- Two addresses may be given back in either order.
pub ippool_free_comm :
    (m n : List ℕ) (a b : ℕ) (ps : List Pool)
    → ippool_free (ippool_free ps m a) n b ≡ ippool_free (ippool_free ps n b) m a
unfolding ippool_free
ippool_free_comm m n a b [] = refl
ippool_free_comm m n a b (p ∷ ps) = elim (Bool-cases (same_name p.name m)) [
  | inl e ↦ elim (Bool-cases (same_name p.name n)) [
    | inl f ↦ simp (e, f) (ap (λ qs. record p { pool = qs } ∷ ps) (free_first_comm a b p.pool))
    | inr f ↦ simp (e, f) refl
  ]
  | inr e ↦ elim (Bool-cases (same_name p.name n)) [
    | inl f ↦ simp (e, f) refl
    | inr f ↦ simp (e, f) (ap (λ qs. p ∷ qs) (ippool_free_comm m n a b ps))
  ]
]

uses_other : (a b : ℕ) (rs : List IpRec) → (a == b) ≡ false → uses b (free_first a rs) ≡ uses b rs
unfolding free_first uses
uses_other a b [] n = refl
uses_other a b (r ∷ rs) n = ground (arith, uses_other a b rs n)

-- Giving back an address leaves the others as they are.
pub leased_other :
    (name : List ℕ) (a b : ℕ) (ps : List Pool)
    → (a == b) ≡ false
    → leased name b (ippool_free ps name a) ≡ leased name b ps
unfolding ippool_free leased
leased_other name a b [] n = refl
leased_other name a b (p ∷ ps) n = elim (Bool-cases (same_name p.name name)) [
  | inl e ↦ simp e (uses_other a b p.pool n)
  | inr e ↦ simp e (leased_other name a b ps n)
]
