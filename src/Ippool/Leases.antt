-- ===== src/Ippool/Leases.antt =====
-- src/ippool.c: taking addresses from a pool and giving them back.
use mathlib.Core.Path.{subst}
use mathlib.Core.Option.{some-injective}
use mpdx.Common.{
  ℕ, Bool, true, false, ◌&&◌, ◌||◌, Option, none, some, List, [], ◌∷◌, ◌≡◌, refl, ap, ◌∙◌, arith,
  ◌≢◌, if◌then◌else◌, Bool-cases, inl, inr, ◌==◌,
}
use mpdx.Ippool.{
  IpRec, Pool, get_first, free_first, holds, kept, put_back, behind, same_name, ippool_get,
  ippool_free,
}

-- No address stands twice in a pool.
abbrev pub Distinct : List IpRec → Type 0
Distinct [] = Unit {0}
Distinct (r ∷ rs) = (holds r.ip rs ≡ false) × Distinct rs

abbrev pub AllDistinct : List Pool → Type 0
AllDistinct [] = Unit {0}
AllDistinct (p ∷ ps) = Distinct p.pool × AllDistinct ps

-- Whether an address is in use.
unfoldable pub uses : ℕ → List IpRec → Bool
uses ip [] = false
uses ip (r ∷ rs) = r.ip == ip && r.used || uses ip rs

-- The first free record is taken.
pub data Taken : List IpRec → ℕ → List IpRec → Type 0 where
  here :
      (r : IpRec) (rs : List IpRec)
      → r.used ≡ false
      → Taken (r ∷ rs) r.ip (record r { used = true } ∷ rs)
  there :
      (r : IpRec) {rs qs : List IpRec} {ip : ℕ}
      → r.used ≡ true
      → Taken rs ip qs
      → Taken (r ∷ rs) ip (r ∷ qs)

kept-Taken :
    (r : IpRec) (rs : List IpRec) (o : Option (ℕ × List IpRec)) {a : ℕ × List IpRec}
    → r.used ≡ true
    → ((b : ℕ × List IpRec) → o ≡ some b → Taken rs b.0 b.1)
    → kept r o ≡ some a
    → Taken (r ∷ rs) a.0 a.1
kept-Taken r rs none u ih h = absurd (ground arith)
kept-Taken r rs (some b) u ih h =
    subst (λ (c : ℕ × List IpRec). Taken (r ∷ rs) c.0 c.1) (some-injective _ _ h)
      (there r u (ih b refl))

get_first-Taken : (rs : List IpRec) (a : ℕ × List IpRec) → get_first rs ≡ some a → Taken rs a.0 a.1
unfolding ippool_get
get_first-Taken [] a h = absurd (ground arith)
get_first-Taken (r ∷ rs) a h = elim (Bool-cases r.used) [
  | inl u ↦ kept-Taken r rs (get_first rs) u (get_first-Taken rs) (simp u at h)
  | inr u ↦
      subst (λ (c : ℕ × List IpRec). Taken (r ∷ rs) c.0 c.1) (some-injective _ _ (simp u at h))
        (here r rs u)
]

pub Taken-holds : {rs qs : List IpRec} {ip : ℕ} (j : ℕ) → Taken rs ip qs → holds j qs ≡ holds j rs
unfolding holds
Taken-holds j (here r rs u) = refl
Taken-holds j (there r u t) = ap (λ b. r.ip == j || b) (Taken-holds j t)

pub holds_of_Taken : {rs qs : List IpRec} {ip : ℕ} → Taken rs ip qs → holds ip rs ≡ true
unfolding holds
holds_of_Taken (here r rs u) = ground arith
holds_of_Taken (there r u t) = ground (arith, holds_of_Taken t)

uses_of_holds : (ip : ℕ) (rs : List IpRec) → holds ip rs ≡ false → uses ip rs ≡ false
unfolding holds uses
uses_of_holds ip [] h = refl
uses_of_holds ip (r ∷ rs) h = ground (arith, uses_of_holds ip rs)

Taken-free : {rs qs : List IpRec} {ip : ℕ} → Taken rs ip qs → Distinct rs → uses ip rs ≡ false
unfolding uses
Taken-free (here r rs u) d = ground (arith, uses_of_holds r.ip rs d.0)
Taken-free (there r {rs} {ip} u t) d = ground (arith, Taken-free t d.1, holds_of_Taken t)

Taken-uses :
    {rs qs : List IpRec} {ip : ℕ} (j : ℕ) → Taken rs ip qs → uses j qs ≡ (ip == j || uses j rs)
unfolding uses
Taken-uses j (here r rs u) = ground arith
Taken-uses j (there r u t) = ground (arith, Taken-uses j t)

Taken-Distinct : {rs qs : List IpRec} {ip : ℕ} → Taken rs ip qs → Distinct rs → Distinct qs
Taken-Distinct (here r rs u) d = d
Taken-Distinct (there r u t) d = (Taken-holds r.ip t ∙ d.0, Taken-Distinct t d.1)

-- Giving the address back undoes the taking.
Taken-restores :
    {rs qs : List IpRec} {ip : ℕ} → Taken rs ip qs → Distinct rs → free_first ip qs ≡ rs
unfolding free_first
Taken-restores (here r rs u) d = ground arith
Taken-restores (there r u t) d = ground (arith, Taken-restores t d.1, holds_of_Taken t)

-- A pool list from which an address was taken: the pool of that name is the first such one.
pub data Leased (name : List ℕ) : List Pool → ℕ → List Pool → Type 0 where
  here :
      (p : Pool) (ps : List Pool) {qs : List IpRec} {ip : ℕ}
      → same_name p.name name ≡ true
      → Taken p.pool ip qs
      → Leased name (p ∷ ps) ip (record p { pool = qs } ∷ ps)
  there :
      (p : Pool) {ps qs : List Pool} {ip : ℕ}
      → same_name p.name name ≡ false
      → Leased name ps ip qs
      → Leased name (p ∷ ps) ip (p ∷ qs)

module _ (name : List ℕ) where
  put_back-Leased :
      (p : Pool) (ps : List Pool) (o : Option (ℕ × List IpRec)) {a : ℕ × List Pool}
      → same_name p.name name ≡ true
      → ((b : ℕ × List IpRec) → o ≡ some b → Taken p.pool b.0 b.1)
      → put_back p ps o ≡ some a
      → Leased name (p ∷ ps) a.0 a.1
  put_back-Leased p ps none u ih h = absurd (ground arith)
  put_back-Leased p ps (some b) u ih h =
      subst (λ (c : ℕ × List Pool). Leased name (p ∷ ps) c.0 c.1) (some-injective _ _ h)
        (Leased.here p ps u (ih b refl))

  behind-Leased :
      (p : Pool) (ps : List Pool) (o : Option (ℕ × List Pool)) {a : ℕ × List Pool}
      → same_name p.name name ≡ false
      → ((b : ℕ × List Pool) → o ≡ some b → Leased name ps b.0 b.1)
      → behind p o ≡ some a
      → Leased name (p ∷ ps) a.0 a.1
  behind-Leased p ps none u ih h = absurd (ground arith)
  behind-Leased p ps (some b) u ih h =
      subst (λ (c : ℕ × List Pool). Leased name (p ∷ ps) c.0 c.1) (some-injective _ _ h)
        (Leased.there p u (ih b refl))

  pub get-Leased :
      (ps : List Pool) (a : ℕ × List Pool) → ippool_get ps name ≡ some a → Leased name ps a.0 a.1
  unfolding ippool_get
  get-Leased [] a h = absurd (ground arith)
  get-Leased (p ∷ ps) a h = elim (Bool-cases (same_name p.name name)) [
    | inl u ↦ put_back-Leased p ps (get_first p.pool) u (get_first-Taken p.pool) (simp u at h)
    | inr u ↦ behind-Leased p ps (ippool_get ps name) u (get-Leased ps) (simp u at h)
  ]

  -- Whether an address of the named pool is in use.
  unfoldable pub leased : ℕ → List Pool → Bool
  leased ip [] = false
  leased ip (p ∷ ps) = if same_name p.name name then uses ip p.pool else leased ip ps

  Leased-restores :
      {ps qs : List Pool} {ip : ℕ}
      → Leased name ps ip qs
      → AllDistinct ps
      → ippool_free qs name ip ≡ ps
  unfolding ippool_free
  Leased-restores (Leased.here p ps u t) d =
      rw u (ap (λ rs. record p { pool = rs } ∷ ps) (Taken-restores t d.0))
  Leased-restores (Leased.there p u t) d = rw u (ap (λ qs. p ∷ qs) (Leased-restores t d.1))

  Leased-leased :
      {ps qs : List Pool} {ip : ℕ}
      → Leased name ps ip qs
      → AllDistinct ps
      → AllDistinct qs × (leased ip ps ≡ false) × ((j : ℕ) → leased j qs ≡ (ip == j || leased j ps))
  unfolding leased
  Leased-leased (Leased.here p ps u t) d =
      ((Taken-Distinct t d.0, d.1), rw u (Taken-free t d.0), λ j. rw u (Taken-uses j t))
  Leased-leased (Leased.there p u t) d =
      let (a, b, c) = Leased-leased t d.1 in ((d.0, a), rw u b, λ j. rw u (c j))

  -- From pools in which no address stands twice: an address that `IPPoolGet` hands out was not in
  -- use, and is the one address that is in use afterwards and was not before; the addresses of each
  -- pool stay distinct.
  pub get-leased :
      (ps qs : List Pool) (ip : ℕ)
      → AllDistinct ps
      → ippool_get ps name ≡ some (ip, qs)
      → AllDistinct qs × (leased ip ps ≡ false) × ((j : ℕ) → leased j qs ≡ (ip == j || leased j ps))
  get-leased ps qs ip d h = Leased-leased (get-Leased ps (ip, qs) h) d

  -- Freeing an address that was just handed out restores the pools, where no address stands twice in
  -- a pool.
  pub free-get :
      (ps qs : List Pool) (ip : ℕ)
      → AllDistinct ps
      → ippool_get ps name ≡ some (ip, qs)
      → ippool_free qs name ip ≡ ps
  free-get ps qs ip d h = Leased-restores (get-Leased ps (ip, qs) h) d

  -- Two addresses that are handed out under one name, with no free in between, are different, where
  -- no address stands twice in a pool.
  pub get_twice :
      (ps qs rs : List Pool) (ip jp : ℕ)
      → AllDistinct ps
      → ippool_get ps name ≡ some (ip, qs)
      → ippool_get qs name ≡ some (jp, rs)
      → ip ≢ jp
  get_twice ps qs rs ip jp d h k = λ e.
      (let (dq, free, after) = get-leased ps qs ip d h in
        let (dr, free', after') = get-leased qs rs jp dq k in ground (arith, after jp))
