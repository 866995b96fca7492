-- ===== src/Vars/Lookup.antt =====
-- Which option a word names, and what a command with that word changes.
use mpdx.Common.{
  ℕ, zero, suc, ◌-◌, ◌≤◌, Bool, true, false, Option, none, some, List, [], ◌∷◌, ◌≡◌, refl, ◌∙◌,
  arith, ◌==◌, if◌then◌else◌, Bool-cases, inl, inr,
}
use mpdx.Vars.{
  Options, ConfInfo, Found, missing, ambiguous, at, begins_with, find_from, Which, change,
  change_at, change_found, do_options,
}

-- How many names the word abbreviates.
abbrev pub matches : List ConfInfo → List ℕ → ℕ
matches [] word = 0
matches (c ∷ list) word =
    if begins_with c.name word then suc (matches list word) else matches list word

-- The first name that the word abbreviates.
abbrev pub first_match : List ConfInfo → List ℕ → Option ConfInfo
first_match [] word = none
first_match (c ∷ list) word = if begins_with c.name word then some c else first_match list word

find_after :
    (k j : ℕ) (list : List ConfInfo) (word : List ℕ)
    → find_from k (at j) list word ≡ (if matches list word == 0 then at j else ambiguous)
unfolding find_from
find_after k j [] word = refl
find_after k j (c ∷ list) word = elim (Bool-cases (begins_with c.name word)) [
  | inl e ↦ rw e (ground arith)
  | inr e ↦ rw e (find_after (suc k) j list word)
]

-- An index found is one of those still to come.
abbrev From : ℕ → Found → Type 0
From k missing = Unit {0}
From k ambiguous = Unit {0}
From k (at j) = k ≤ j

From-pred : (k : ℕ) (found : Found) → From (suc k) found → From k found
From-pred k missing h = tt
From-pred k ambiguous h = tt
From-pred k (at j) h = omega arith

From-if : (k : ℕ) (b : Bool) → From k (if b then at k else ambiguous)
From-if k true = omega arith
From-if k false = tt

find_from-From :
    (k : ℕ) (list : List ConfInfo) (word : List ℕ) → From k (find_from k missing list word)
unfolding find_from
find_from-From k [] word = tt
find_from-From k (c ∷ list) word = elim (Bool-cases (begins_with c.name word)) [
  | inl e ↦ rw (e, find_after (suc k) k list word) (From-if k (matches list word == 0))
  | inr e ↦
      rw e (From-pred k (find_from (suc k) missing list word) (find_from-From (suc k) list word))
]

-- `change_found` where the list is what is left at index `k`.
abbrev change_from : ℕ → Which → List ConfInfo → Found → Options → Options
change_from k which list missing o = o
change_from k which list ambiguous o = o
change_from k which list (at j) o = change_at which list (j - k) o

abbrev pub change_option : Which → Option ConfInfo → Options → Options
change_option which none o = o
change_option which (some c) o = change which c o

change_from-skip :
    (k : ℕ) (which : Which) (c : ConfInfo) (list : List ConfInfo) (found : Found) (o : Options)
    → From (suc k) found
    → change_from k which (c ∷ list) found o ≡ change_from (suc k) which list found o
change_from-skip k which c list missing o h = refl
change_from-skip k which c list ambiguous o h = refl
change_from-skip k which c list (at j) o h =
    let next : j - k ≡ suc (j - suc k) = omega arith in rw next (unfold change_at in refl)

change_from-here :
    (k n : ℕ) (which : Which) (c : ConfInfo) (list : List ConfInfo) (o : Options)
    → change_from k which (c ∷ list) (if n == 0 then at k else ambiguous) o
      ≡ (if suc n == 1 then change which c o else o)
change_from-here k zero which c list o =
    let here : k - k ≡ 0 = omega arith in rw here (unfold change_at in refl)
change_from-here k (suc n) which c list o = ground arith

change_from-find :
    (k : ℕ) (which : Which) (list : List ConfInfo) (word : List ℕ) (o : Options)
    → change_from k which list (find_from k missing list word) o
      ≡ (if matches list word == 1 then change_option which (first_match list word) o else o)
unfolding find_from
change_from-find k which [] word o = refl
change_from-find k which (c ∷ list) word o = elim (Bool-cases (begins_with c.name word)) [
  | inl e ↦
      rw (e, find_after (suc k) k list word) (change_from-here k (matches list word) which c list o)
  | inr e ↦ rw e (
      change_from-skip k which c list (find_from (suc k) missing list word) o
        (find_from-From (suc k) list word)
      ∙ change_from-find (suc k) which list word o)
]

change_found-from :
    (which : Which) (list : List ConfInfo) (found : Found) (o : Options)
    → change_found which list found o ≡ change_from 0 which list found o
unfolding change_found
change_found-from which list missing o = refl
change_found-from which list ambiguous o = refl
change_found-from which list (at j) o = let here : j - 0 ≡ j = omega arith in rw here refl

-- A command with one word changes the option whose name the word abbreviates, in the way of the
-- command and no other; a word that abbreviates no name, or more than one, changes nothing.
pub do_options_one :
    (which : Which) (word : List ℕ) (list : List ConfInfo) (o : Options)
    → do_options which (word ∷ []) list o
      ≡ (if matches list word == 1 then change_option which (first_match list word) o else o)
unfolding do_options
do_options_one which word list o =
    change_found-from which list (find_from 0 missing list word) o
    ∙ change_from-find 0 which list word o
