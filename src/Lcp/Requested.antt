-- ===== src/Lcp/Requested.antt =====
-- The options of a request against those that the peer has rejected: `LcpBuildConfigReq` of src/lcp.c.
use mpdx.Common.{
  ℕ, Bool, true, false, not, ◌&&◌, ◌||◌, List, [], ◌∷◌, ◌++◌, ◌≡◌, ◌≢◌, refl, ap, ◌∙◌, arith,
  if◌then◌else◌, ◌==◌, Bool-cases, inl, inr,
}
use mpdx.Vars.{enabled}
use mpdx.Fsm.Options.{ConfData}
use mpdx.Lcp.Types.{LinkInfo, Lcp}
use mpdx.Lcp.Request.{option_if, auth_option, bundle_options, request_options}

-- A request has an option of the number `t`.
unfoldable pub has_option : ℕ → List (ℕ × ConfData) → Bool
has_option t [] = false
has_option t ((type, v) ∷ items) = type == t || has_option t items

has_option-append :
    (t : ℕ) (xs ys : List (ℕ × ConfData))
    → has_option t xs ≡ false
    → has_option t ys ≡ false
    → has_option t (xs ++ ys) ≡ false
unfolding has_option
has_option-append t [] ys h k = k
has_option-append t ((type, v) ∷ xs) ys h k =
    let (e, rest) = neither (type == t) (has_option t xs) h in
    rw e (has_option-append t xs ys rest k)
  where
    neither : (a b : Bool) → (a || b) ≡ false → (a ≡ false) × (b ≡ false)
    neither a b h = ground arith

-- An option that goes out under a condition that its number does not meet.
option_if-without :
    (t type : ℕ) (b : Bool) (v : ConfData)
    → (type ≡ t → b ≡ false)
    → has_option t (option_if b type v) ≡ false
unfolding has_option
option_if-without t type true v h = elim (Bool-cases (type == t)) [
  | inl e ↦ absurd (impossible (h (omega_eq type t e)))
  | inr e ↦ rw e refl
]
  where
    omega_eq : (a b : ℕ) → (a == b) ≡ true → a ≡ b
    omega_eq a b e = ground arith

    impossible : true ≡ false → ⊥
    impossible e = ground arith
option_if-without t type false v h = refl

without : (w r : Bool) → r ≡ true → (w && not r) ≡ false
without w r h = ground arith

auth_option-without : (t auth alg : ℕ) → t ≢ 3 → has_option t (auth_option auth alg) ≡ false
unfolding has_option auth_option
auth_option-without t auth alg h = ground arith

module _ (l : LinkInfo) (lcp : Lcp) (t : ℕ) (gone : lcp.peer_reject t ≡ true) where
  rejected_at : (type : ℕ) → type ≡ t → lcp.peer_reject type ≡ true
  rejected_at type e = ap lcp.peer_reject e ∙ gone

  part-without :
      (type : ℕ) (w : Bool) (v : ConfData)
      → has_option t (option_if (w && not (lcp.peer_reject type)) type v) ≡ false
  part-without type w v =
      option_if-without t type _ v (λ e. without w (lcp.peer_reject type) (rejected_at type e))

  bare-without :
      (type : ℕ) (v : ConfData)
      → has_option t (option_if (not (lcp.peer_reject type)) type v) ≡ false
  bare-without type v = option_if-without t type _ v (λ e. without true _ (rejected_at type e))

  bundle_if :
      (b : Bool) (v : ConfData) (rest : List (ℕ × ConfData))
      → has_option t rest ≡ false
      → (17 ≡ t → b ≡ false)
      → has_option t (if b then (17, v) ∷ rest else []) ≡ false
  unfolding has_option
  bundle_if true v rest k h = first (option_if-without t 17 true v h) k
    where
      first :
          (17 == t || false) ≡ false
          → has_option t rest ≡ false
          → (17 == t || has_option t rest) ≡ false
      first a b = ground arith
  bundle_if false v rest k h = refl

  bundle-without : has_option t (bundle_options l lcp) ≡ false
  unfolding bundle_options
  bundle-without =
      bundle_if (enabled l.options 15 && not (lcp.peer_reject 17)) _ _
        (has_option-append t _ _ (part-without 18 lcp.want_shortseq _) (bare-without 19 _))
        (λ e. without (enabled l.options 15) _ (rejected_at 17 e))

  -- An option that the peer has rejected is in no request; the authentication protocol is apart.
  pub request-without : t ≢ 3 → has_option t (request_options l lcp) ≡ false
  unfolding request_options
  request-without h =
      has_option-append t _ _
        (has_option-append t _ _
          (has_option-append t _ _
            (has_option-append t _ _
              (has_option-append t _ _
                (has_option-append t _ _
                  (has_option-append t _ _ (part-without 8 _ _) (part-without 7 _ _))
                  (part-without 2 _ _))
                (bare-without 1 _))
              (part-without 5 _ _))
            (part-without 13 _ _))
          (auth_option-without t lcp.want_auth lcp.want_alg h))
        bundle-without
