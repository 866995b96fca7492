-- ===== src/Input/Gate.antt =====
-- Which frames src/input.c lets through.
use mathlib.Core.Option
use mpdx.Common.{
  ℕ, zero, suc, ◌≤◌, Bool, true, false, ◌||◌, Option, none, some, List, ◌∷◌, length, ◌==◌, ◌≡◌,
  refl, ap, ◌∙◌, le→ltb, arith, if◌then◌else◌,
}
use mpdx.Fsm.Core.{code_number}
use mpdx.Lcp.Types.{Phase, dead, establish, authenticate, network, terminate}
use mpdx.Input.{
  Link, Bund, Engine, auth_input, Outcome, handled, given, freed, rejected, over_bundle,
  is_link_layer, input_link_check, served, bundle_dispatch, dispatch_on, link_dispatch, or_reject,
  input_link, input_frame, first_place, mp_link_lcp, input_mp_link, reject_on,
}

-- What may become of a frame in each phase.
abbrev pub may_become : Phase → Outcome → Bool
may_become _ freed = true
may_become network (given engine sent) = true
may_become authenticate (given auth_input sent) = true
may_become network (rejected l) = true
may_become authenticate (rejected l) = true
may_become establish (handled l) = true
may_become authenticate (handled l) = true
may_become network (handled l) = true
may_become terminate (handled l) = true
may_become _ _ = false

unfoldable Passes : Phase → Link → Option Outcome → Type 0
Passes phase l x = may_become phase (or_reject x (rejected l)) ≡ true

either :
    (phase : Phase) (l : Link) (c : Bool) (x y : Option Outcome)
    → Passes phase l x
    → Passes phase l y
    → Passes phase l (if c then x else y)
either phase l true x y h k = h
either phase l false x y h k = k

module _ (bytes : List ℕ) (l : Link) where
  some-Passes : (phase : Phase) (o : Outcome) → may_become phase o ≡ true → Passes phase l (some o)
  unfolding Passes
  some-Passes phase o h = h

  none-Passes : (phase : Phase) → may_become phase (rejected l) ≡ true → Passes phase l none
  unfolding Passes
  none-Passes phase h = h

  served-Passes : (on control : Bool) (e : Engine) → Passes network l (served on control e bytes)
  unfolding served
  served-Passes true true e = some-Passes network _ refl
  served-Passes true false e = some-Passes network _ refl
  served-Passes false control e = none-Passes network refl

  bundle-Passes : (b : Bund) (proto : ℕ) → Passes network l (bundle_dispatch b proto bytes)
  unfolding bundle_dispatch
  bundle-Passes b proto = search (either, served-Passes, none-Passes network refl)

  dispatch_on-Passes : (b : Option Bund) (proto : ℕ) → Passes network l (dispatch_on b proto bytes)
  dispatch_on-Passes none proto = some-Passes network freed refl
  dispatch_on-Passes (some b) proto = bundle-Passes b proto

  bundle-link_layer :
      (b : Bund) (proto : ℕ) → is_link_layer proto ≡ true → bundle_dispatch b proto bytes ≡ none
  unfolding bundle_dispatch
  bundle-link_layer b proto h = ground arith

  link_layer-Passes :
      (b : Option Bund) (proto : ℕ)
      → is_link_layer proto ≡ true
      → Passes authenticate l (dispatch_on b proto bytes)
  link_layer-Passes none proto h = some-Passes authenticate freed refl
  link_layer-Passes (some b) proto h =
      rw (bundle-link_layer b proto h) (none-Passes authenticate refl)

  multilink-Passes :
      (phase : Phase) (on : Bool)
      → may_become phase (rejected l) ≡ true
      → Passes phase l (if on then some freed else none)
  multilink-Passes phase on h =
      either phase l on _ _ (some-Passes phase freed refl) (none-Passes phase h)

  link_dispatch-Passes :
      (phase : Phase) (b : Option Bund) (from : Link) (proto : ℕ)
      → input_link_check phase proto ≡ true
      → Passes phase l (link_dispatch b from proto bytes)
  unfolding link_dispatch input_link_check
  link_dispatch-Passes dead b from proto h = ground arith
  link_dispatch-Passes establish b from proto h = rw h (some-Passes establish _ refl)
  link_dispatch-Passes terminate b from proto h = rw h (some-Passes terminate _ refl)
  link_dispatch-Passes authenticate b from proto h =
      search (either, some-Passes, multilink-Passes, link_layer-Passes b proto h)
  link_dispatch-Passes network b from proto h =
      search (either, some-Passes, multilink-Passes, dispatch_on-Passes)

checked :
    (phase : Phase) (c : Bool) (o : Outcome)
    → (c ≡ true → may_become phase o ≡ true)
    → may_become phase (if c then o else freed) ≡ true
checked phase true o h = h refl
checked phase false o h = refl

-- Whatever the protocol and the bytes of a frame, on a dead link it is freed; in the establish and terminate
-- phases only LCP gets it; while the link authenticates only LCP or the authentication gets it, or a
-- Protocol-Reject answers it; the control protocols of the bundle get frames in the network phase alone.
pub input_link-may_become :
    (b : Option Bund) (l : Link) (proto : ℕ) (bytes : List ℕ)
    → may_become l.lcp.layer.phase (input_link b l proto bytes) ≡ true
unfolding input_link Passes
input_link-may_become b l proto bytes =
    checked l.lcp.layer.phase (input_link_check l.lcp.layer.phase proto) _
      (link_dispatch-Passes bytes (reject_on l proto bytes) l.lcp.layer.phase b l proto)

-- A packet that is not shorter than a pointer, and a Code-Reject or a Protocol-Reject.
module _ (pointer_size : ℕ) (b : Bund) (first : Option Link) (ls : List (Option Link)) (code : ℕ)
    (bytes : List ℕ) (h : pointer_size ≤ length (code ∷ bytes))
    (k : (code == 7 || code == 8) ≡ true) (e : b.links ≡ first ∷ ls) where
  abbrev taken : ℕ → Option Outcome
  taken n = input_frame pointer_size n (over_bundle b) 49185 (code ∷ bytes)

  taken-first_place : (n : ℕ) → taken (suc n) ≡ first_place (taken n) (first ∷ ls)
  unfolding input_frame input_mp_link mp_link_lcp code_number
  taken-first_place n =
      rw (le→ltb (length (code ∷ bytes)) pointer_size h, k) (ap (first_place (taken n)) e)

module _ (pointer_size : ℕ) (b : Bund) (ls : List (Option Link)) (code : ℕ) (bytes : List ℕ)
    (h : pointer_size ≤ length (code ∷ bytes)) (k : (code == 7 || code == 8) ≡ true) where
  -- A Code-Reject or Protocol-Reject of LCP that arrives over a bundle and is not shorter than a pointer is
  -- never passed to a link: where the first place of the bundle is NULL, no fuel is enough, as `InputFrame` calls
  -- itself with the same arguments, and where it is a link, the frame is freed.
  pub over_bundle-lost :
      (first : Option Link)
      → b.links ≡ first ∷ ls
      → (n : ℕ)
      → input_frame pointer_size (suc n) (over_bundle b) 49185 (code ∷ bytes)
        ≡ Option.map (λ l. freed) first
  unfolding input_frame
  over_bundle-lost none e zero = taken-first_place pointer_size b none ls code bytes h k e zero
  over_bundle-lost none e (suc n) =
      taken-first_place pointer_size b none ls code bytes h k e (suc n) ∙ over_bundle-lost none e n
  over_bundle-lost (some l) e n = taken-first_place pointer_size b (some l) ls code bytes h k e n
