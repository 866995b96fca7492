-- ===== src/Fsm/Retries.antt =====
-- The restart timer of src/fsm.c when the peer does not answer.
use mpdx.Common.{
  ℕ, zero, suc, ◌<◌, Bool, true, false, ◌≡◌, refl, sym, ap, ◌∙◌, arith, is_pos16, if◌then◌else◌,
}
use mathlib.Core.Path.{subst}
use mpdx.Timer.{Registered, idle, once, every, is_once}
use mpdx.Fsm.Types.{State, initial, FsmType, Machine}
use mpdx.Fsm.Rfc.{next, to_minus}
use mpdx.Fsm.Core.{is_quiet}
use mpdx.Fsm.Step.{expires, expire, step}
use mpdx.Fsm.View.{View, view, retried_by, given_up_by, moves}
use mpdx.Fsm.View.Events.{view-fsm_timeout}
use mpdx.Fsm.View.Moves.{disarmed, view-fired}

-- The abstract machine when the pending expiry comes.
abbrev expired_at : State → Bool → View → View
expired_at s more v = if more then retried_by s v else given_up_by s v

abbrev expired_if : Bool → View → View
expired_if more v = expired_at v.state more (disarmed v)

abbrev expired : View → View
expired v = expired_if (is_pos16 v.restart) v

-- A machine that waits with `k` retransmissions left, and stops in the state `t` without an answer.
record Waits (k : ℕ) (t : State) (v : View) : Type 0 where
  waiting : is_quiet v.state ≡ false
  ends : next to_minus v.state ≡ t
  armed : v.armed ≡ true
  ready : v.ready ≡ true
  left : v.restart ≡ k
  small : k < 32768

module _ {t : State} where
  retried_by-Waits :
      (k : ℕ) (s : State) (v : View)
      → v.state ≡ s
      → Waits (suc k) t v
      → Waits k t (retried_by s (disarmed v))
  unfolding moves
  retried_by-Waits k initial v e w = ground arith
  retried_by-Waits k _ v e w = ground arith

  given_up_by-ends :
      (s : State) (v : View) → v.state ≡ s → Waits 0 t v → (given_up_by s (disarmed v)).state ≡ t
  unfolding moves
  given_up_by-ends initial v e w = ground arith
  given_up_by-ends _ v e w = ground arith

  expired-Waits : (k : ℕ) (v : View) → Waits (suc k) t v → Waits k t (expired v)
  expired-Waits k v w =
      let more : true ≡ is_pos16 v.restart = ground arith in
      subst (λ b. Waits k t (expired_if b v)) more (retried_by-Waits k v.state v refl w)

  expired-ends : (v : View) → Waits 0 t v → (expired v).state ≡ t
  expired-ends v w =
      let over : false ≡ is_pos16 v.restart = ground arith in
      subst (λ b. (expired_if b v).state ≡ t) over (given_up_by-ends v.state v refl w)

module _ {C : Type 0} (ty : FsmType C) where
  -- The timer expires again and again, and nothing else happens.
  pub expirations : ℕ → Machine C → Machine C
  expirations zero m = m
  expirations (suc n) m = expirations n (step ty expires m)

  view-expire :
      (m : Machine C) (r : Registered)
      → m.timer.event ≡ r
      → is_once r ≡ true
      → view (expire ty r m) ≡ expired (view m)
  unfolding view
  view-expire m idle e h = cc
  view-expire m (every n) e h = cc
  view-expire m (once n) e h =
      view-fsm_timeout ty m
      ∙ ap (λ v. expired_at m.state (is_pos16 m.restart) v) (view-fired ty n m e)

  view-expires :
      (m : Machine C) → (view m).armed ≡ true → view (step ty expires m) ≡ expired (view m)
  unfolding step view
  view-expires m h = view-expire m m.timer.event refl h

  view-state : (m : Machine C) → (view m).state ≡ m.state
  unfolding view
  view-state m = refl

  expirations_end :
      {t : State} (k : ℕ) (m : Machine C) → Waits k t (view m) → (expirations (suc k) m).state ≡ t
  unfolding expirations
  expirations_end zero m w =
      sym (view-state (step ty expires m))
      ∙ ap (λ v. v.state) (view-expires m w.armed)
      ∙ expired-ends (view m) w
  expirations_end {t} (suc k) m w =
      expirations_end k (step ty expires m)
        (subst (λ v. Waits k t v) (sym (view-expires m w.armed)) (expired-Waits k (view m) w))

  -- A machine that waits, with its restart timer initialised and pending and `k` retransmissions
  -- left, ends after `k + 1` expiries with nothing in between in the state that the table has for its
  -- TO-; `k` is a positive `short` or zero.
  pub retries_end :
      (k : ℕ) (m : Machine C)
      → is_quiet m.state ≡ false
      → is_once m.timer.event ≡ true
      → m.timer.has_func ≡ true
      → m.restart ≡ k
      → k < 32768
      → (expirations (suc k) m).state ≡ next to_minus m.state
  unfolding view
  retries_end k m quiet pending set left small = expirations_end k m (record {
    waiting = quiet;
    ends = refl;
    armed = pending;
    ready = set;
    left = left;
    small = small;
  })
