-- ===== src/Fsm/Safety.antt =====
-- The machine of src/fsm.c between two events, over sequences of events.
use mpdx.Common.{ℕ, ◌+◌, true, false, not, List, [], ◌∷◌, ◌≡◌, ap, ◌∙◌, arith, is_pos16}
use mpdx.Timer.{is_once}
use mpdx.Fsm.Types.{stopping, opened, FsmConf, FsmType, Machine}
use mpdx.Fsm.Core.{fsm_init, is_quiet}
use mpdx.Fsm.Receive.{recv_config_req}
use mpdx.Fsm.Step.{Event, step, run}
use mpdx.Fsm.View.{view, count_ups, count_downs, requested_by}
use mpdx.Fsm.View.Request.{verdict, view-recv_config_req}
use mpdx.Fsm.View.Moves.{step-Moves}
use mpdx.Fsm.View.Timing.{IsTimed, Moves-IsTimed}
use mpdx.Fsm.View.Balance.{opened_weight, IsBalanced, Moves-IsBalanced, requested_by-exhausted}

-- A new machine with the configuration that the user has set.
unfoldable pub fresh : {C : Type 0} → FsmConf → C → Machine C
unfolding fsm_init
fresh conf c = record (fsm_init c) { conf = conf }

fresh-IsTimed :
    {C : Type 0} (conf : FsmConf) (c : C)
    → is_pos16 conf.maxfailure ≡ true
    → IsTimed (view (fresh conf c))
unfolding fresh view
fresh-IsTimed conf c h = ground arith

module _ {C : Type 0} (ty : FsmType C) where
  run-IsTimed : (es : List Event) (m : Machine C) → IsTimed (view m) → IsTimed (view (run ty es m))
  unfolding run
  run-IsTimed [] m h = h
  run-IsTimed (e ∷ es) m h = run-IsTimed es (step ty e m) (Moves-IsTimed (step-Moves ty e m) h)

  timer_of_IsTimed :
      (m : Machine C)
      → IsTimed (view m)
      → (is_once m.timer.event ≡ not (is_quiet m.state)) × (m.aborted ≡ false)
  unfolding view
  timer_of_IsTimed m h = (h.timed, h.alive)

  -- After any sequence of events from a fresh machine whose `maxfailure` is positive, an expiry of
  -- the restart timer is pending exactly in the closing, stopping, req-sent, ack-rcvd and ack-sent
  -- states, and no `assert` of a timer has failed.
  pub run_timer :
      (es : List Event) (conf : FsmConf) (c : C)
      → is_pos16 conf.maxfailure ≡ true
      → let m = run ty es (fresh conf c) in
        (is_once m.timer.event ≡ not (is_quiet m.state)) × (m.aborted ≡ false)
  run_timer es conf c h =
      timer_of_IsTimed _ (run-IsTimed es (fresh conf c) (fresh-IsTimed conf c h))

  step-IsBalanced :
      (e : Event) (m : Machine C)
      → (m.state ≡ opened → is_pos16 m.failure ≡ true)
      → IsBalanced (view m)
      → IsBalanced (view (step ty e m))
  unfolding view
  step-IsBalanced e m p h = Moves-IsBalanced (step-Moves ty e m) p h

  -- Every event keeps the balance of the layer calls: as many `LayerUp` as `LayerDown`, and one more
  -- in the opened state. The condition is that an opened machine has refusals left.
  pub step_balance :
      (e : Event) (m : Machine C)
      → (m.state ≡ opened → is_pos16 m.failure ≡ true)
      → count_ups m.actions ≡ count_downs m.actions + opened_weight m.state
      → let n = step ty e m in count_ups n.actions ≡ count_downs n.actions + opened_weight n.state
  unfolding view
  step_balance e m p h = step-IsBalanced e m p h

  exhausted_view :
      (id : ℕ) (body : List ℕ) (m : Machine C)
      → m.state ≡ opened
      → is_pos16 m.failure ≡ false
      → verdict ty body m ≡ false
      → view (recv_config_req ty id body m) ≡ requested_by opened false (view m)
  exhausted_view id body m e p d =
      view-recv_config_req ty id body m
      ∙ ap (λ s. requested_by s (verdict ty body m) (view m)) e
      ∙ ap (λ b. requested_by opened b (view m)) d

  -- A Configure-Request that the layer refuses, at an opened machine with no refusals left, calls
  -- `LayerDown` twice and leaves the machine stopping.
  pub exhausted_double_down :
      (id : ℕ) (body : List ℕ) (m : Machine C)
      → m.state ≡ opened
      → is_pos16 m.failure ≡ false
      → verdict ty body m ≡ false
      → let n = recv_config_req ty id body m in
        (count_downs n.actions ≡ count_downs m.actions + 2) × (n.state ≡ stopping)
  unfolding view
  exhausted_double_down id body m e p d =
      let same = exhausted_view id body m e p d in
      let (twice, ends) = requested_by-exhausted (view m) e p in
      (ap (λ v. v.downs) same ∙ twice, ap (λ v. v.state) same ∙ ends)
