-- ===== src/Fsm/View/Events.antt =====
-- The events of Fsm/Events.antt against the abstract machine, by the case of the state.
use mpdx.Common.{
  Bool, true, false, ◌≡◌, refl, ap, ◌∙◌, Bool-cases, inl, inr, if◌then◌else◌, is_pos16,
}
use mpdx.Timer.{timer_expires}
use mpdx.Fsm.Types.{
  State, initial, starting, closed, stopped, closing, stopping, req_sent, ack_rcvd, ack_sent,
  opened, FsmFail, FsmType, Machine,
}
use mpdx.Fsm.Events.{
  fsm_open, fsm_up, fsm_down, fsm_close, fsm_failure, fsm_timeout, open_in, up_in, down_in,
  close_in, fail_in, retry_in, give_up_in, terminate, finish_unless_passive,
}
use mpdx.Fsm.View.{
  view, terminated, sent_terminate, opened_by, upped_by, downed_by, closed_by, failed_by,
  retried_by, given_up_by,
}
use mpdx.Fsm.Core.{fsm_layer_finish}
use mpdx.Fsm.View.Core.{
  view-on_layer, view-new_state, view-layer_down, view-layer_start, view-layer_finish,
  view-init_restart_counter, view-init_counters, view-send_config_req, view-send_terminate_req,
}

ruleset view_laws = (
  view-on_layer, view-new_state, view-layer_down, view-layer_start, view-layer_finish,
  view-init_restart_counter, view-init_counters, view-send_config_req, view-send_terminate_req,
)

pub view-choice :
    {C : Type 0} (b : Bool) (m n : Machine C)
    → view (if b then m else n) ≡ (if b then view m else view n)
view-choice true m n = refl
view-choice false m n = refl

module _ {C : Type 0} (ty : FsmType C) where
  view-open_in : (s : State) (m : Machine C) → view (open_in ty s m) ≡ opened_by s (view m)
  unfolding fsm_open
  view-open_in initial m = simp view_laws
  view-open_in closed m = simp view_laws
  view-open_in closing m = simp view_laws
  view-open_in _ m = refl

  pub view-fsm_open : (m : Machine C) → view (fsm_open ty m) ≡ opened_by m.state (view m)
  unfolding fsm_open
  view-fsm_open m = view-open_in m.state m

  view-up_in : (s : State) (m : Machine C) → view (up_in ty s m) ≡ upped_by s (view m)
  unfolding fsm_up
  view-up_in initial m = simp view_laws
  view-up_in starting m = simp view_laws
  view-up_in _ m = refl

  pub view-fsm_up : (m : Machine C) → view (fsm_up ty m) ≡ upped_by m.state (view m)
  unfolding fsm_up
  view-fsm_up m = view-up_in m.state m

  view-down_in : (s : State) (m : Machine C) → view (down_in ty s m) ≡ downed_by s (view m)
  unfolding fsm_down
  view-down_in initial m = refl
  view-down_in starting m = refl
  view-down_in _ m = simp view_laws

  pub view-fsm_down : (m : Machine C) → view (fsm_down ty m) ≡ downed_by m.state (view m)
  unfolding fsm_down
  view-fsm_down m = view-down_in m.state m

  view-terminate : (m : Machine C) → view (terminate ty m) ≡ terminated (view m)
  unfolding terminate view terminated
  view-terminate m =
      view-send_terminate_req ty _ ∙ ap sent_terminate (view-init_restart_counter ty _ m)

  view-close_in : (s : State) (m : Machine C) → view (close_in ty s m) ≡ closed_by s (view m)
  unfolding fsm_close
  view-close_in initial m = refl
  view-close_in closed m = refl
  view-close_in closing m = refl
  view-close_in _ m = simp (view_laws, view-terminate)

  pub view-fsm_close : (m : Machine C) → view (fsm_close ty m) ≡ closed_by m.state (view m)
  unfolding fsm_close
  view-fsm_close m = view-close_in m.state m

  view-finish_unless_passive : (m : Machine C) → view (finish_unless_passive ty m) ≡ view m
  unfolding finish_unless_passive
  view-finish_unless_passive m =
      view-choice m.conf.passive m (fsm_layer_finish ty m) ∙ choose m.conf.passive
    where
      choose : (b : Bool) → (if b then view m else view (fsm_layer_finish ty m)) ≡ view m
      choose true = refl
      choose false = view-layer_finish ty m

  view-fail_in : (s : State) (m : Machine C) → view (fail_in ty s m) ≡ failed_by s (view m)
  unfolding fsm_failure
  view-fail_in initial m = refl
  view-fail_in starting m = refl
  view-fail_in _ m = simp (view_laws, view-terminate, view-finish_unless_passive)

  pub view-fsm_failure :
      (why : FsmFail) (m : Machine C) → view (fsm_failure ty why m) ≡ failed_by m.state (view m)
  unfolding fsm_failure view
  view-fsm_failure why m = view-fail_in m.state _

  view-retry_in : (s : State) (m : Machine C) → view (retry_in ty s m) ≡ retried_by s (view m)
  unfolding fsm_timeout
  view-retry_in initial m = refl
  view-retry_in starting m = refl
  view-retry_in closed m = refl
  view-retry_in stopped m = refl
  view-retry_in opened m = refl
  view-retry_in _ m = simp view_laws

  view-give_up_in :
      (s : State) (m : Machine C) → m.state ≡ s → view (give_up_in ty s m) ≡ given_up_by s (view m)
  unfolding fsm_timeout
  view-give_up_in closing m e = simp view_laws
  view-give_up_in stopping m e = simp view_laws
  view-give_up_in req_sent m e = rw (view-fsm_failure, e)
  view-give_up_in ack_rcvd m e = rw (view-fsm_failure, e)
  view-give_up_in ack_sent m e = rw (view-fsm_failure, e)
  view-give_up_in initial m e = refl
  view-give_up_in _ m e = refl

  -- The machine that has just lost its pending expiry.
  unfoldable pub fired : Machine C → Machine C
  fired m = record m { timer = timer_expires m.timer }

  pub view-fsm_timeout :
      (m : Machine C)
      → view (fsm_timeout ty m) ≡ (
          if is_pos16 m.restart
          then retried_by m.state (view (fired m))
          else given_up_by m.state (view (fired m)))
  unfolding fsm_timeout fired
  view-fsm_timeout m = elim (Bool-cases (is_pos16 m.restart)) [
    | inl e ↦ rw e (view-retry_in m.state _)
    | inr e ↦ rw e (view-give_up_in m.state _ refl)
  ]
