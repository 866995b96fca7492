-- ===== src/Fsm/Carry/Events.antt =====
-- The events of Fsm/Events.antt, on a layer that keeps something in step with the state.
use mpdx.Common.{Option, none, some, Bool, true, false, refl, if◌then◌else◌, is_pos16}
use mpdx.Fsm.Types.{
  State, initial, starting, closed, stopped, closing, stopping, req_sent, ack_rcvd, ack_sent,
  opened, FsmFail, negot_failure, FsmType, Machine,
}
use mpdx.Timer.{timer_expires}
use mpdx.Fsm.Events.{
  fsm_open, fsm_up, fsm_down, fsm_close, fsm_failure, fsm_timeout, open_in, up_in, down_in,
  close_in, fail_in, retry_in, give_up_in, terminate, finish_unless_passive, tell_failure,
}
use mpdx.Fsm.Carry.{may_move, Carries, KeptOn, At, InStep}
use mpdx.Fsm.Carry.Core.{
  At-new_state, At-layer_down, At-layer_start, At-layer_finish, At-init_restart_counter,
  At-init_counters, At-configure, At-un_configure, At-send_config_req, At-send_terminate_req, At-if,
}

module _ {C : Type 0} {P : State → C → Type 0} where
  pub InStep-At : {s : State} {m : Machine C} → At P s m → InStep P m
  InStep-At a = record { kept = rw a.state a.kept }

  pub At-InStep : {m : Machine C} → InStep P m → At P m.state m
  At-InStep h = record { state = refl; kept = h.kept }

  pub InStep-if :
      {m n : Machine C} (b : Bool) → InStep P m → InStep P n → InStep P (if b then m else n)
  InStep-if true h k = h
  InStep-if false h k = k

module _ {C : Type 0} (ty : FsmType C) {P : State → C → Type 0} (k : Carries ty P) where
  InStep-open_in : (s : State) (m : Machine C) → At P s m → InStep P (open_in ty s m)
  unfolding fsm_open may_move
  InStep-open_in initial m a = InStep-At (At-layer_start ty k (At-new_state ty k starting a refl))
  InStep-open_in closed m a = InStep-At (
      At-send_config_req ty k (
        At-init_counters ty k
          (At-layer_start ty k (At-new_state ty k req_sent (At-configure ty k a) refl))))
  InStep-open_in closing m a = InStep-At (At-new_state ty k stopping a refl)
  InStep-open_in _ m a = InStep-At a

  pub InStep-fsm_open : (m : Machine C) → InStep P m → InStep P (fsm_open ty m)
  unfolding fsm_open
  InStep-fsm_open m h = InStep-open_in m.state m (At-InStep h)

  InStep-up_in : (s : State) (m : Machine C) → At P s m → InStep P (up_in ty s m)
  unfolding fsm_up may_move
  InStep-up_in initial m a = InStep-At (At-new_state ty k closed a refl)
  InStep-up_in starting m a = InStep-At (
      At-send_config_req ty k
        (At-init_counters ty k (At-new_state ty k req_sent (At-configure ty k a) refl)))
  InStep-up_in _ m a = InStep-At a

  pub InStep-fsm_up : (m : Machine C) → InStep P m → InStep P (fsm_up ty m)
  unfolding fsm_up
  InStep-fsm_up m h = InStep-up_in m.state m (At-InStep h)

  InStep-down_in : (s : State) (m : Machine C) → At P s m → InStep P (down_in ty s m)
  unfolding fsm_down may_move
  InStep-down_in closing m a = InStep-At (At-new_state ty k initial (At-layer_finish ty k a) refl)
  InStep-down_in closed m a = InStep-At (At-new_state ty k initial a refl)
  InStep-down_in stopped m a = InStep-At (At-layer_start ty k (At-new_state ty k starting a refl))
  InStep-down_in opened m a =
      InStep-At (At-un_configure ty k (At-layer_down ty k (At-new_state ty k starting a refl)))
  InStep-down_in initial m a = InStep-At a
  InStep-down_in starting m a = InStep-At a
  InStep-down_in stopping m a = InStep-At (At-un_configure ty k (At-new_state ty k starting a refl))
  InStep-down_in req_sent m a = InStep-At (At-un_configure ty k (At-new_state ty k starting a refl))
  InStep-down_in ack_rcvd m a = InStep-At (At-un_configure ty k (At-new_state ty k starting a refl))
  InStep-down_in ack_sent m a = InStep-At (At-un_configure ty k (At-new_state ty k starting a refl))

  pub InStep-fsm_down : (m : Machine C) → InStep P m → InStep P (fsm_down ty m)
  unfolding fsm_down
  InStep-fsm_down m h = InStep-down_in m.state m (At-InStep h)

  At-terminate : {s : State} {m : Machine C} → At P s m → At P s (terminate ty m)
  unfolding terminate
  At-terminate {s} {m} a =
      At-send_terminate_req ty k (At-init_restart_counter ty k m.conf.maxterminate a)

  At-finish_unless_passive :
      {s : State} {m : Machine C} → At P s m → At P s (finish_unless_passive ty m)
  unfolding finish_unless_passive
  At-finish_unless_passive {s} {m} a = At-if m.conf.passive a (At-layer_finish ty k a)

  InStep-close_in : (s : State) (m : Machine C) → At P s m → InStep P (close_in ty s m)
  unfolding fsm_close may_move
  InStep-close_in starting m a = InStep-At (At-layer_finish ty k (At-new_state ty k initial a refl))
  InStep-close_in stopped m a = InStep-At (At-new_state ty k closed a refl)
  InStep-close_in stopping m a = InStep-At (At-new_state ty k closing a refl)
  InStep-close_in opened m a =
      InStep-At (
        At-un_configure ty k (At-layer_down ty k (At-terminate (At-new_state ty k closing a refl))))
  InStep-close_in req_sent m a =
      InStep-At (At-un_configure ty k (At-terminate (At-new_state ty k closing a refl)))
  InStep-close_in ack_rcvd m a =
      InStep-At (At-un_configure ty k (At-terminate (At-new_state ty k closing a refl)))
  InStep-close_in ack_sent m a =
      InStep-At (At-un_configure ty k (At-terminate (At-new_state ty k closing a refl)))
  InStep-close_in _ m a = InStep-At a

  pub InStep-fsm_close : (m : Machine C) → InStep P m → InStep P (fsm_close ty m)
  unfolding fsm_close
  InStep-fsm_close m h = InStep-close_in m.state m (At-InStep h)

  InStep-fail_in : (s : State) (m : Machine C) → At P s m → InStep P (fail_in ty s m)
  unfolding fsm_failure may_move
  InStep-fail_in closing m a = InStep-At (At-layer_finish ty k (At-new_state ty k closed a refl))
  InStep-fail_in closed m a = InStep-At (At-layer_finish ty k a)
  InStep-fail_in stopping m a = InStep-At (At-layer_finish ty k (At-new_state ty k stopped a refl))
  InStep-fail_in opened m a =
      InStep-At (
        At-un_configure ty k
          (At-layer_down ty k (At-terminate (At-new_state ty k stopping a refl))))
  InStep-fail_in stopped m a = InStep-At (At-finish_unless_passive a)
  InStep-fail_in req_sent m a =
      InStep-At (At-un_configure ty k (At-finish_unless_passive (At-new_state ty k stopped a refl)))
  InStep-fail_in ack_rcvd m a =
      InStep-At (At-un_configure ty k (At-finish_unless_passive (At-new_state ty k stopped a refl)))
  InStep-fail_in ack_sent m a =
      InStep-At (At-un_configure ty k (At-finish_unless_passive (At-new_state ty k stopped a refl)))
  InStep-fail_in _ m a = InStep-At a

  kept_failure :
      (h : Option (FsmFail → C → C)) (why : FsmFail) (s : State) (c : C)
      → KeptOn P h
      → P s c
      → P s (tell_failure h why c)
  kept_failure none why s c q p = p
  kept_failure (some h) why s c q p = q why s c p

  pub InStep-fsm_failure :
      (why : FsmFail) (m : Machine C) → InStep P m → InStep P (fsm_failure ty why m)
  unfolding fsm_failure
  InStep-fsm_failure why m h = InStep-fail_in m.state _ (record {
    state = refl;
    kept = kept_failure ty.on_failure why m.state m.layer k.failure h.kept;
  })

  InStep-retry_in : (s : State) (m : Machine C) → At P s m → InStep P (retry_in ty s m)
  unfolding fsm_timeout may_move
  InStep-retry_in closing m a = InStep-At (At-send_terminate_req ty k a)
  InStep-retry_in stopping m a = InStep-At (At-send_terminate_req ty k a)
  InStep-retry_in req_sent m a = InStep-At (At-send_config_req ty k a)
  InStep-retry_in ack_sent m a = InStep-At (At-send_config_req ty k a)
  InStep-retry_in ack_rcvd m a =
      InStep-At (At-send_config_req ty k (At-new_state ty k req_sent a refl))
  InStep-retry_in _ m a = InStep-At a

  InStep-give_up_in : (s : State) (m : Machine C) → At P s m → InStep P (give_up_in ty s m)
  unfolding fsm_timeout may_move
  InStep-give_up_in closing m a = InStep-At (At-layer_finish ty k (At-new_state ty k closed a refl))
  InStep-give_up_in stopping m a =
      InStep-At (At-layer_finish ty k (At-new_state ty k stopped a refl))
  InStep-give_up_in req_sent m a = InStep-fsm_failure negot_failure m (InStep-At a)
  InStep-give_up_in ack_sent m a = InStep-fsm_failure negot_failure m (InStep-At a)
  InStep-give_up_in ack_rcvd m a = InStep-fsm_failure negot_failure m (InStep-At a)
  InStep-give_up_in _ m a = InStep-At a

  pub InStep-fsm_timeout : (m : Machine C) → InStep P m → InStep P (fsm_timeout ty m)
  unfolding fsm_timeout
  InStep-fsm_timeout m h =
      let fired : Machine C = record m { timer = timer_expires m.timer } in
      let at_fired : At P m.state fired = record { state = refl; kept = h.kept } in
      InStep-if (is_pos16 m.restart) (InStep-retry_in m.state fired at_fired)
        (InStep-give_up_in m.state fired at_fired)
