-- ===== src/Fsm/Events.antt =====
-- src/fsm.c: the events that do not come from the peer, `FsmOpen`, `FsmClose`, `FsmUp`, `FsmDown`
-- and `FsmTimeout`, and the shutdown `FsmFailure`. The `RESTART_` options are not defined there.
use mpdx.Common.{Option, none, some, if◌then◌else◌, is_pos16}
use mpdx.Timer.{timer_expires}
use mpdx.Fsm.Types.{
  State, initial, starting, closed, stopped, closing, stopping, req_sent, ack_rcvd, ack_sent,
  opened, FsmFail, negot_failure, FsmType, Op, ◌>>◌, on_layer,
}
use mpdx.Fsm.Core.{
  new_state, fsm_layer_down, fsm_layer_start, fsm_layer_finish, init_restart_counter, init_counters,
  send_config_req, send_terminate_req,
}

abbrev pub tell_failure : {C : Type 0} → Option (FsmFail → C → C) → FsmFail → C → C
tell_failure none why c = c
tell_failure (some h) why c = h why c

module _ {C : Type 0} (ty : FsmType C) where
  pub open_in : State → Op C
  open_in initial = do new_state ty starting; fsm_layer_start ty
  open_in closed = do
    on_layer ty.configure
    new_state ty req_sent
    fsm_layer_start ty
    init_counters ty
    send_config_req ty
  open_in closing = new_state ty stopping
  open_in _ = λ m. m

  -- `FsmOpen`.
  unfoldable pub fsm_open : Op C
  unfolding open_in
  fsm_open m = open_in m.state m

  pub up_in : State → Op C
  up_in initial = new_state ty closed
  up_in starting = do
    on_layer ty.configure
    new_state ty req_sent
    init_counters ty
    send_config_req ty
  up_in _ = λ m. m

  -- `FsmUp`.
  unfoldable pub fsm_up : Op C
  unfolding up_in
  fsm_up m = up_in m.state m

  pub down_in : State → Op C
  down_in closing = do fsm_layer_finish ty; new_state ty initial
  down_in closed = new_state ty initial
  down_in stopped = do new_state ty starting; fsm_layer_start ty
  down_in stopping = do new_state ty starting; on_layer ty.un_configure
  down_in req_sent = do new_state ty starting; on_layer ty.un_configure
  down_in ack_rcvd = do new_state ty starting; on_layer ty.un_configure
  down_in ack_sent = do new_state ty starting; on_layer ty.un_configure
  down_in opened = do new_state ty starting; fsm_layer_down ty; on_layer ty.un_configure
  down_in _ = λ m. m

  -- `FsmDown`.
  unfoldable pub fsm_down : Op C
  unfolding down_in
  fsm_down m = down_in m.state m

  -- The restart counter is set for Terminate-Requests, and one is sent.
  unfoldable pub terminate : Op C
  terminate m = (init_restart_counter ty m.conf.maxterminate >> send_terminate_req ty) m

  pub close_negotiation : Op C
  close_negotiation = do new_state ty closing; terminate; on_layer ty.un_configure

  pub close_in : State → Op C
  unfolding close_negotiation
  close_in starting = do new_state ty initial; fsm_layer_finish ty
  close_in stopped = new_state ty closed
  close_in stopping = new_state ty closing
  close_in opened = do new_state ty closing; terminate; fsm_layer_down ty; on_layer ty.un_configure
  close_in req_sent = close_negotiation
  close_in ack_rcvd = close_negotiation
  close_in ack_sent = close_negotiation
  close_in _ = λ m. m

  -- `FsmClose`.
  unfoldable pub fsm_close : Op C
  unfolding close_in
  fsm_close m = close_in m.state m

  unfoldable pub finish_unless_passive : Op C
  finish_unless_passive m = if m.conf.passive then m else fsm_layer_finish ty m

  pub fail_negotiation : Op C
  fail_negotiation = do new_state ty stopped; finish_unless_passive; on_layer ty.un_configure

  pub fail_in : State → Op C
  unfolding fail_negotiation
  fail_in closing = do new_state ty closed; fsm_layer_finish ty
  fail_in closed = fsm_layer_finish ty
  fail_in stopping = do new_state ty stopped; fsm_layer_finish ty
  fail_in ack_rcvd = fail_negotiation
  fail_in ack_sent = fail_negotiation
  fail_in req_sent = fail_negotiation
  fail_in opened = do new_state ty stopping; terminate; fsm_layer_down ty; on_layer ty.un_configure
  fail_in stopped = finish_unless_passive
  fail_in _ = λ m. m

  -- `FsmFailure`: the layer hears of it first; then the machine shuts down.
  unfoldable pub fsm_failure : FsmFail → Op C
  unfolding fail_in
  fsm_failure why m =
      let told = record m { layer = tell_failure ty.on_failure why m.layer } in
      fail_in told.state told

  pub retry_in : State → Op C
  retry_in closing = send_terminate_req ty
  retry_in stopping = send_terminate_req ty
  retry_in req_sent = send_config_req ty
  retry_in ack_sent = send_config_req ty
  retry_in ack_rcvd = do new_state ty req_sent; send_config_req ty
  retry_in _ = λ m. m

  pub give_up_in : State → Op C
  give_up_in closing = do new_state ty closed; fsm_layer_finish ty
  give_up_in stopping = do new_state ty stopped; fsm_layer_finish ty
  give_up_in req_sent = fsm_failure negot_failure
  give_up_in ack_sent = fsm_failure negot_failure
  give_up_in ack_rcvd = fsm_failure negot_failure
  give_up_in _ = λ m. m

  -- `FsmTimeout`, called by the timer that has just expired.
  unfoldable pub fsm_timeout : Op C
  unfolding retry_in give_up_in
  fsm_timeout m =
      let fired = record m { timer = timer_expires m.timer } in
      if is_pos16 m.restart then retry_in m.state fired else give_up_in m.state fired
