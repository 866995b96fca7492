-- ===== src/Fsm/Receive.antt =====
-- src/fsm.c: the handlers of the Configure and Terminate packets. `id` and `body` are the packet's
-- identifier and contents.
use mpdx.Common.{
  ℕ, ◌+◌, Bool, true, false, not, ◌&&◌, List, [], ◌∷◌, ◌==◌, if◌then◌else◌, u8, is_pos16,
}
use mpdx.Fsm.Types.{
  State, initial, starting, closed, stopped, closing, stopping, req_sent, ack_rcvd, ack_sent,
  opened, Mode, req, nak, rej, nop, negot_failure, Buffers, FsmType, Op, ◌>>◌, on_layer,
}
use mpdx.Fsm.Core.{
  start_timer, new_state, fsm_layer_up, fsm_layer_down, fsm_layer_start, fsm_layer_finish,
  init_restart_counter, init_counters, decode_buffer, send_config_req, send_terminate_ack,
  send_config_ack, send_config_rej, send_config_nak,
}
use mpdx.Fsm.Events.{fsm_failure}

abbrev pub is_empty : List ℕ → Bool
is_empty [] = true
is_empty (_ ∷ _) = false

-- `gNakSize == 0 && gRejSize == 0`.
abbrev pub fully_acked : Buffers → Bool
fully_acked b = is_empty b.naks && is_empty b.rejs

-- `(u_char) (fp->reqid - 1)`.
abbrev pub last_id : ℕ → ℕ
last_id reqid = u8 (reqid + 255)

-- The two packets that refuse a request, and the mode in which their options are decoded.
pub data Refusal : Type 0 where
  by_nak by_rej : Refusal

abbrev pub refusal_mode : Refusal → Mode
refusal_mode by_nak = nak
refusal_mode by_rej = rej

module _ {C : Type 0} (ty : FsmType C) where
  pub restart_in : State → Op C
  restart_in opened = do fsm_layer_down ty; send_config_req ty
  restart_in stopped = do fsm_layer_start ty; init_counters ty; send_config_req ty
  restart_in _ = λ m. m

  pub settle_in : State → Bool → Op C
  settle_in stopped true = new_state ty ack_sent
  settle_in stopped false = new_state ty req_sent
  settle_in opened true = new_state ty ack_sent
  settle_in opened false = new_state ty req_sent
  settle_in req_sent true = new_state ty ack_sent
  settle_in ack_rcvd true = do new_state ty opened; fsm_layer_up ty
  settle_in ack_sent false = new_state ty req_sent
  settle_in _ _ = λ m. m

  pub reply_unacked : ℕ → Op C
  reply_unacked id m =
      if not (is_empty m.buffers.rejs)
      then send_config_rej ty id m.buffers.rejs m
      else if not (is_empty m.buffers.naks)
      then send_config_nak ty id m.buffers.naks m
      else m

  pub settle : Bool → Op C
  unfolding settle_in
  settle acked m = settle_in m.state acked m

  -- The verdict on the request, after the layer has filled the buffers.
  pub answer_request : ℕ → Op C
  unfolding reply_unacked settle
  answer_request id m =
      if fully_acked m.buffers
      then settle true (send_config_ack ty id m.buffers.acks m)
      else if is_pos16 m.failure
      then settle false (reply_unacked id m)
      else fsm_failure ty negot_failure m

  -- The layer judges the request; an opened or stopped machine begins anew.
  unfoldable pub judge_request : List ℕ → Op C
  unfolding restart_in
  judge_request body m =
      let decoded = decode_buffer ty body req m in restart_in decoded.state decoded

  pub process_request : ℕ → List ℕ → Op C
  unfolding judge_request answer_request
  process_request id body m = answer_request id (judge_request body m)

  pub config_req_in : State → ℕ → List ℕ → Op C
  unfolding process_request
  config_req_in initial id body = λ m. m
  config_req_in starting id body = λ m. m
  config_req_in closed id body = send_terminate_ack ty
  config_req_in stopped id body = do on_layer ty.configure; process_request id body
  config_req_in closing id body = λ m. m
  config_req_in stopping id body = λ m. m
  config_req_in _ id body = process_request id body

  -- `FsmRecvConfigReq`.
  unfoldable pub recv_config_req : ℕ → List ℕ → Op C
  unfolding config_req_in
  recv_config_req id body m = config_req_in m.state id body m

  pub config_ack_in : State → Op C
  config_ack_in closed = send_terminate_ack ty
  config_ack_in stopped = send_terminate_ack ty
  config_ack_in req_sent = do new_state ty ack_rcvd; init_counters ty; start_timer
  config_ack_in ack_rcvd = do new_state ty req_sent; send_config_req ty
  config_ack_in ack_sent = do new_state ty opened; init_counters ty; fsm_layer_up ty
  config_ack_in opened = do new_state ty req_sent; fsm_layer_down ty; send_config_req ty
  config_ack_in _ = λ m. m

  -- `FsmRecvConfigAck`.
  unfoldable pub recv_config_ack : ℕ → List ℕ → Op C
  unfolding config_ack_in
  recv_config_ack id body m =
      if id == last_id m.reqid
      then (let decoded = decode_buffer ty body nop m in config_ack_in decoded.state decoded)
      else m

  -- `FsmRecvConfigNak` and `FsmRecvConfigRej` differ in the mode and in the order of two calls in the opened state.
  pub refused_in : Refusal → State → Op C
  refused_in r req_sent m = (init_restart_counter ty m.conf.maxconfig >> send_config_req ty) m
  refused_in r ack_sent m = (init_restart_counter ty m.conf.maxconfig >> send_config_req ty) m
  refused_in by_nak opened m = (fsm_layer_down ty >> new_state ty req_sent >> send_config_req ty) m
  refused_in by_rej opened m = (new_state ty req_sent >> fsm_layer_down ty >> send_config_req ty) m
  refused_in r ack_rcvd m = (new_state ty req_sent >> send_config_req ty) m
  refused_in r _ m = m

  pub process_refused : Refusal → List ℕ → Op C
  unfolding refused_in
  process_refused r body m =
      let decoded = decode_buffer ty body (refusal_mode r) m in
      if is_pos16 decoded.config
      then refused_in r decoded.state decoded
      else fsm_failure ty negot_failure decoded

  pub config_refused_in : Refusal → State → List ℕ → Op C
  unfolding process_refused
  config_refused_in r initial body = λ m. m
  config_refused_in r starting body = λ m. m
  config_refused_in r closed body = send_terminate_ack ty
  config_refused_in r stopped body = send_terminate_ack ty
  config_refused_in r closing body = λ m. m
  config_refused_in r stopping body = λ m. m
  config_refused_in r _ body = process_refused r body

  -- `FsmRecvConfigNak`.
  unfoldable pub recv_config_nak : ℕ → List ℕ → Op C
  unfolding config_refused_in
  recv_config_nak id body m =
      if id == last_id m.reqid then config_refused_in by_nak m.state body m else m

  -- `FsmRecvConfigRej`.
  unfoldable pub recv_config_rej : ℕ → List ℕ → Op C
  unfolding config_refused_in
  recv_config_rej id body m =
      if id == last_id m.reqid then config_refused_in by_rej m.state body m else m

  pub term_req_in : State → Op C
  term_req_in initial = λ m. m
  term_req_in starting = λ m. m
  term_req_in ack_rcvd = do new_state ty req_sent; send_terminate_ack ty
  term_req_in ack_sent = do new_state ty req_sent; send_terminate_ack ty
  term_req_in opened = do
    new_state ty stopping
    send_terminate_ack ty
    fsm_layer_down ty
    init_restart_counter ty 0
    start_timer
    on_layer ty.un_configure
  term_req_in _ = send_terminate_ack ty

  -- `FsmRecvTermReq`.
  unfoldable pub recv_term_req : Op C
  unfolding term_req_in
  recv_term_req m =
      let layer = if ty.link_layer then ty.record_peer_disc m.layer else m.layer in
      term_req_in m.state (record m { layer = layer })

  pub term_ack_in : State → Op C
  term_ack_in closing = do new_state ty closed; fsm_layer_finish ty
  term_ack_in stopping = do new_state ty stopped; fsm_layer_finish ty
  term_ack_in ack_rcvd = new_state ty req_sent
  term_ack_in opened = do new_state ty req_sent; fsm_layer_down ty; send_config_req ty
  term_ack_in _ = λ m. m

  -- `FsmRecvTermAck`.
  unfoldable pub recv_term_ack : Op C
  unfolding term_ack_in
  recv_term_ack m = term_ack_in m.state m
