-- ===== src/Fsm/Carry/Receive.antt =====
-- The handlers of Fsm/Receive.antt, on a layer that keeps something in step with the state.
use mpdx.Common.{ℕ, Bool, true, false, not, List, refl, ◌==◌, if◌then◌else◌, is_pos16}
use mpdx.Fsm.Types.{
  State, initial, starting, closed, stopped, closing, stopping, req_sent, ack_rcvd, ack_sent,
  opened, Mode, negot_failure, FsmType, Machine,
}
use mpdx.Fsm.Core.{decode_buffer}
use mpdx.Fsm.Receive.{
  is_empty, fully_acked, last_id, Refusal, by_nak, by_rej, refusal_mode, restart_in, settle_in,
  reply_unacked, settle, answer_request, judge_request, process_request, config_req_in,
  recv_config_req, config_ack_in, recv_config_ack, refused_in, process_refused, config_refused_in,
  recv_config_nak, recv_config_rej, term_req_in, recv_term_req, term_ack_in, recv_term_ack,
}
use mpdx.Fsm.Carry.{may_move, Carries, At, InStep}
use mpdx.Fsm.Carry.Core.{
  At-new_state, At-layer_up, At-layer_down, At-layer_start, At-layer_finish,
  At-init_restart_counter, At-init_counters, At-configure, At-un_configure, At-send_config_req,
  At-send_terminate_ack, At-if, At-start_timer, At-decode_buffer, At-send_config_ack,
  At-send_config_rej, At-send_config_nak,
}
use mpdx.Fsm.Carry.Events.{InStep-At, At-InStep, InStep-if, InStep-fsm_failure}

module _ {C : Type 0} (ty : FsmType C) {P : State → C → Type 0} (k : Carries ty P) where
  At-restart_in : (s : State) (m : Machine C) → At P s m → At P s (restart_in ty s m)
  unfolding judge_request
  At-restart_in opened m a = At-send_config_req ty k (At-layer_down ty k a)
  At-restart_in stopped m a =
      At-send_config_req ty k (At-init_counters ty k (At-layer_start ty k a))
  At-restart_in _ m a = a

  InStep-settle_in :
      (s : State) (acked : Bool) (m : Machine C) → At P s m → InStep P (settle_in ty s acked m)
  unfolding recv_config_req may_move
  InStep-settle_in stopped true m a = InStep-At (At-new_state ty k ack_sent a refl)
  InStep-settle_in stopped false m a = InStep-At (At-new_state ty k req_sent a refl)
  InStep-settle_in opened true m a = InStep-At (At-new_state ty k ack_sent a refl)
  InStep-settle_in opened false m a = InStep-At (At-new_state ty k req_sent a refl)
  InStep-settle_in req_sent true m a = InStep-At (At-new_state ty k ack_sent a refl)
  InStep-settle_in ack_rcvd true m a =
      InStep-At (At-layer_up ty k (At-new_state ty k opened a refl))
  InStep-settle_in ack_sent false m a = InStep-At (At-new_state ty k req_sent a refl)
  InStep-settle_in req_sent false m a = InStep-At a
  InStep-settle_in ack_rcvd false m a = InStep-At a
  InStep-settle_in ack_sent true m a = InStep-At a
  InStep-settle_in initial _ m a = InStep-At a
  InStep-settle_in starting _ m a = InStep-At a
  InStep-settle_in closed _ m a = InStep-At a
  InStep-settle_in closing _ m a = InStep-At a
  InStep-settle_in stopping _ m a = InStep-At a

  InStep-settle : (acked : Bool) (m : Machine C) → InStep P m → InStep P (settle ty acked m)
  unfolding recv_config_req
  InStep-settle acked m h = InStep-settle_in m.state acked m (At-InStep h)

  At-reply_unacked :
      {s : State} (id : ℕ) (m : Machine C) → At P s m → At P s (reply_unacked ty id m)
  unfolding recv_config_req
  At-reply_unacked id m a =
      At-if (not (is_empty m.buffers.rejs)) (At-send_config_rej ty k id m.buffers.rejs a)
        (At-if (not (is_empty m.buffers.naks)) (At-send_config_nak ty k id m.buffers.naks a) a)

  InStep-answer_request : (id : ℕ) (m : Machine C) → InStep P m → InStep P (answer_request ty id m)
  unfolding recv_config_req
  InStep-answer_request id m h =
      let a = At-InStep h in
      InStep-if (fully_acked m.buffers)
        (InStep-settle true _ (InStep-At (At-send_config_ack ty k id m.buffers.acks a)))
        (InStep-if (is_pos16 m.failure)
          (InStep-settle false _ (InStep-At (At-reply_unacked id m a)))
          (InStep-fsm_failure ty k negot_failure m h))

  InStep-process_request :
      (id : ℕ) (body : List ℕ) (m : Machine C)
      → InStep P m
      → InStep P (process_request ty id body m)
  unfolding recv_config_req
  InStep-process_request id body m h =
      let d = At-decode_buffer ty k body Mode.req (At-InStep h) in
      let n = decode_buffer ty body Mode.req m in
      InStep-answer_request id _ (InStep-At (At-restart_in n.state n (At-InStep (InStep-At d))))

  InStep-config_req_in :
      (s : State) (id : ℕ) (body : List ℕ) (m : Machine C)
      → At P s m
      → InStep P (config_req_in ty s id body m)
  unfolding recv_config_req
  InStep-config_req_in initial id body m a = InStep-At a
  InStep-config_req_in starting id body m a = InStep-At a
  InStep-config_req_in closed id body m a = InStep-At (At-send_terminate_ack ty k a)
  InStep-config_req_in stopped id body m a =
      InStep-process_request id body _ (InStep-At (At-configure ty k a))
  InStep-config_req_in closing id body m a = InStep-At a
  InStep-config_req_in stopping id body m a = InStep-At a
  InStep-config_req_in _ id body m a = InStep-process_request id body m (InStep-At a)

  pub InStep-recv_config_req :
      (id : ℕ) (body : List ℕ) (m : Machine C)
      → InStep P m
      → InStep P (recv_config_req ty id body m)
  unfolding recv_config_req
  InStep-recv_config_req id body m h = InStep-config_req_in m.state id body m (At-InStep h)

  InStep-config_ack_in : (s : State) (m : Machine C) → At P s m → InStep P (config_ack_in ty s m)
  unfolding recv_config_ack may_move
  InStep-config_ack_in closed m a = InStep-At (At-send_terminate_ack ty k a)
  InStep-config_ack_in stopped m a = InStep-At (At-send_terminate_ack ty k a)
  InStep-config_ack_in req_sent m a =
      InStep-At (At-start_timer (At-init_counters ty k (At-new_state ty k ack_rcvd a refl)))
  InStep-config_ack_in ack_rcvd m a =
      InStep-At (At-send_config_req ty k (At-new_state ty k req_sent a refl))
  InStep-config_ack_in ack_sent m a =
      InStep-At (At-layer_up ty k (At-init_counters ty k (At-new_state ty k opened a refl)))
  InStep-config_ack_in opened m a =
      InStep-At (At-send_config_req ty k (At-layer_down ty k (At-new_state ty k req_sent a refl)))
  InStep-config_ack_in _ m a = InStep-At a

  pub InStep-recv_config_ack :
      (id : ℕ) (body : List ℕ) (m : Machine C)
      → InStep P m
      → InStep P (recv_config_ack ty id body m)
  unfolding recv_config_ack
  InStep-recv_config_ack id body m h =
      let d = At-decode_buffer ty k body Mode.nop (At-InStep h) in
      let n = decode_buffer ty body Mode.nop m in
      InStep-if (id == last_id m.reqid) (InStep-config_ack_in n.state n (At-InStep (InStep-At d))) h

  InStep-refused_in :
      (r : Refusal) (s : State) (m : Machine C) → At P s m → InStep P (refused_in ty r s m)
  unfolding recv_config_nak may_move
  InStep-refused_in by_nak req_sent m a =
      InStep-At (At-send_config_req ty k (At-init_restart_counter ty k m.conf.maxconfig a))
  InStep-refused_in by_nak ack_sent m a =
      InStep-At (At-send_config_req ty k (At-init_restart_counter ty k m.conf.maxconfig a))
  InStep-refused_in by_nak opened m a =
      InStep-At (At-send_config_req ty k (At-new_state ty k req_sent (At-layer_down ty k a) refl))
  InStep-refused_in by_nak ack_rcvd m a =
      InStep-At (At-send_config_req ty k (At-new_state ty k req_sent a refl))
  InStep-refused_in by_nak _ m a = InStep-At a
  InStep-refused_in by_rej req_sent m a =
      InStep-At (At-send_config_req ty k (At-init_restart_counter ty k m.conf.maxconfig a))
  InStep-refused_in by_rej ack_sent m a =
      InStep-At (At-send_config_req ty k (At-init_restart_counter ty k m.conf.maxconfig a))
  InStep-refused_in by_rej opened m a =
      InStep-At (At-send_config_req ty k (At-layer_down ty k (At-new_state ty k req_sent a refl)))
  InStep-refused_in by_rej ack_rcvd m a =
      InStep-At (At-send_config_req ty k (At-new_state ty k req_sent a refl))
  InStep-refused_in by_rej _ m a = InStep-At a

  InStep-process_refused :
      (r : Refusal) (body : List ℕ) (m : Machine C)
      → InStep P m
      → InStep P (process_refused ty r body m)
  unfolding recv_config_nak
  InStep-process_refused r body m h =
      let d = At-decode_buffer ty k body (refusal_mode r) (At-InStep h) in
      let n = decode_buffer ty body (refusal_mode r) m in
      InStep-if (is_pos16 n.config) (InStep-refused_in r n.state n (At-InStep (InStep-At d)))
        (InStep-fsm_failure ty k negot_failure n (InStep-At d))

  InStep-config_refused_in :
      (r : Refusal) (s : State) (body : List ℕ) (m : Machine C)
      → At P s m
      → InStep P (config_refused_in ty r s body m)
  unfolding recv_config_nak
  InStep-config_refused_in r initial body m a = InStep-At a
  InStep-config_refused_in r starting body m a = InStep-At a
  InStep-config_refused_in r closed body m a = InStep-At (At-send_terminate_ack ty k a)
  InStep-config_refused_in r stopped body m a = InStep-At (At-send_terminate_ack ty k a)
  InStep-config_refused_in r closing body m a = InStep-At a
  InStep-config_refused_in r stopping body m a = InStep-At a
  InStep-config_refused_in r _ body m a = InStep-process_refused r body m (InStep-At a)

  pub InStep-recv_config_nak :
      (id : ℕ) (body : List ℕ) (m : Machine C)
      → InStep P m
      → InStep P (recv_config_nak ty id body m)
  unfolding recv_config_nak
  InStep-recv_config_nak id body m h =
      InStep-if (id == last_id m.reqid)
        (InStep-config_refused_in by_nak m.state body m (At-InStep h)) h

  pub InStep-recv_config_rej :
      (id : ℕ) (body : List ℕ) (m : Machine C)
      → InStep P m
      → InStep P (recv_config_rej ty id body m)
  unfolding recv_config_rej
  InStep-recv_config_rej id body m h =
      InStep-if (id == last_id m.reqid)
        (InStep-config_refused_in by_rej m.state body m (At-InStep h)) h

  InStep-term_req_in : (s : State) (m : Machine C) → At P s m → InStep P (term_req_in ty s m)
  unfolding recv_term_req may_move
  InStep-term_req_in initial m a = InStep-At a
  InStep-term_req_in starting m a = InStep-At a
  InStep-term_req_in ack_rcvd m a =
      InStep-At (At-send_terminate_ack ty k (At-new_state ty k req_sent a refl))
  InStep-term_req_in ack_sent m a =
      InStep-At (At-send_terminate_ack ty k (At-new_state ty k req_sent a refl))
  InStep-term_req_in opened m a = InStep-At (
      At-un_configure ty k (
        At-start_timer (
          At-init_restart_counter ty k 0
            (At-layer_down ty k (At-send_terminate_ack ty k (At-new_state ty k stopping a refl))))))
  InStep-term_req_in _ m a = InStep-At (At-send_terminate_ack ty k a)

  told_end :
      (link_layer : Bool) (s : State) (c : C)
      → P s c
      → P s (if link_layer then ty.record_peer_disc c else c)
  told_end true s c p = k.peer_disc s c p
  told_end false s c p = p

  pub InStep-recv_term_req : (m : Machine C) → InStep P m → InStep P (recv_term_req ty m)
  unfolding recv_term_req
  InStep-recv_term_req m h =
      InStep-term_req_in m.state _
        (record { state = refl; kept = told_end ty.link_layer m.state m.layer h.kept })

  InStep-term_ack_in : (s : State) (m : Machine C) → At P s m → InStep P (term_ack_in ty s m)
  unfolding recv_term_ack may_move
  InStep-term_ack_in closing m a =
      InStep-At (At-layer_finish ty k (At-new_state ty k closed a refl))
  InStep-term_ack_in stopping m a =
      InStep-At (At-layer_finish ty k (At-new_state ty k stopped a refl))
  InStep-term_ack_in ack_rcvd m a = InStep-At (At-new_state ty k req_sent a refl)
  InStep-term_ack_in opened m a =
      InStep-At (At-send_config_req ty k (At-layer_down ty k (At-new_state ty k req_sent a refl)))
  InStep-term_ack_in _ m a = InStep-At a

  pub InStep-recv_term_ack : (m : Machine C) → InStep P m → InStep P (recv_term_ack ty m)
  unfolding recv_term_ack
  InStep-recv_term_ack m h = InStep-term_ack_in m.state m (At-InStep h)
