-- ===== src/Fsm/View/Request.antt =====
-- `FsmRecvConfigReq` against the abstract machine, by the layer's verdict on the request.
use mpdx.Common.{
  ℕ, Option, none, some, Bool, true, false, List, ◌≡◌, refl, sym, ap, ◌∙◌, arith, Bool-cases, inl,
  inr, if◌then◌else◌, is_pos16,
}
use mpdx.Fsm.Types.{
  State, initial, starting, closed, stopped, closing, stopping, req_sent, ack_rcvd, ack_sent,
  opened, req, negot_failure, FsmType, Machine, on_layer,
}
use mpdx.Fsm.Core.{decode_buffer, send_config_ack}
use mpdx.Fsm.Events.{fsm_failure}
use mpdx.Fsm.Receive.{
  fully_acked, restart_in, settle_in, reply_unacked, settle, judge_request, answer_request,
  process_request, config_req_in, recv_config_req,
}
use mpdx.Fsm.View.{
  View, view, requested_by, restarted_by, settled_by, answered_by, set_counters, sent_refusal,
  sent_request, failed_by, told_down,
}
use mpdx.Fsm.View.Core.{
  view-on_layer, view-start_timer, view-new_state, view-layer_up, view-layer_down, view-layer_start,
  view-layer_finish, view-init_restart_counter, view-init_counters, view-decode_buffer,
  view-send_config_req, view-send_terminate_ack, view-send_config_ack, view-send_config_rej,
  view-send_config_nak,
}
use mpdx.Fsm.View.Events.{view-fsm_failure}

ruleset view_laws = (
  view-on_layer, view-start_timer, view-new_state, view-layer_up, view-layer_down, view-layer_start,
  view-layer_finish, view-init_restart_counter, view-init_counters, view-decode_buffer,
  view-send_config_req, view-send_terminate_ack, view-send_config_ack, view-send_config_rej,
  view-send_config_nak,
)

state-refusal : (v : View) → (sent_refusal v).state ≡ v.state
unfolding sent_refusal
state-refusal v = refl

state-restarted : (s : State) (v : View) → (restarted_by s v).state ≡ v.state
unfolding sent_request set_counters told_down
state-restarted stopped v = refl
state-restarted opened v = refl
state-restarted _ v = refl

module _ {C : Type 0} (ty : FsmType C) where
  view-restart_in : (s : State) (m : Machine C) → view (restart_in ty s m) ≡ restarted_by s (view m)
  unfolding judge_request
  view-restart_in opened m = simp view_laws
  view-restart_in stopped m = simp view_laws
  view-restart_in _ m = refl

  view-judge_request :
      (body : List ℕ) (m : Machine C)
      → view (judge_request ty body m) ≡ restarted_by m.state (view m)
  unfolding judge_request decode_buffer
  view-judge_request body m =
      view-restart_in m.state _ ∙ ap (restarted_by m.state) (view-decode_buffer ty body req m)

  view-settle_in :
      (s : State) (b : Bool) (m : Machine C) → view (settle_in ty s b m) ≡ settled_by s b (view m)
  unfolding recv_config_req
  view-settle_in stopped true m = simp view_laws
  view-settle_in stopped false m = simp view_laws
  view-settle_in opened true m = simp view_laws
  view-settle_in opened false m = simp view_laws
  view-settle_in req_sent true m = simp view_laws
  view-settle_in ack_rcvd true m = simp view_laws
  view-settle_in ack_sent false m = simp view_laws
  view-settle_in _ _ m = refl

  view-state : (m : Machine C) → (view m).state ≡ m.state
  unfolding view
  view-state m = refl

  view-settle :
      (b : Bool) (s : State) (m : Machine C)
      → (view m).state ≡ s
      → view (settle ty b m) ≡ settled_by s b (view m)
  unfolding recv_config_req
  view-settle b s m e =
      view-settle_in m.state b m ∙ ap (λ t. settled_by t b (view m)) (sym (view-state m) ∙ e)

  view-reply_unacked :
      (id : ℕ) (m : Machine C)
      → fully_acked m.buffers ≡ false
      → view (reply_unacked ty id m) ≡ sent_refusal (view m)
  unfolding recv_config_req
  view-reply_unacked id m h = ground (
    arith,
    view-send_config_rej ty id m.buffers.rejs m,
    view-send_config_nak ty id m.buffers.naks m,
  )

  view-settle_ack :
      (id : ℕ) (os : List ℕ) (m : Machine C)
      → view (settle ty true (send_config_ack ty id os m)) ≡ settled_by m.state true (view m)
  view-settle_ack id os m =
      let same = view-send_config_ack ty id os m in
      view-settle true m.state _ (ap (λ v. v.state) same ∙ view-state m)
      ∙ ap (settled_by m.state true) same

  view-settle_refusal :
      (id : ℕ) (m : Machine C)
      → fully_acked m.buffers ≡ false
      → view (settle ty false (reply_unacked ty id m))
        ≡ settled_by m.state false (sent_refusal (view m))
  view-settle_refusal id m h =
      let sent = view-reply_unacked id m h in
      view-settle false m.state _ (ap (λ v. v.state) sent ∙ state-refusal (view m) ∙ view-state m)
      ∙ ap (settled_by m.state false) sent

  view-answer_unacked :
      (b : Bool) (id : ℕ) (m : Machine C)
      → fully_acked m.buffers ≡ false
      → view (if b then settle ty false (reply_unacked ty id m) else fsm_failure ty negot_failure m)
        ≡ (if b
            then settled_by m.state false (sent_refusal (view m))
            else failed_by m.state (view m))
  view-answer_unacked true id m h = view-settle_refusal id m h
  view-answer_unacked false id m h = view-fsm_failure ty negot_failure m

  view-pos :
      (m : Machine C) (w a b : View)
      → w ≡ (if is_pos16 m.failure then a else b)
      → w ≡ (if is_pos16 (view m).failure then a else b)
  unfolding view
  view-pos m w a b h = h

  view-answer_request :
      (id : ℕ) (m : Machine C)
      → view (answer_request ty id m) ≡ answered_by m.state (fully_acked m.buffers) (view m)
  unfolding recv_config_req
  view-answer_request id m = elim (Bool-cases (fully_acked m.buffers)) [
    | inl e ↦ simp e (view-settle_ack id m.buffers.acks m)
    | inr e ↦ simp e (view-pos m _ _ _ (view-answer_unacked (is_pos16 m.failure) id m e))
  ]

  judged-state : (body : List ℕ) (m : Machine C) → (judge_request ty body m).state ≡ m.state
  judged-state body m =
      sym (view-state _)
      ∙ ap (λ v. v.state) (view-judge_request body m)
      ∙ state-restarted m.state (view m)
      ∙ view-state m

  view-process_request :
      (id : ℕ) (body : List ℕ) (s : State) (m : Machine C)
      → m.state ≡ s
      → view (process_request ty id body m)
        ≡ answered_by s (fully_acked (judge_request ty body m).buffers) (restarted_by s (view m))
  unfolding recv_config_req
  view-process_request id body s m e =
      let judged = judge_request ty body m in
      view-answer_request id judged
      ∙ ap (λ t. answered_by t (fully_acked judged.buffers) (view judged)) (judged-state body m ∙ e)
      ∙ ap (answered_by s (fully_acked judged.buffers))
          (view-judge_request body m ∙ ap (λ t. restarted_by t (view m)) e)

  -- The machine that judges the request: a stopped one is configured first.
  unfoldable pub configured_for : State → Machine C → Machine C
  configured_for stopped m = on_layer ty.configure m
  configured_for _ m = m

  -- The layer's verdict on a Configure-Request.
  unfoldable pub verdict : List ℕ → Machine C → Bool
  unfolding judge_request configured_for
  verdict body m = fully_acked (judge_request ty body (configured_for m.state m)).buffers

  state-on_layer : (h : Option (C → C)) (m : Machine C) → (on_layer h m).state ≡ m.state
  state-on_layer none m = refl
  state-on_layer (some h) m = refl

  view-config_req_in :
      (id : ℕ) (body : List ℕ) (s : State) (m : Machine C)
      → m.state ≡ s
      → view (config_req_in ty s id body m)
        ≡ requested_by s (fully_acked (judge_request ty body (configured_for s m)).buffers) (view m)
  unfolding recv_config_req configured_for
  view-config_req_in id body initial m e = refl
  view-config_req_in id body starting m e = refl
  view-config_req_in id body closing m e = refl
  view-config_req_in id body stopping m e = refl
  view-config_req_in id body closed m e = simp view_laws
  view-config_req_in id body stopped m e =
      let acked = fully_acked (judge_request ty body (on_layer ty.configure m)).buffers in
      view-process_request id body stopped _ (state-on_layer ty.configure m ∙ e)
      ∙ ap (λ v. answered_by stopped acked (restarted_by stopped v)) (view-on_layer ty.configure m)
  view-config_req_in id body req_sent m e = view-process_request id body req_sent m e
  view-config_req_in id body ack_rcvd m e = view-process_request id body ack_rcvd m e
  view-config_req_in id body ack_sent m e = view-process_request id body ack_sent m e
  view-config_req_in id body opened m e = view-process_request id body opened m e

  pub view-recv_config_req :
      (id : ℕ) (body : List ℕ) (m : Machine C)
      → view (recv_config_req ty id body m) ≡ requested_by m.state (verdict body m) (view m)
  unfolding recv_config_req verdict
  view-recv_config_req id body m = view-config_req_in id body m.state m refl
