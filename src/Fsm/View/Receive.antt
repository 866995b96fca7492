-- ===== src/Fsm/View/Receive.antt =====
-- The packet handlers of Fsm/Receive.antt against the abstract machine.
use mpdx.Common.{
  ℕ, Bool, true, false, List, ◌≡◌, refl, ap, ◌∙◌, Bool-cases, inl, inr, if◌then◌else◌, is_pos16,
  ◌==◌,
}
use mpdx.Fsm.Types.{
  State, initial, starting, closed, stopped, closing, stopping, req_sent, ack_rcvd, ack_sent,
  opened, nop, negot_failure, FsmType, Machine,
}
use mpdx.Fsm.Core.{decode_buffer}
use mpdx.Fsm.Events.{fsm_failure}
use mpdx.Fsm.Receive.{
  Refusal, by_nak, by_rej, last_id, config_ack_in, recv_config_ack, refused_in, process_refused,
  config_refused_in, recv_config_nak, recv_config_rej, term_req_in, recv_term_req, term_ack_in,
  recv_term_ack,
}
use mpdx.Fsm.View
use mpdx.Fsm.View.{
  View, view, acked_by, refused_by, term_req_by, term_ack_by, requested_by, restarted_by,
  settled_by, answered_by, set_restart, set_counters, sent_refusal, sent_request, failed_by,
  refused_or_failed, enter, told_down,
}
use mpdx.Fsm.View.Core.{
  view-on_layer, view-start_timer, view-new_state, view-layer_up, view-layer_down, view-layer_start,
  view-layer_finish, view-init_restart_counter, view-init_counters, view-decode_buffer,
  view-send_config_req, view-send_terminate_ack, view-send_config_ack, view-send_config_rej,
  view-send_config_nak,
}
use mpdx.Fsm.View.Events.{view-fsm_failure}

ruleset view_laws = (
  view-on_layer, view-start_timer, view-new_state, view-layer_up, view-layer_down, view-layer_start,
  view-layer_finish, view-init_restart_counter, view-init_counters, view-decode_buffer,
  view-send_config_req, view-send_terminate_ack, view-send_config_ack, view-send_config_rej,
  view-send_config_nak,
)

enter-told_down : (s : State) (v : View) → enter s (told_down v) ≡ told_down (enter s v)
unfolding enter told_down
enter-told_down s v = refl

module _ {C : Type 0} (ty : FsmType C) where
  view-config_ack_in :
      (s : State) (m : Machine C) → view (config_ack_in ty s m) ≡ acked_by s (view m)
  unfolding recv_config_ack
  view-config_ack_in initial m = refl
  view-config_ack_in starting m = refl
  view-config_ack_in closing m = refl
  view-config_ack_in stopping m = refl
  view-config_ack_in _ m = simp view_laws

  pub view-recv_config_ack :
      (id : ℕ) (body : List ℕ) (m : Machine C)
      → view (recv_config_ack ty id body m)
        ≡ (if id == last_id m.reqid then acked_by m.state (view m) else view m)
  unfolding recv_config_ack decode_buffer
  view-recv_config_ack id body m = elim (Bool-cases (id == last_id m.reqid)) [
    | inl e ↦
        simp e
          (view-config_ack_in m.state _ ∙ ap (acked_by m.state) (view-decode_buffer ty body nop m))
    | inr e ↦ simp e
  ]

  view-term_req_in :
      (s : State) (m : Machine C) → view (term_req_in ty s m) ≡ term_req_by s (view m)
  unfolding recv_term_req
  view-term_req_in initial m = refl
  view-term_req_in starting m = refl
  view-term_req_in _ m = simp view_laws

  pub view-recv_term_req :
      (m : Machine C) → view (recv_term_req ty m) ≡ term_req_by m.state (view m)
  unfolding recv_term_req view
  view-recv_term_req m = view-term_req_in m.state _

  view-term_ack_in :
      (s : State) (m : Machine C) → view (term_ack_in ty s m) ≡ term_ack_by s (view m)
  unfolding recv_term_ack
  view-term_ack_in closing m = simp view_laws
  view-term_ack_in stopping m = simp view_laws
  view-term_ack_in ack_rcvd m = simp view_laws
  view-term_ack_in opened m = simp view_laws
  view-term_ack_in _ m = refl

  pub view-recv_term_ack :
      (m : Machine C) → view (recv_term_ack ty m) ≡ term_ack_by m.state (view m)
  unfolding recv_term_ack
  view-recv_term_ack m = view-term_ack_in m.state m

  view-restart_request :
      (m : Machine C)
      → sent_request (set_restart m.conf.maxconfig (view m))
        ≡ sent_request (set_restart (view m).conf.maxconfig (view m))
  unfolding view
  view-restart_request m = refl

  view-refused_in :
      (r : Refusal) (s : State) (m : Machine C)
      → view (refused_in ty r s m) ≡ View.refused_in s (view m)
  unfolding recv_config_nak
  view-refused_in r req_sent m = simp view_laws (view-restart_request m)
  view-refused_in r ack_sent m = simp view_laws (view-restart_request m)
  view-refused_in r ack_rcvd m = simp view_laws
  view-refused_in by_nak opened m = simp (view_laws, enter-told_down)
  view-refused_in by_rej opened m = simp view_laws
  view-refused_in by_nak _ m = refl
  view-refused_in by_rej _ m = refl

  view-choose_refused :
      (b : Bool) (r : Refusal) (s : State) (m : Machine C)
      → m.state ≡ s
      → view (if b then refused_in ty r m.state m else fsm_failure ty negot_failure m)
        ≡ (if b then View.refused_in s (view m) else failed_by s (view m))
  view-choose_refused true r s m e =
      view-refused_in r m.state m ∙ ap (λ t. View.refused_in t (view m)) e
  view-choose_refused false r s m e =
      view-fsm_failure ty negot_failure m ∙ ap (λ t. failed_by t (view m)) e

  view-process_refused :
      (r : Refusal) (body : List ℕ) (s : State) (m : Machine C)
      → m.state ≡ s
      → view (process_refused ty r body m) ≡ refused_or_failed s (view m)
  unfolding recv_config_nak decode_buffer view
  view-process_refused r body s m e = view-choose_refused (is_pos16 m.config) r s _ e

  view-config_refused_in :
      (r : Refusal) (body : List ℕ) (s : State) (m : Machine C)
      → m.state ≡ s
      → view (config_refused_in ty r s body m) ≡ refused_by s (view m)
  unfolding recv_config_nak
  view-config_refused_in r body initial m e = refl
  view-config_refused_in r body starting m e = refl
  view-config_refused_in r body closing m e = refl
  view-config_refused_in r body stopping m e = refl
  view-config_refused_in r body closed m e = simp view_laws
  view-config_refused_in r body stopped m e = simp view_laws
  view-config_refused_in r body req_sent m e = view-process_refused r body req_sent m e
  view-config_refused_in r body ack_rcvd m e = view-process_refused r body ack_rcvd m e
  view-config_refused_in r body ack_sent m e = view-process_refused r body ack_sent m e
  view-config_refused_in r body opened m e = view-process_refused r body opened m e

  pub view-recv_config_nak :
      (id : ℕ) (body : List ℕ) (m : Machine C)
      → view (recv_config_nak ty id body m)
        ≡ (if id == last_id m.reqid then refused_by m.state (view m) else view m)
  unfolding recv_config_nak
  view-recv_config_nak id body m = elim (Bool-cases (id == last_id m.reqid)) [
    | inl e ↦ simp e (view-config_refused_in by_nak body m.state m refl)
    | inr e ↦ simp e
  ]

  pub view-recv_config_rej :
      (id : ℕ) (body : List ℕ) (m : Machine C)
      → view (recv_config_rej ty id body m)
        ≡ (if id == last_id m.reqid then refused_by m.state (view m) else view m)
  unfolding recv_config_rej
  view-recv_config_rej id body m = elim (Bool-cases (id == last_id m.reqid)) [
    | inl e ↦ simp e (view-config_refused_in by_rej body m.state m refl)
    | inr e ↦ simp e
  ]
