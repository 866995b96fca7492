-- ===== src/Fsm/Table.antt =====
-- The state transitions of src/fsm.c against the table of RFC 1661.
use mpdx.Common.{ℕ, Bool, true, false, List, ◌≡◌, refl, ap, ◌∙◌, is_pos16, ◌==◌, if◌then◌else◌}
use mpdx.Fsm.Types.{State, stopped, FsmFail, FsmType, Machine}
use mpdx.Fsm.Rfc.{
  next, up, down, open_, close, to_plus, to_minus, rcr_plus, rcr_minus, rca, rcn, rtr, rta,
  rxj_plus, rxj_minus,
}
use mpdx.Fsm.Events.{fsm_open, fsm_up, fsm_down, fsm_close, fsm_failure, fsm_timeout}
use mpdx.Fsm.Receive.{
  last_id, recv_config_req, recv_config_ack, recv_config_nak, recv_config_rej, recv_term_req,
  recv_term_ack,
}
use mpdx.Fsm.Link.{recv_code_rej, code_rej_verdict}
use mpdx.Fsm.View.{View, view, acked_by, refused_by, retried_by, given_up_by, restarted_by, moves}
use mpdx.Fsm.View.Events.{
  view-fsm_open, view-fsm_up, view-fsm_down, view-fsm_close, view-fsm_failure, view-fsm_timeout,
  fired,
}
use mpdx.Fsm.View.Receive.{
  view-recv_config_ack, view-recv_config_nak, view-recv_config_rej, view-recv_term_req,
  view-recv_term_ack,
}
use mpdx.Fsm.View.Request.{verdict, view-recv_config_req}
use mpdx.Fsm.View.Link.{view-recv_code_rej, rejected_if_not}
use mpdx.Fsm.View.Table.{
  last_refusal, opened_by-state, upped_by-state, downed_by-state, closed_by-state, failed_by-state,
  retried_by-state, given_up_by-state, acked_by-state, refused_by-state, term_req_by-state,
  term_ack_by-state, rejected_by-state, requested_by-state,
}

state_of : {C : Type 0} {v : View} (n : Machine C) → view n ≡ v → n.state ≡ v.state
unfolding view
state_of n e = ap (λ w. w.state) e

module _ {C : Type 0} (ty : FsmType C) (m : Machine C) where
  -- In every state `FsmOpen`, `FsmClose`, `FsmUp` and `FsmDown` go to the state that the table of
  -- RFC 1661 has for the event.
  pub admin_table :
      ((fsm_open ty m).state ≡ next open_ m.state)
      × ((fsm_close ty m).state ≡ next close m.state)
      × ((fsm_up ty m).state ≡ next up m.state)
      × ((fsm_down ty m).state ≡ next down m.state)
  unfolding view
  admin_table = (
    state_of (fsm_open ty m) (view-fsm_open ty m) ∙ opened_by-state (view m) m.state refl,
    state_of (fsm_close ty m) (view-fsm_close ty m) ∙ closed_by-state (view m) m.state refl,
    state_of (fsm_up ty m) (view-fsm_up ty m) ∙ upped_by-state (view m) m.state refl,
    state_of (fsm_down ty m) (view-fsm_down ty m) ∙ downed_by-state (view m) m.state refl,
  )

  timeout_choice :
      (b : Bool) (v : View)
      → v.state ≡ m.state
      → (if b then retried_by m.state v else given_up_by m.state v).state
        ≡ (if b then next to_plus m.state else next to_minus m.state)
  timeout_choice true v e = retried_by-state v m.state e
  timeout_choice false v e = given_up_by-state v m.state e

  -- `FsmTimeout` is the table's TO+ while the restart counter is positive and its TO- otherwise.
  pub timeout_table :
      (fsm_timeout ty m).state
      ≡ (if is_pos16 m.restart then next to_plus m.state else next to_minus m.state)
  unfolding view fired
  timeout_table =
      state_of (fsm_timeout ty m) (view-fsm_timeout ty m)
      ∙ timeout_choice (is_pos16 m.restart) (view (fired ty m)) refl

  -- The refusals that are left when the machine judges a request: a stopped one starts afresh.
  abbrev pub refusals_left : State → ℕ
  refusals_left stopped = m.conf.maxfailure
  refusals_left _ = m.failure

  refusals_left-restarted : (s : State) → (restarted_by s (view m)).failure ≡ refusals_left s
  unfolding view moves
  refusals_left-restarted stopped = refl
  refusals_left-restarted _ = refl

  -- A Configure-Request is the table's RCR+ or RCR- by the layer's verdict, where a refusal requires
  -- that refusals are left.
  pub config_req_table :
      (id : ℕ) (body : List ℕ)
      → (verdict ty body m ≡ false → is_pos16 (refusals_left m.state) ≡ true)
      → (recv_config_req ty id body m).state
        ≡ (if verdict ty body m then next rcr_plus m.state else next rcr_minus m.state)
  config_req_table id body h =
      state_of (recv_config_req ty id body m) (view-recv_config_req ty id body m)
      ∙ requested_by-state (view m) (verdict ty body m) m.state (unfold view in refl)
          (λ d. ap is_pos16 (refusals_left-restarted m.state) ∙ h d)

  acked_choice :
      (b : Bool)
      → (if b then acked_by m.state (view m) else view m).state
        ≡ (if b then next rca m.state else m.state)
  unfolding view
  acked_choice true = acked_by-state (view m) m.state refl
  acked_choice false = refl

  refused_choice :
      (b : Bool)
      → (if b then refused_by m.state (view m) else view m).state ≡ (
          if b
          then (if is_pos16 m.config then next rcn m.state else last_refusal m.state)
          else m.state)
  unfolding view
  refused_choice true = refused_by-state (view m) m.state refl
  refused_choice false = refl

  -- A Configure-Ack that answers the last request is the table's RCA, and a Configure-Nak or -Reject
  -- that does is its RCN while requests are left and a fatal reject otherwise. Any other identifier
  -- leaves the state.
  pub config_reply_table :
      (id : ℕ) (body : List ℕ)
      → let last = id == last_id m.reqid in
        let refused =
          if last
          then (if is_pos16 m.config then next rcn m.state else last_refusal m.state)
          else m.state in
        ((recv_config_ack ty id body m).state ≡ (if last then next rca m.state else m.state))
        × ((recv_config_nak ty id body m).state ≡ refused)
        × ((recv_config_rej ty id body m).state ≡ refused)
  config_reply_table id body = (
    state_of (recv_config_ack ty id body m) (view-recv_config_ack ty id body m)
        ∙ acked_choice (id == last_id m.reqid),
    state_of (recv_config_nak ty id body m) (view-recv_config_nak ty id body m)
        ∙ refused_choice (id == last_id m.reqid),
    state_of (recv_config_rej ty id body m) (view-recv_config_rej ty id body m)
        ∙ refused_choice (id == last_id m.reqid),
  )

  rejected_choice :
      (b : Bool)
      → (rejected_if_not b m.state (view m)).state
        ≡ (if b then next rxj_minus m.state else next rxj_plus m.state)
  unfolding view
  rejected_choice true = failed_by-state (view m) m.state refl
  rejected_choice false = rejected_by-state (view m) m.state refl

  -- Terminate-Request and Terminate-Ack are the table's RTR and RTA, `FsmFailure` is its RXJ-, and a
  -- Code-Reject is RXJ- or RXJ+ by whether the layer, or the default, takes it for fatal.
  pub shutdown_table :
      (why : FsmFail) (body : List ℕ)
      → ((recv_term_req ty m).state ≡ next rtr m.state)
        × ((recv_term_ack ty m).state ≡ next rta m.state)
        × ((fsm_failure ty why m).state ≡ next rxj_minus m.state)
        × ((recv_code_rej ty body m).state ≡ (
            if (code_rej_verdict ty body m.layer).0
            then next rxj_minus m.state
            else next rxj_plus m.state))
  unfolding view
  shutdown_table why body = (
    state_of (recv_term_req ty m) (view-recv_term_req ty m)
        ∙ term_req_by-state (view m) m.state refl,
    state_of (recv_term_ack ty m) (view-recv_term_ack ty m)
        ∙ term_ack_by-state (view m) m.state refl,
    state_of (fsm_failure ty why m) (view-fsm_failure ty why m)
        ∙ failed_by-state (view m) m.state refl,
    state_of (recv_code_rej ty body m) (view-recv_code_rej ty body m)
        ∙ rejected_choice (code_rej_verdict ty body m.layer).0,
  )
