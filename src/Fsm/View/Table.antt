-- ===== src/Fsm/View/Table.antt =====
-- The state component of the abstract machine's moves, next to the table of RFC 1661.
use mpdx.Common.{Bool, true, false, ◌≡◌, refl, arith, is_pos16, if◌then◌else◌}
use mpdx.Fsm.Types.{State, initial, closing, stopping}
use mpdx.Fsm.Rfc.{
  next, up, down, open_, close, to_plus, to_minus, rcr_plus, rcr_minus, rca, rcn, rtr, rta,
  rxj_plus, rxj_minus,
}
use mpdx.Fsm.View.{
  View, opened_by, upped_by, downed_by, closed_by, failed_by, retried_by, given_up_by, acked_by,
  refused_by, term_req_by, term_ack_by, rejected_by, restarted_by, requested_by, moves,
}

-- A refusal with no requests left: the table's fatal reject where a request is pending.
abbrev pub last_refusal : State → State
last_refusal closing = closing
last_refusal stopping = stopping
last_refusal s = next rxj_minus s

module _ (v : View) where
  pub opened_by-state : (s : State) → v.state ≡ s → (opened_by s v).state ≡ next open_ s
  unfolding moves
  opened_by-state initial e = ground arith
  opened_by-state _ e = ground arith

  pub upped_by-state : (s : State) → v.state ≡ s → (upped_by s v).state ≡ next up s
  unfolding moves
  upped_by-state initial e = ground arith
  upped_by-state _ e = ground arith

  pub downed_by-state : (s : State) → v.state ≡ s → (downed_by s v).state ≡ next down s
  unfolding moves
  downed_by-state initial e = ground arith
  downed_by-state _ e = ground arith

  pub closed_by-state : (s : State) → v.state ≡ s → (closed_by s v).state ≡ next close s
  unfolding moves
  closed_by-state initial e = ground arith
  closed_by-state _ e = ground arith

  pub failed_by-state : (s : State) → v.state ≡ s → (failed_by s v).state ≡ next rxj_minus s
  unfolding moves
  failed_by-state initial e = ground arith
  failed_by-state _ e = ground arith

  pub retried_by-state : (s : State) → v.state ≡ s → (retried_by s v).state ≡ next to_plus s
  unfolding moves
  retried_by-state initial e = ground arith
  retried_by-state _ e = ground arith

  pub given_up_by-state : (s : State) → v.state ≡ s → (given_up_by s v).state ≡ next to_minus s
  unfolding moves
  given_up_by-state initial e = ground arith
  given_up_by-state _ e = ground arith

  pub acked_by-state : (s : State) → v.state ≡ s → (acked_by s v).state ≡ next rca s
  unfolding moves
  acked_by-state initial e = ground arith
  acked_by-state _ e = ground arith

  pub term_req_by-state : (s : State) → v.state ≡ s → (term_req_by s v).state ≡ next rtr s
  unfolding moves
  term_req_by-state initial e = ground arith
  term_req_by-state _ e = ground arith

  pub term_ack_by-state : (s : State) → v.state ≡ s → (term_ack_by s v).state ≡ next rta s
  unfolding moves
  term_ack_by-state initial e = ground arith
  term_ack_by-state _ e = ground arith

  pub rejected_by-state : (s : State) → v.state ≡ s → (rejected_by s v).state ≡ next rxj_plus s
  unfolding moves
  rejected_by-state initial e = ground arith
  rejected_by-state _ e = ground arith

  -- The verdict on a request decides between the two columns of the table.
  pub requested_by-state :
      (acked : Bool) (s : State)
      → v.state ≡ s
      → (acked ≡ false → is_pos16 (restarted_by s v).failure ≡ true)
      → (requested_by s acked v).state ≡ (if acked then next rcr_plus s else next rcr_minus s)
  unfolding moves
  requested_by-state true initial e h = ground arith
  requested_by-state true _ e h = ground arith
  requested_by-state false initial e h = ground (arith, h refl)
  requested_by-state false _ e h = ground (arith, h refl)

  -- A refused request, where no requests are left, is a fatal reject.
  pub refused_by-state :
      (s : State)
      → v.state ≡ s
      → (refused_by s v).state ≡ (if is_pos16 v.config then next rcn s else last_refusal s)
  unfolding moves
  refused_by-state initial e = ground arith
  refused_by-state _ e = ground arith
