-- ===== src/Fsm/View/Moves.antt =====
-- The abstract machine as a step relation, and the steps of src/fsm.c.
use mpdx.Common.{
  ℕ, Bool, true, false, List, ◌≡◌, refl, arith, if◌then◌else◌, is_pos16, ◌==◌, Option, none, some,
  get_elem?,
}
use mpdx.Timer.{Registered, idle, once, every, timer_expires}
use mpdx.Fsm.Types.{
  Code, vendor, config_req, config_ack, config_nak, config_rej, term_req, term_ack, code_rej,
  proto_rej, echo_req, echo_rep, disc_req, ident, time_rem, reset_req, reset_ack, FsmType, Machine,
}
use mpdx.Fsm.Core.{fsm_output}
use mpdx.Fsm.Link.{
  send_ident, send_time_remaining, is_bad_magic, recv_echo_rep, code_rej_verdict, proto_rej_verdict,
}
use mpdx.Fsm.Input.{
  Packet, is_known, fsm_codes, read_packet, handle, reject_code, dispatch_known, input_packet,
  dispatch, fsm_input,
}
use mpdx.Fsm.Receive.{last_id}
use mpdx.Fsm.Step.{
  Event, opens, closes, ups, downs, expires, fails, echoes, idents, times, arrives, expire, step,
}
use mpdx.Fsm.View.{
  View, view, opened_by, upped_by, downed_by, closed_by, failed_by, retried_by, given_up_by,
  acked_by, refused_by, term_req_by, term_ack_by, rejected_by, requested_by,
}
use mpdx.Fsm.View.Events.{
  view-fsm_open, view-fsm_up, view-fsm_down, view-fsm_close, view-fsm_failure, view-fsm_timeout,
  fired,
}
use mpdx.Fsm.View.Receive.{
  view-recv_config_ack, view-recv_config_nak, view-recv_config_rej, view-recv_term_req,
  view-recv_term_ack,
}
use mpdx.Fsm.View.Request.{verdict, view-recv_config_req}
use mpdx.Fsm.View.Link.{
  failed_if, rejected_if_not, view-check_magic, view-recv_echo_req, view-recv_disc_req,
  view-recv_ident, view-recv_time_remain, view-recv_vendor, view-recv_reset_req,
  view-recv_reset_ack, view-recv_code_rej, view-recv_proto_rej, view-echo_timeout, is_dead,
}

abbrev pub disarmed : View → View
disarmed v = record v { armed = false }

pub data Moves (v : View) : View → Type 0 where
  stay : Moves v v
  open_ : Moves v (opened_by v.state v)
  close : Moves v (closed_by v.state v)
  up : Moves v (upped_by v.state v)
  down : Moves v (downed_by v.state v)
  fail : Moves v (failed_by v.state v)
  retry : v.armed ≡ true → is_pos16 v.restart ≡ true → Moves v (retried_by v.state (disarmed v))
  give_up : v.armed ≡ true → is_pos16 v.restart ≡ false → Moves v (given_up_by v.state (disarmed v))
  request : (acked : Bool) → Moves v (requested_by v.state acked v)
  ack : Moves v (acked_by v.state v)
  refuse : Moves v (refused_by v.state v)
  peer_ends : Moves v (term_req_by v.state v)
  peer_ended : Moves v (term_ack_by v.state v)
  tolerate : Moves v (rejected_by v.state v)

module _ {v : View} where
  Moves-if : (b : Bool) {w : View} → Moves v w → Moves v (if b then w else v)
  Moves-if true h = h
  Moves-if false h = stay

  Moves-failed_if : (b : Bool) → Moves v (failed_if b v.state v)
  Moves-failed_if true = fail
  Moves-failed_if false = stay

  Moves-rejected : (b : Bool) → Moves v (rejected_if_not b v.state v)
  Moves-rejected true = fail
  Moves-rejected false = tolerate

module _ {C : Type 0} (ty : FsmType C) where
  handle-Moves :
      (c : Code) (id : ℕ) (body : List ℕ) (m : Machine C)
      → Moves (view m) (view (handle ty c id body m))
  unfolding handle view recv_echo_rep
  handle-Moves config_req id body m =
      rw (view-recv_config_req ty id body m) (request (verdict ty body m))
  handle-Moves config_ack id body m =
      rw (view-recv_config_ack ty id body m) (Moves-if (id == last_id m.reqid) ack)
  handle-Moves config_nak id body m =
      rw (view-recv_config_nak ty id body m) (Moves-if (id == last_id m.reqid) refuse)
  handle-Moves config_rej id body m =
      rw (view-recv_config_rej ty id body m) (Moves-if (id == last_id m.reqid) refuse)
  handle-Moves term_req id body m = rw (view-recv_term_req ty m) peer_ends
  handle-Moves term_ack id body m = rw (view-recv_term_ack ty m) peer_ended
  handle-Moves code_rej id body m =
      rw (view-recv_code_rej ty body m) (Moves-rejected (code_rej_verdict ty body m.layer).0)
  handle-Moves proto_rej id body m =
      rw (view-recv_proto_rej ty body m)
        (Moves-rejected (proto_rej_verdict ty m.state body m.layer).0)
  handle-Moves echo_req id body m =
      rw (view-recv_echo_req ty id body m) (Moves-failed_if (is_bad_magic ty body m))
  handle-Moves echo_rep id body m =
      rw (view-check_magic ty body m) (Moves-failed_if (is_bad_magic ty body m))
  handle-Moves disc_req id body m =
      rw (view-recv_disc_req ty body m) (Moves-failed_if (is_bad_magic ty body m))
  handle-Moves ident id body m =
      rw (view-recv_ident ty body m) (Moves-failed_if (is_bad_magic ty body m))
  handle-Moves time_rem id body m =
      rw (view-recv_time_remain ty body m) (Moves-failed_if (is_bad_magic ty body m))
  handle-Moves vendor id body m =
      rw (view-recv_vendor ty body m) (Moves-failed_if (is_bad_magic ty body m))
  handle-Moves reset_req id body m = rw (view-recv_reset_req ty id body m) stay
  handle-Moves reset_ack id body m = rw (view-recv_reset_ack ty id body m) stay

  view-reject_code : (body : List ℕ) (m : Machine C) → view (reject_code ty body m) ≡ view m
  unfolding reject_code view fsm_output
  view-reject_code body m = ground arith

  reject_code-Moves :
      (body : List ℕ) (m : Machine C) → Moves (view m) (view (reject_code ty body m))
  reject_code-Moves body m = rw (view-reject_code body m) stay

  view-send_ident : (text : List ℕ) (m : Machine C) → view (send_ident ty text m) ≡ view m
  unfolding send_ident view fsm_output
  view-send_ident text m = ground arith

  view-send_time_remaining : (n : ℕ) (m : Machine C) → view (send_time_remaining ty n m) ≡ view m
  unfolding send_time_remaining view fsm_output
  view-send_time_remaining n m = ground arith

  dispatch_known-Moves :
      (known : Bool) (c : Option Code) (p : Packet) (m : Machine C)
      → Moves (view m) (view (dispatch_known ty known c p m))
  dispatch_known-Moves true (some c) p m = handle-Moves c p.id p.body m
  dispatch_known-Moves true none p m = reject_code-Moves p.body m
  dispatch_known-Moves false _ p m = reject_code-Moves p.body m

  input_packet-Moves :
      (p : Option Packet) (m : Machine C) → Moves (view m) (view (input_packet ty p m))
  unfolding dispatch
  input_packet-Moves none m = stay
  input_packet-Moves (some p) m =
      dispatch_known-Moves (is_known ty.known_codes p.code) (get_elem? fsm_codes p.code) p m

  armed_of_once : (n : ℕ) (m : Machine C) → m.timer.event ≡ once n → (view m).armed ≡ true
  unfolding view
  armed_of_once n m e = ground arith

  pub view-fired :
      (n : ℕ) (m : Machine C) → m.timer.event ≡ once n → view (fired ty m) ≡ disarmed (view m)
  unfolding view fired timer_expires
  view-fired n m e = ground arith

  timeout-Moves :
      (b : Bool) (n : ℕ) (m : Machine C)
      → m.timer.event ≡ once n
      → is_pos16 (view m).restart ≡ b
      → Moves (view m) (
          if b
          then retried_by (view m).state (view (fired ty m))
          else given_up_by (view m).state (view (fired ty m)))
  timeout-Moves true n m e p = rw (view-fired n m e) (retry (armed_of_once n m e) p)
  timeout-Moves false n m e p = rw (view-fired n m e) (give_up (armed_of_once n m e) p)

  expire-Moves :
      (m : Machine C) (r : Registered) → m.timer.event ≡ r → Moves (view m) (view (expire ty r m))
  unfolding view
  expire-Moves m idle e = stay
  expire-Moves m (every n) e = stay
  expire-Moves m (once n) e =
      rw (view-fsm_timeout ty m) (timeout-Moves (is_pos16 m.restart) n m e refl)

  -- Whatever happens to the machine, its view makes one of the moves, or none.
  pub step-Moves : (e : Event) (m : Machine C) → Moves (view m) (view (step ty e m))
  unfolding step view
  step-Moves opens m = rw (view-fsm_open ty m) open_
  step-Moves closes m = rw (view-fsm_close ty m) close
  step-Moves ups m = rw (view-fsm_up ty m) up
  step-Moves downs m = rw (view-fsm_down ty m) down
  step-Moves expires m = expire-Moves m m.timer.event refl
  step-Moves (fails why) m = rw (view-fsm_failure ty why m) fail
  step-Moves (echoes frames) m =
      rw (view-echo_timeout ty frames m) (Moves-failed_if (is_dead ty frames m))
  step-Moves (idents text) m = rw (view-send_ident text m) stay
  step-Moves (times remaining) m = rw (view-send_time_remaining remaining m) stay
  step-Moves (arrives bytes) m = unfold fsm_input in input_packet-Moves (read_packet bytes) m
