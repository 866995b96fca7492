-- ===== src/Fsm/View/Timing.antt =====
-- The restart timer of the abstract machine, through every move.
use mpdx.Common.{◌≡◌, refl, arith, Bool, true, false, not, is_pos16}
use mpdx.Fsm.Types.{State, initial, opened}
use mpdx.Fsm.Core.{is_quiet}
use mpdx.Fsm.View.{
  View, moves, opened_by, upped_by, downed_by, closed_by, failed_by, retried_by, given_up_by,
  acked_by, refused_by, term_req_by, term_ack_by, rejected_by, requested_by,
}
use mpdx.Fsm.View.Moves.{
  Moves, stay, open_, close, up, down, fail, retry, give_up, request, ack, refuse, peer_ends,
  peer_ended, tolerate, disarmed,
}

-- The timer runs in exactly the states that wait for the peer, has been set up wherever it may be
-- started, and no `assert` has failed.
pub record IsTimed (v : View) : Type 0 where
  pub timed : v.armed ≡ not (is_quiet v.state)
  pub ready : is_quiet v.state ≡ false → v.ready ≡ true
  pub ready_opened : v.state ≡ opened → v.ready ≡ true
  pub alive : v.aborted ≡ false
  pub retries : is_pos16 v.conf.maxfailure ≡ true

module _ {v : View} where
  opened_by-IsTimed : (s : State) → v.state ≡ s → IsTimed v → IsTimed (opened_by s v)
  unfolding moves
  opened_by-IsTimed initial e h = ground arith
  opened_by-IsTimed _ e h = ground arith

  upped_by-IsTimed : (s : State) → v.state ≡ s → IsTimed v → IsTimed (upped_by s v)
  unfolding moves
  upped_by-IsTimed initial e h = ground arith
  upped_by-IsTimed _ e h = ground arith

  downed_by-IsTimed : (s : State) → v.state ≡ s → IsTimed v → IsTimed (downed_by s v)
  unfolding moves
  downed_by-IsTimed initial e h = ground arith
  downed_by-IsTimed _ e h = ground arith

  closed_by-IsTimed : (s : State) → v.state ≡ s → IsTimed v → IsTimed (closed_by s v)
  unfolding moves
  closed_by-IsTimed initial e h = ground arith
  closed_by-IsTimed _ e h = ground arith

  failed_by-IsTimed : (s : State) → v.state ≡ s → IsTimed v → IsTimed (failed_by s v)
  unfolding moves
  failed_by-IsTimed initial e h = ground arith
  failed_by-IsTimed _ e h = ground arith

  acked_by-IsTimed : (s : State) → v.state ≡ s → IsTimed v → IsTimed (acked_by s v)
  unfolding moves
  acked_by-IsTimed initial e h = ground arith
  acked_by-IsTimed _ e h = ground arith

  refused_by-IsTimed : (s : State) → v.state ≡ s → IsTimed v → IsTimed (refused_by s v)
  unfolding moves
  refused_by-IsTimed initial e h = ground arith
  refused_by-IsTimed _ e h = ground arith

  term_req_by-IsTimed : (s : State) → v.state ≡ s → IsTimed v → IsTimed (term_req_by s v)
  unfolding moves
  term_req_by-IsTimed initial e h = ground arith
  term_req_by-IsTimed _ e h = ground arith

  term_ack_by-IsTimed : (s : State) → v.state ≡ s → IsTimed v → IsTimed (term_ack_by s v)
  unfolding moves
  term_ack_by-IsTimed initial e h = ground arith
  term_ack_by-IsTimed _ e h = ground arith

  rejected_by-IsTimed : (s : State) → v.state ≡ s → IsTimed v → IsTimed (rejected_by s v)
  unfolding moves
  rejected_by-IsTimed initial e h = ground arith
  rejected_by-IsTimed _ e h = ground arith

  retried_by-IsTimed :
      (s : State) → v.armed ≡ true → v.state ≡ s → IsTimed v → IsTimed (retried_by s (disarmed v))
  unfolding moves
  retried_by-IsTimed initial a e h = ground arith
  retried_by-IsTimed _ a e h = ground arith

  given_up_by-IsTimed :
      (s : State) → v.armed ≡ true → v.state ≡ s → IsTimed v → IsTimed (given_up_by s (disarmed v))
  unfolding moves
  given_up_by-IsTimed initial a e h = ground arith
  given_up_by-IsTimed _ a e h = ground arith

  requested_by-IsTimed :
      (b : Bool) (s : State) → v.state ≡ s → IsTimed v → IsTimed (requested_by s b v)
  unfolding moves
  requested_by-IsTimed true initial e h = ground arith
  requested_by-IsTimed true _ e h = ground arith
  requested_by-IsTimed false initial e h = ground arith
  requested_by-IsTimed false _ e h = ground arith

pub Moves-IsTimed : {v w : View} → Moves v w → IsTimed v → IsTimed w
Moves-IsTimed stay h = h
Moves-IsTimed {v} open_ h = opened_by-IsTimed v.state refl h
Moves-IsTimed {v} close h = closed_by-IsTimed v.state refl h
Moves-IsTimed {v} up h = upped_by-IsTimed v.state refl h
Moves-IsTimed {v} down h = downed_by-IsTimed v.state refl h
Moves-IsTimed {v} fail h = failed_by-IsTimed v.state refl h
Moves-IsTimed {v} (retry a p) h = retried_by-IsTimed v.state a refl h
Moves-IsTimed {v} (give_up a p) h = given_up_by-IsTimed v.state a refl h
Moves-IsTimed {v} (request acked) h = requested_by-IsTimed acked v.state refl h
Moves-IsTimed {v} ack h = acked_by-IsTimed v.state refl h
Moves-IsTimed {v} refuse h = refused_by-IsTimed v.state refl h
Moves-IsTimed {v} peer_ends h = term_req_by-IsTimed v.state refl h
Moves-IsTimed {v} peer_ended h = term_ack_by-IsTimed v.state refl h
Moves-IsTimed {v} tolerate h = rejected_by-IsTimed v.state refl h
