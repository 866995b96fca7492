-- ===== src/Fsm/View/Balance.antt =====
-- The calls of `LayerUp` and `LayerDown` in the abstract machine, through every move.
use mpdx.Common.{ℕ, ◌+◌, ◌≡◌, refl, arith, Bool, true, false, is_pos16}
use mpdx.Fsm.Types.{State, initial, stopping, opened}
use mpdx.Fsm.View.{
  View, moves, opened_by, upped_by, downed_by, closed_by, failed_by, retried_by, given_up_by,
  acked_by, refused_by, term_req_by, term_ack_by, rejected_by, requested_by,
}
use mpdx.Fsm.View.Moves.{
  Moves, stay, open_, close, up, down, fail, retry, give_up, request, ack, refuse, peer_ends,
  peer_ended, tolerate, disarmed,
}

abbrev pub opened_weight : State → ℕ
opened_weight opened = 1
opened_weight _ = 0

abbrev pub IsBalanced : View → Type 0
IsBalanced v = v.ups ≡ v.downs + opened_weight v.state

-- The `failure` counter of an opened machine still allows a refusal.
abbrev pub CanRefuse : View → Type 0
CanRefuse v = v.state ≡ opened → is_pos16 v.failure ≡ true

module _ (v : View) where
  opened_by-IsBalanced : (s : State) → v.state ≡ s → IsBalanced v → IsBalanced (opened_by s v)
  unfolding moves
  opened_by-IsBalanced initial e h = ground arith
  opened_by-IsBalanced _ e h = ground arith

  upped_by-IsBalanced : (s : State) → v.state ≡ s → IsBalanced v → IsBalanced (upped_by s v)
  unfolding moves
  upped_by-IsBalanced initial e h = ground arith
  upped_by-IsBalanced _ e h = ground arith

  downed_by-IsBalanced : (s : State) → v.state ≡ s → IsBalanced v → IsBalanced (downed_by s v)
  unfolding moves
  downed_by-IsBalanced initial e h = ground arith
  downed_by-IsBalanced _ e h = ground arith

  closed_by-IsBalanced : (s : State) → v.state ≡ s → IsBalanced v → IsBalanced (closed_by s v)
  unfolding moves
  closed_by-IsBalanced initial e h = ground arith
  closed_by-IsBalanced _ e h = ground arith

  failed_by-IsBalanced : (s : State) → v.state ≡ s → IsBalanced v → IsBalanced (failed_by s v)
  unfolding moves
  failed_by-IsBalanced initial e h = ground arith
  failed_by-IsBalanced _ e h = ground arith

  acked_by-IsBalanced : (s : State) → v.state ≡ s → IsBalanced v → IsBalanced (acked_by s v)
  unfolding moves
  acked_by-IsBalanced initial e h = ground arith
  acked_by-IsBalanced _ e h = ground arith

  refused_by-IsBalanced : (s : State) → v.state ≡ s → IsBalanced v → IsBalanced (refused_by s v)
  unfolding moves
  refused_by-IsBalanced initial e h = ground arith
  refused_by-IsBalanced _ e h = ground arith

  term_req_by-IsBalanced : (s : State) → v.state ≡ s → IsBalanced v → IsBalanced (term_req_by s v)
  unfolding moves
  term_req_by-IsBalanced initial e h = ground arith
  term_req_by-IsBalanced _ e h = ground arith

  term_ack_by-IsBalanced : (s : State) → v.state ≡ s → IsBalanced v → IsBalanced (term_ack_by s v)
  unfolding moves
  term_ack_by-IsBalanced initial e h = ground arith
  term_ack_by-IsBalanced _ e h = ground arith

  rejected_by-IsBalanced : (s : State) → v.state ≡ s → IsBalanced v → IsBalanced (rejected_by s v)
  unfolding moves
  rejected_by-IsBalanced initial e h = ground arith
  rejected_by-IsBalanced _ e h = ground arith

  retried_by-IsBalanced :
      (s : State) → v.state ≡ s → IsBalanced v → IsBalanced (retried_by s (disarmed v))
  unfolding moves
  retried_by-IsBalanced initial e h = ground arith
  retried_by-IsBalanced _ e h = ground arith

  given_up_by-IsBalanced :
      (s : State) → v.state ≡ s → IsBalanced v → IsBalanced (given_up_by s (disarmed v))
  unfolding moves
  given_up_by-IsBalanced initial e h = ground arith
  given_up_by-IsBalanced _ e h = ground arith

  requested_by-IsBalanced :
      (b : Bool) (s : State)
      → v.state ≡ s
      → CanRefuse v
      → IsBalanced v
      → IsBalanced (requested_by s b v)
  unfolding moves
  requested_by-IsBalanced true initial e p h = ground arith
  requested_by-IsBalanced true _ e p h = ground arith
  requested_by-IsBalanced false initial e p h = ground arith
  requested_by-IsBalanced false _ e p h = ground arith

  -- An opened machine with no refusals left tells the layer down twice when it refuses a request.
  pub requested_by-exhausted :
      v.state ≡ opened
      → is_pos16 v.failure ≡ false
      → ((requested_by opened false v).downs ≡ v.downs + 2)
        × ((requested_by opened false v).state ≡ stopping)
  unfolding moves
  requested_by-exhausted e p = (ground arith, ground arith)

pub Moves-IsBalanced : {v w : View} → Moves v w → CanRefuse v → IsBalanced v → IsBalanced w
Moves-IsBalanced stay p h = h
Moves-IsBalanced {v} open_ p h = opened_by-IsBalanced v v.state refl h
Moves-IsBalanced {v} close p h = closed_by-IsBalanced v v.state refl h
Moves-IsBalanced {v} up p h = upped_by-IsBalanced v v.state refl h
Moves-IsBalanced {v} down p h = downed_by-IsBalanced v v.state refl h
Moves-IsBalanced {v} fail p h = failed_by-IsBalanced v v.state refl h
Moves-IsBalanced {v} (retry a q) p h = retried_by-IsBalanced v v.state refl h
Moves-IsBalanced {v} (give_up a q) p h = given_up_by-IsBalanced v v.state refl h
Moves-IsBalanced {v} ack p h = acked_by-IsBalanced v v.state refl h
Moves-IsBalanced {v} refuse p h = refused_by-IsBalanced v v.state refl h
Moves-IsBalanced {v} peer_ends p h = term_req_by-IsBalanced v v.state refl h
Moves-IsBalanced {v} peer_ended p h = term_ack_by-IsBalanced v v.state refl h
Moves-IsBalanced {v} tolerate p h = rejected_by-IsBalanced v v.state refl h
Moves-IsBalanced {v} (request acked) p h = requested_by-IsBalanced v acked v.state refl p h
