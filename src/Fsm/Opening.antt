-- ===== src/Fsm/Opening.antt =====
-- The exchange that opens the machine of src/fsm.c: an acknowledged request each way, in either order.
use mpdx.Common.{ℕ, ◌+◌, true, List, ◌≡◌, ap, ◌∙◌, arith, ◌==◌, if◌then◌else◌}
use mpdx.Fsm.Types.{State, req_sent, ack_rcvd, ack_sent, opened, FsmType, Machine}
use mpdx.Fsm.Receive.{last_id, recv_config_req, recv_config_ack}
use mpdx.Fsm.View.{View, view, count_ups, acked_by, requested_by, moves}
use mpdx.Fsm.View.Receive.{view-recv_config_ack}
use mpdx.Fsm.View.Request.{verdict, view-recv_config_req}

-- Where a view stands when its machine has opened once more than `v`'s.
record HasOpened (v w : View) : Type 0 where
  state : w.state ≡ opened
  ups : w.ups ≡ v.ups + 1

acked-HasOpened :
    (v : View) → v.state ≡ req_sent → HasOpened v (requested_by ack_rcvd true (acked_by req_sent v))
unfolding moves
acked-HasOpened v e = record { state = ground arith; ups = ground arith }

requested-HasOpened :
    (v : View) → v.state ≡ req_sent → HasOpened v (acked_by ack_sent (requested_by req_sent true v))
unfolding moves
requested-HasOpened v e = record { state = ground arith; ups = ground arith }

acked-state : (v : View) → (acked_by req_sent v).state ≡ ack_rcvd
unfolding moves
acked-state v = ground arith

requested-kept :
    (v : View)
    → v.state ≡ req_sent
    → ((requested_by req_sent true v).state ≡ ack_sent)
      × ((requested_by req_sent true v).reqid ≡ v.reqid)
unfolding moves
requested-kept v e = (ground arith, ground arith)

module _ {C : Type 0} (ty : FsmType C) where
  opened_machine :
      (m n : Machine C) {w : View}
      → view n ≡ w
      → HasOpened (view m) w
      → (n.state ≡ opened) × (count_ups n.actions ≡ count_ups m.actions + 1)
  unfolding view
  opened_machine m n e h = (ap (λ v. v.state) e ∙ h.state, ap (λ v. v.ups) e ∙ h.ups)

  acked_view :
      (id : ℕ) (options : List ℕ) (s : State) (m : Machine C)
      → m.state ≡ s
      → (id == last_id m.reqid) ≡ true
      → view (recv_config_ack ty id options m) ≡ acked_by s (view m)
  acked_view id options s m h e =
      view-recv_config_ack ty id options m
      ∙ ap (λ b. if b then acked_by m.state (view m) else view m) e
      ∙ ap (λ t. acked_by t (view m)) h

  requested_view :
      (id : ℕ) (body : List ℕ) (s : State) (m : Machine C)
      → m.state ≡ s
      → verdict ty body m ≡ true
      → view (recv_config_req ty id body m) ≡ requested_by s true (view m)
  requested_view id body s m h e =
      view-recv_config_req ty id body m
      ∙ ap (λ b. requested_by m.state b (view m)) e
      ∙ ap (λ t. requested_by t true (view m)) h

  state_of : (n : Machine C) {w : View} → view n ≡ w → n.state ≡ w.state
  unfolding view
  state_of n e = ap (λ v. v.state) e

  reqid_same :
      (m n : Machine C) {w : View} → view n ≡ w → w.reqid ≡ (view m).reqid → n.reqid ≡ m.reqid
  unfolding view
  reqid_same m n e h = ap (λ v. v.reqid) e ∙ h

  -- A machine in `req_sent` that gets the Configure-Ack of its last request and a Configure-Request that its
  -- layer refuses nothing of, before and after the Ack, is opened, and has told the layer up once more,
  -- whichever comes first.
  pub opens_either_order :
      (id : ℕ) (options : List ℕ) (peer_id : ℕ) (body : List ℕ) (m : Machine C)
      → m.state ≡ req_sent
      → (id == last_id m.reqid) ≡ true
      → verdict ty body m ≡ true
      → verdict ty body (recv_config_ack ty id options m) ≡ true
      → let first = recv_config_req ty peer_id body (recv_config_ack ty id options m) in
        let second = recv_config_ack ty id options (recv_config_req ty peer_id body m) in
        ((first.state ≡ opened) × (count_ups first.actions ≡ count_ups m.actions + 1))
        × ((second.state ≡ opened) × (count_ups second.actions ≡ count_ups m.actions + 1))
  opens_either_order id options peer_id body m s e h g = (
    let acked = recv_config_ack ty id options m in
        let seen = acked_view id options req_sent m s e in
        let there = state_of acked seen ∙ acked-state (view m) in
        opened_machine m (recv_config_req ty peer_id body acked)
          (requested_view peer_id body ack_rcvd acked there g
            ∙ ap (requested_by ack_rcvd true) seen)
          (acked-HasOpened (view m) (unfold view in s)),
    let asked = recv_config_req ty peer_id body m in
        let seen = requested_view peer_id body req_sent m s h in
        let (there, same) = requested-kept (view m) (unfold view in s) in
        let last = ap (λ r. id == last_id r) (reqid_same m asked seen same) ∙ e in
        opened_machine m (recv_config_ack ty id options asked)
          (acked_view id options ack_sent asked (state_of asked seen ∙ there) last
            ∙ ap (acked_by ack_sent) seen)
          (requested-HasOpened (view m) (unfold view in s)),
  )
