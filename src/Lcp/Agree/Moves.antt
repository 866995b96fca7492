-- ===== src/Lcp/Agree/Moves.antt =====
-- The phase follows the state of the machine: `LcpNewState` of src/lcp.c.
use mpdx.Common.{Bool, true, false, not, ◌&&◌, ◌||◌, ◌≡◌, refl, ◌∙◌, arith, if◌then◌else◌}
use mpdx.Fsm.Types.{
  State, initial, starting, closed, stopped, closing, stopping, req_sent, ack_rcvd, ack_sent,
  opened,
}
use mpdx.Fsm.Carry.{may_move}
use mpdx.Vars.{enabled}
use mpdx.Lcp.Types.{
  Phase, dead, establish, authenticate, network, terminate, auth_start, auth_cleanup, bund_leave,
  send_ident, send_time_remaining, set_accm, LinkCall, LinkInfo, Lcp,
}
use mpdx.Lcp.Phase.{
  call, call_if, join_bundle, may_follow, leave, enter_phase, lcp_new_phase, lcp_auth_result, Shift,
  keep, refuse, to, shift, shifted, lcp_new_state,
}
use mpdx.Lcp.Agree.{may_be_in, Agrees, Steady}

pub Agrees-Steady : {s : State} {old new : Lcp} → Steady old new → Agrees s old → Agrees s new
Agrees-Steady h a = record {
  phase = rw h.phase a.phase;
  alive = h.aborted ∙ a.alive;
  nakable = rw h.protos a.nakable;
}

-- Whether what `LcpNewState` makes of a move to `s` in the phase `p` is right.
unfoldable pub fits : Phase → State → Shift → Bool
fits p s keep = may_be_in s p
fits p s refuse = false
fits p s (to q) = may_follow p q && may_be_in s q

every_state : (State → Bool) → Bool
every_state f =
    f initial
    && f starting
    && f closed
    && f stopped
    && f closing
    && f stopping
    && f req_sent
    && f ack_rcvd
    && f ack_sent
    && f opened

every_phase : (Phase → Bool) → Bool
every_phase f = f dead && f establish && f authenticate && f network && f terminate

every_state-at : (f : State → Bool) (s : State) → every_state f ≡ true → f s ≡ true
unfolding every_state
every_state-at f initial h = ground arith
every_state-at f starting h = ground arith
every_state-at f closed h = ground arith
every_state-at f stopped h = ground arith
every_state-at f closing h = ground arith
every_state-at f stopping h = ground arith
every_state-at f req_sent h = ground arith
every_state-at f ack_rcvd h = ground arith
every_state-at f ack_sent h = ground arith
every_state-at f opened h = ground arith

every_phase-at : (f : Phase → Bool) (p : Phase) → every_phase f ≡ true → f p ≡ true
unfolding every_phase
every_phase-at f dead h = ground arith
every_phase-at f establish h = ground arith
every_phase-at f authenticate h = ground arith
every_phase-at f network h = ground arith
every_phase-at f terminate h = ground arith

unfoldable pub shift_fits : State → State → Phase → Bool
shift_fits s t p = not (may_move s t && may_be_in s p) || fits p t (shift s t)

every_shift_fits : every_state (λ s. every_state (λ t. every_phase (λ p. shift_fits s t p))) ≡ true
unfolding every_state every_phase shift_fits may_move may_be_in fits may_follow shift
every_shift_fits = refl

fits_of : (a b c : Bool) → (not (a && b) || c) ≡ true → a ≡ true → b ≡ true → c ≡ true
fits_of a b c h e f = ground arith

shift-fits :
    (s t : State) (p : Phase)
    → may_move s t ≡ true
    → may_be_in s p ≡ true
    → fits p t (shift s t) ≡ true
unfolding shift_fits
shift-fits s t p =
    fits_of _ _ _ (every_phase-at _ p (every_state-at _ t (every_state-at _ s every_shift_fits)))

Steady-refl : (lcp : Lcp) → Steady lcp lcp
Steady-refl lcp = record { phase = refl; aborted = refl; protos = refl }

pub Steady-trans : {a b c : Lcp} → Steady a b → Steady b c → Steady a c
Steady-trans h k = record {
  phase = k.phase ∙ h.phase;
  aborted = k.aborted ∙ h.aborted;
  protos = k.protos ∙ h.protos;
}

pub Steady-call_if : (b : Bool) (c : LinkCall) (lcp : Lcp) → Steady lcp (call_if b c lcp)
Steady-call_if true c lcp = record { phase = refl; aborted = refl; protos = refl }
Steady-call_if false c lcp = Steady-refl lcp

pub Steady-if : {a b c : Lcp} (t : Bool) → Steady a b → Steady a c → Steady a (if t then b else c)
Steady-if true h k = h
Steady-if false h k = k

Steady-call : (c : LinkCall) {a b : Lcp} → Steady a b → Steady a (call c b)
Steady-call c h = record { phase = h.phase; aborted = h.aborted; protos = h.protos }

leave-Steady : (p q : Phase) (lcp : Lcp) → Steady lcp (leave p q lcp)
unfolding leave
leave-Steady authenticate network lcp = Steady-refl lcp
leave-Steady authenticate _ lcp = Steady-call auth_cleanup (Steady-refl lcp)
leave-Steady network q lcp =
    let left = Steady-call_if lcp.in_bundle bund_leave (record lcp { in_bundle = false }) in
    record { phase = left.phase; aborted = left.aborted; protos = left.protos }
leave-Steady dead q lcp = Steady-refl lcp
leave-Steady establish q lcp = Steady-refl lcp
leave-Steady terminate q lcp = Steady-refl lcp

module _ (l : LinkInfo) where
  join-Steady : (lcp : Lcp) → Steady lcp (join_bundle l lcp)
  unfolding join_bundle
  join-Steady lcp =
      Steady-if l.joins_bundle (record { phase = refl; aborted = refl; protos = refl })
        (record { phase = refl; aborted = refl; protos = refl })

  enter-Steady : (p : Phase) (lcp : Lcp) → Steady lcp (enter_phase l p lcp)
  unfolding enter_phase
  enter-Steady authenticate lcp =
      Steady-call auth_start
        (Steady-call_if (not l.is_sync) (set_accm lcp.peer_accmap lcp.want_accmap) lcp)
  enter-Steady network lcp =
      let told = call_if l.has_ident send_ident lcp in
      Steady-trans (Steady-call_if l.has_ident send_ident lcp) (
        Steady-trans
          (Steady-call_if (enabled l.options 17 && l.knows_remaining) send_time_remaining told)
          (join-Steady _))
  enter-Steady dead lcp = Steady-refl lcp
  enter-Steady establish lcp = Steady-refl lcp
  enter-Steady terminate lcp = Steady-refl lcp

  -- `LcpNewPhase` along a transition that it allows.
  new_phase-Steady :
      (q : Phase) (lcp : Lcp)
      → may_follow lcp.phase q ≡ true
      → Steady (record lcp { phase = q }) (lcp_new_phase l q lcp)
  unfolding lcp_new_phase
  new_phase-Steady q lcp e =
      rw e (Steady-trans (leave-Steady lcp.phase q (record lcp { phase = q })) (enter-Steady q _))

  both_true : (a b : Bool) → (a && b) ≡ true → (a ≡ true) × (b ≡ true)
  both_true a b h = ground arith

  shifted-Agrees :
      (s t : State) (lcp : Lcp) (h : Shift)
      → fits lcp.phase t h ≡ true
      → Agrees s lcp
      → Agrees t (shifted l h lcp)
  unfolding shifted fits
  shifted-Agrees s t lcp keep e a = record { phase = e; alive = a.alive; nakable = a.nakable }
  shifted-Agrees s t lcp refuse e a = absurd (ground arith)
  shifted-Agrees s t lcp (to q) e a =
      let (follows, fit) = both_true (may_follow lcp.phase q) (may_be_in t q) e in
      Agrees-Steady (new_phase-Steady q lcp follows)
        (record { phase = fit; alive = a.alive; nakable = a.nakable })

  pub new_state-Agrees :
      (s t : State) (lcp : Lcp)
      → may_move s t ≡ true
      → Agrees s lcp
      → Agrees t (lcp_new_state l s t lcp)
  unfolding lcp_new_state
  new_state-Agrees s t lcp e a =
      let n = shifted-Agrees s t lcp (shift s t) (shift-fits s t lcp.phase e a.phase) a in
      record { phase = n.phase; alive = n.alive; nakable = n.nakable }

  auth_done :
      (p : Phase) (lcp : Lcp)
      → lcp.phase ≡ p
      → may_be_in opened p ≡ true
      → Agrees opened lcp
      → Agrees opened (elim p [ network ↦ lcp | _ ↦ lcp_new_phase l network lcp ])
  unfolding may_be_in may_follow
  auth_done network lcp e h a = a
  auth_done authenticate lcp e h a =
      Agrees-Steady (new_phase-Steady network lcp (rw e refl))
        (record { phase = refl; alive = a.alive; nakable = a.nakable })
  auth_done _ lcp e h a = absurd (ground arith)

  pub auth_result-Agrees :
      (ok : Bool) (lcp : Lcp) → Agrees opened lcp → Agrees opened (lcp_auth_result l ok lcp)
  unfolding lcp_auth_result
  auth_result-Agrees true lcp a = auth_done lcp.phase lcp refl a.phase a
  auth_result-Agrees false lcp a = record { phase = a.phase; alive = a.alive; nakable = a.nakable }
