-- ===== src/Lcp/Phase.antt =====
-- src/lcp.c: the phase of a link, `LcpNewState`, `LcpNewPhase`, `LcpAuthResult`, and the handlers that
-- the machine calls when the layer comes and goes.
use mpdx.Common.{
  ℕ, zero, ◌-◌, Bool, true, false, not, ◌&&◌, List, [], ◌∷◌, ◌++◌, length, take, if◌then◌else◌,
}
use mpdx.Vars.{enabled}
use mpdx.Fsm.Types.{
  State, initial, starting, closed, stopped, closing, stopping, req_sent, ack_rcvd, ack_sent,
  opened, FsmFail,
}
use mpdx.Lcp.Types.{
  Phase, dead, establish, authenticate, network, terminate, LinkCall, auth_start, auth_stop,
  auth_cleanup, bund_leave, bund_join, phys_open, phys_close, ng_init, ng_shutdown, send_ident,
  send_time_remaining, set_accm, shutdown_check, down_reason, login_failed, no_bundle, fail_machine,
  reset_redial, LinkInfo, Lcp,
}

abbrev pub call : LinkCall → Lcp → Lcp
call c lcp = record lcp { calls = c ∷ lcp.calls }

abbrev pub call_if : Bool → LinkCall → Lcp → Lcp
call_if true c lcp = call c lcp
call_if false c lcp = lcp

-- The transitions that `LcpNewPhase` asserts.
unfoldable pub may_follow : Phase → Phase → Bool
may_follow dead establish = true
may_follow establish dead = true
may_follow establish terminate = true
may_follow establish authenticate = true
may_follow authenticate terminate = true
may_follow authenticate establish = true
may_follow authenticate network = true
may_follow authenticate dead = true
may_follow network terminate = true
may_follow network establish = true
may_follow network dead = true
may_follow terminate establish = true
may_follow terminate dead = true
may_follow _ _ = false

-- What leaving a phase does, where `new` is the next.
unfoldable pub leave : Phase → Phase → Lcp → Lcp
leave authenticate network lcp = lcp
leave authenticate new lcp = call auth_cleanup lcp
leave network new lcp =
    call auth_cleanup (call_if lcp.in_bundle bund_leave (record lcp { in_bundle = false }))
leave old new lcp = lcp

module _ (l : LinkInfo) where
  -- `BundJoin` and what follows it.
  unfoldable pub join_bundle : Lcp → Lcp
  join_bundle lcp =
      let asked = call bund_join lcp in
      if l.joins_bundle
      then call reset_redial (record asked { in_bundle = true })
      else call fail_machine (call no_bundle asked)

  -- What entering a phase does.
  unfoldable pub enter_phase : Phase → Lcp → Lcp
  unfolding join_bundle
  enter_phase authenticate lcp =
      call auth_start (call_if (not l.is_sync) (set_accm lcp.peer_accmap lcp.want_accmap) lcp)
  enter_phase network lcp =
      let told = call_if l.has_ident send_ident lcp in
      join_bundle (call_if (enabled l.options 17 && l.knows_remaining) send_time_remaining told)
  enter_phase _ lcp = lcp

  -- `LcpNewPhase`.
  unfoldable pub lcp_new_phase : Phase → Lcp → Lcp
  unfolding may_follow leave enter_phase
  lcp_new_phase new lcp =
      if may_follow lcp.phase new
      then enter_phase new (leave lcp.phase new (record lcp { phase = new }))
      else record lcp { aborted = true }

  -- `LcpAuthResult`.
  unfoldable pub lcp_auth_result : Bool → Lcp → Lcp
  unfolding lcp_new_phase
  lcp_auth_result true lcp = elim lcp.phase [ network ↦ lcp | _ ↦ lcp_new_phase network lcp ]
  lcp_auth_result false lcp = call fail_machine (call login_failed lcp)

-- What `LcpNewState` makes of a change of state.
pub data Shift : Type 0 where
  keep refuse : Shift
  to : Phase → Shift

unfoldable pub shift_from_idle : State → Shift
shift_from_idle initial = keep
shift_from_idle starting = keep
shift_from_idle _ = to establish

unfoldable pub shift_from_shut : State → Shift
shift_from_shut initial = to dead
shift_from_shut starting = to dead
shift_from_shut _ = keep

unfoldable pub shift_from_ending : State → Shift
shift_from_ending initial = to dead
shift_from_ending starting = to dead
shift_from_ending closed = to establish
shift_from_ending stopped = to establish
shift_from_ending _ = keep

unfoldable pub shift_from_talking : State → Shift
shift_from_talking initial = to dead
shift_from_talking starting = to dead
shift_from_talking closing = to terminate
shift_from_talking stopping = to terminate
shift_from_talking opened = to authenticate
shift_from_talking _ = keep

unfoldable pub shift_from_opened : State → Shift
shift_from_opened starting = to dead
shift_from_opened req_sent = to establish
shift_from_opened ack_sent = to establish
shift_from_opened closing = to terminate
shift_from_opened stopping = to terminate
shift_from_opened _ = refuse

unfoldable pub shift : State → State → Shift
unfolding shift_from_idle shift_from_shut shift_from_ending shift_from_talking shift_from_opened
shift initial new = shift_from_idle new
shift starting new = shift_from_idle new
shift closed new = shift_from_shut new
shift stopped new = shift_from_shut new
shift closing new = shift_from_ending new
shift stopping new = shift_from_ending new
shift req_sent new = shift_from_talking new
shift ack_rcvd new = shift_from_talking new
shift ack_sent new = shift_from_talking new
shift opened new = shift_from_opened new

module _ (l : LinkInfo) where
  unfoldable pub shifted : Shift → Lcp → Lcp
  unfolding lcp_new_phase
  shifted keep lcp = lcp
  shifted refuse lcp = record lcp { aborted = true }
  shifted (to new) lcp = lcp_new_phase l new lcp

  -- `LcpNewState`.
  unfoldable pub lcp_new_state : State → State → Lcp → Lcp
  unfolding shift shifted
  lcp_new_state old new lcp = call (shutdown_check new) (shifted (shift old new) lcp)

  -- `LcpLayerStart`, `LcpLayerFinish`, `LcpLayerDown`.
  unfoldable pub lcp_layer_start : Lcp → Lcp
  lcp_layer_start lcp = call_if (not l.open_timer_started) phys_open (call ng_init lcp)

  unfoldable pub lcp_layer_finish : Lcp → Lcp
  lcp_layer_finish lcp =
      let idle = call auth_stop lcp in
      if l.is_repeated then idle else call ng_shutdown (call phys_close idle)

unfoldable pub lcp_layer_down : Lcp → Lcp
lcp_layer_down lcp =
    let idle = call auth_stop lcp in
    elim lcp.phase [
      | authenticate ↦ record idle { need_reset = true }
      | network ↦ record idle { need_reset = true }
      | _ ↦ idle
    ]

-- `LcpFailure`.
unfoldable pub lcp_failure : FsmFail → Lcp → Lcp
lcp_failure why = call (down_reason why)

-- `LcpRecvIdent`: what is kept of the texts, with a space between two, is cut at 63 bytes. A text that
-- is kept is read up to its NUL.
unfoldable pub c_string : List ℕ → List ℕ
c_string [] = []
c_string (zero ∷ text) = []
c_string (b ∷ text) = b ∷ c_string text

unfoldable pub spaced : List ℕ → List ℕ
spaced [] = []
spaced (c ∷ cs) = take 63 (c ∷ cs ++ (32 ∷ []))

unfoldable pub lcp_recv_ident : List ℕ → Lcp → Lcp
unfolding c_string spaced
lcp_recv_ident [] lcp = lcp
lcp_recv_ident (b ∷ body) lcp =
    let old = spaced (c_string lcp.peer_ident) in
    record lcp { peer_ident = old ++ take (63 - length old) (b ∷ body) }
