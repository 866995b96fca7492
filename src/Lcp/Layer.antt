-- ===== src/Lcp/Layer.antt =====
-- src/lcp.c: `gLcpFsmType`, which plugs LCP into the state machine of src/fsm.c, and the calls into LCP
-- from the rest of the daemon as events of the link.
use mpdx.Common.{ℕ, Bool, true, false, Option, none, some, List, [], ◌∷◌, ◌||◌, ◌==◌, if◌then◌else◌}
use mpdx.Vars.{enabled}
use mpdx.Fsm.Types.{FsmType, Machine}
use mpdx.Fsm.Core.{fsm_init}
use mpdx.Fsm.Step.{Event, step}
use mpdx.Lcp.Types.{NetLayer, ccp, ecp, ipcp, ipv6cp, fail_layer, peer_disconnected, LinkInfo, Lcp}
use mpdx.Lcp.Phase.{
  call, lcp_auth_result, lcp_new_state, lcp_layer_start, lcp_layer_finish, lcp_layer_down,
  lcp_failure, lcp_recv_ident,
}
use mpdx.Lcp.Request.{lcp_init, lcp_configure, lcp_build_config_req}
use mpdx.Lcp.Decode.{lcp_decode_config}

-- The layer behind a protocol number.
unfoldable pub layer_of : ℕ → Option NetLayer
layer_of proto =
    if proto == 33021 || proto == 253
    then some ccp
    else if proto == 32851 || proto == 83
    then some ecp
    else if proto == 32801
    then some ipcp
    else if proto == 32855
    then some ipv6cp
    else none

abbrev pub fail_layer_if : Bool → Option NetLayer → Lcp → Lcp
fail_layer_if true (some n) lcp = call (fail_layer n) lcp
fail_layer_if _ _ lcp = lcp

-- The link gets the events of its machine, and the results of its authentication.
pub data LinkEvent : Type 0 where
  machine : Event → LinkEvent
  authenticated : Bool → LinkEvent

module _ (l : LinkInfo) where
  -- `LcpRecvProtoRej`, which is never fatal.
  unfoldable pub lcp_recv_proto_rej : ℕ → List ℕ → Lcp → Bool × Lcp
  unfolding layer_of
  lcp_recv_proto_rej proto body lcp = (false, fail_layer_if l.has_bundle (layer_of proto) lcp)

  -- `gLcpFsmType`. Its codes are those from `CODE_CONFIGREQ` to `CODE_TIMEREM`.
  unfoldable pub lcp_type : FsmType Lcp
  lcp_type = record {
    proto = 49185;
    known_codes = 16382;
    link_layer = true;
    on_new_state = some (lcp_new_state l);
    on_layer_up = none;
    on_layer_down = some lcp_layer_down;
    on_layer_start = some (lcp_layer_start l);
    on_layer_finish = some (lcp_layer_finish l);
    build_config_req = lcp_build_config_req l;
    decode_config = lcp_decode_config l;
    configure = some (lcp_configure l);
    un_configure = none;
    on_send_terminate_req = none;
    on_send_terminate_ack = none;
    on_code_rej = none;
    on_proto_rej = some lcp_recv_proto_rej;
    on_failure = some lcp_failure;
    on_reset_req = none;
    on_reset_ack = none;
    on_ident = some lcp_recv_ident;
    on_disc_req = none;
    on_time_remain = none;
    on_vendor = none;
    record_peer_disc = call peer_disconnected;
    want_magic = λ lcp. lcp.want_magic;
    peer_magic = λ lcp. lcp.peer_magic;
    retry_timeout = λ lcp. l.retry_timeout;
    has_bundle = λ lcp. l.has_bundle;
    stack = λ lcp. l.stack;
  }

  -- The machine that `LcpInit` makes, with the settings of the link.
  unfoldable pub lcp_machine : Machine Lcp
  unfolding fsm_init lcp_init
  lcp_machine =
      let m = fsm_init lcp_init in
      let conf = record m.conf {
        echo_int = 5;
        echo_max = 40;
        passive = enabled l.options 10;
        check_magic = enabled l.options 11;
      } in
      record m { conf = conf }

  unfoldable pub link_step : LinkEvent → Machine Lcp → Machine Lcp
  unfolding lcp_type lcp_auth_result
  link_step (machine e) m = step lcp_type e m
  link_step (authenticated ok) m = record m { layer = lcp_auth_result l ok m.layer }

  unfoldable pub link_run : List LinkEvent → Machine Lcp → Machine Lcp
  unfolding link_step
  link_run [] m = m
  link_run (e ∷ es) m = link_run es (link_step e m)
