-- ===== src/Ipcp/Layer.antt =====
-- src/ipcp.c: the functions of `gIpcpFsmType` besides `IpcpDecodeConfig`, as a layer over the machine of src/fsm.c.
use mpdx.Common.{
  ℕ, ◌-◌, Bool, true, false, not, ◌&&◌, ◌||◌, Option, none, some, List, [], ◌∷◌, ◌++◌, ◌==◌,
  if◌then◌else◌, no_bits, be32,
}
use mpdx.Vars.{enabled}
use mpdx.Ip.{ip4, URange, u_addrempty, ip_addr_in_range}
use mpdx.Ippool.{Pool, ippool_get, ippool_free}
use mpdx.Fsm.Types.{FsmType}
use mpdx.Fsm.Options.{raw, conf_value}
use mpdx.Ipcp.Types.{
  VjComp, IpcpCall, ip_start, ip_finish, ip_join, ip_leave, set_ip, init_vj, stop_vj, set_vj,
  ip_failed, Ipcp, IpcpInfo, proto_vjcomp, bit_of, in_addr_of, no_servers,
}
use mpdx.Ipcp.Decode.{vj_bytes, ipcp_decode_config}

abbrev pub call : IpcpCall → Ipcp → Ipcp
call c s = record s { calls = c ∷ s.calls }

abbrev pub has_name : List ℕ → Bool
has_name [] = false
has_name (_ ∷ _) = true

-- The range of one address, of width 32.
abbrev pub host : ℕ → URange
host ip = record { addr = ip4 ip; width = 32 }

-- What a pool gives; where `IPPoolGet` fails the range stays.
abbrev pub leased_self : Option (ℕ × List Pool) → Ipcp → Ipcp
leased_self none s = s
leased_self (some (ip, pools)) s = record s {
  self_allow = host ip;
  self_ippool_used = true;
  pools = pools;
}

abbrev pub leased_user : Option (ℕ × List Pool) → Ipcp → Ipcp
leased_user none s = s
leased_user (some (ip, pools)) s = record s {
  peer_allow = host ip;
  user_ippool_used = true;
  pools = pools;
}

abbrev pub leased_peer : Option (ℕ × List Pool) → Ipcp → Ipcp
leased_peer none s = s
leased_peer (some (ip, pools)) s = record s {
  peer_allow = host ip;
  ippool_used = true;
  pools = pools;
}

module _ (i : IpcpInfo) where
  -- The ranges of `IpcpConfigure`.
  unfoldable pub allow_self : Ipcp → Ipcp
  unfolding ippool_get
  allow_self s =
      if has_name i.self_ippool
      then leased_self (ippool_get s.pools i.self_ippool) s
      else record s { self_allow = i.self_range }

  unfoldable pub allow_peer : Ipcp → Ipcp
  unfolding ippool_get u_addrempty
  allow_peer s =
      if i.range_valid && not (u_addrempty i.range.addr)
      then record s { peer_allow = i.range }
      else if has_name i.user_ippool
      then leased_user (ippool_get s.pools i.user_ippool) s
      else if has_name i.ippool
      then leased_peer (ippool_get s.pools i.ippool) s
      else record s { peer_allow = i.peer_range }

  -- What follows in `IpcpConfigure`.
  abbrev pub initial_wishes : Ipcp → Ipcp
  initial_wishes s = record s {
    want_addr = in_addr_of s.self_allow.addr;
    peer_addr = in_addr_of s.peer_allow.addr;
    peer_comp = record { proto = 0; maxchan = i.max_channels - 1; compcid = 0 };
    want_comp = record {
      proto = if i.vjc_enable || enabled i.options 0 then proto_vjcomp else 0;
      maxchan = i.max_channels - 1;
      compcid = 0;
    };
    want_servers = no_servers;
  }

  -- `IpcpConfigure`.
  unfoldable pub ipcp_configure : Ipcp → Ipcp
  unfolding allow_self allow_peer
  ipcp_configure s = initial_wishes (allow_peer (allow_self (record s { peer_reject = no_bits })))

  -- `IpcpUnConfigure`.
  unfoldable pub free_self : Ipcp → Ipcp
  free_self s =
      if s.self_ippool_used
      then record s {
        pools = ippool_free s.pools i.self_ippool s.want_addr;
        self_ippool_used = false;
      }
      else s

  unfoldable pub free_peer : Ipcp → Ipcp
  free_peer s =
      if s.user_ippool_used
      then record s {
        pools = ippool_free s.pools i.user_ippool s.peer_addr;
        user_ippool_used = false;
      }
      else if s.ippool_used
      then record s { pools = ippool_free s.pools i.ippool s.peer_addr; ippool_used = false }
      else s

  unfoldable pub ipcp_un_configure : Ipcp → Ipcp
  unfolding free_self free_peer
  ipcp_un_configure s = free_peer (free_self s)

  -- `IpcpBuildConfigReq`: the requests for servers, and all of it.
  abbrev pub ask_server : Ipcp → ℕ → ℕ → ℕ → List ℕ
  ask_server s option type ip =
      if enabled i.options option && not (s.peer_reject (bit_of type))
      then conf_value type (raw (be32 ip))
      else []

  abbrev pub ask_addr : Ipcp → List ℕ
  ask_addr s =
      if not (s.peer_reject 3) || s.want_addr == 0
      then conf_value 3 (raw (be32 s.want_addr))
      else []

  abbrev pub ask_vj : Ipcp → List ℕ
  ask_vj s =
      if not (s.want_comp.proto == 0) && not (s.peer_reject 2)
      then conf_value 2 (raw (vj_bytes s.want_comp))
      else []

  unfoldable pub ipcp_build_config_req : Ipcp → List ℕ × Ipcp
  ipcp_build_config_req s = (
    ask_addr s
        ++ ask_vj s
        ++ ask_server s 1 129 s.want_servers.dns
        ++ ask_server s 2 131 s.want_servers.dns2
        ++ ask_server s 3 130 s.want_servers.nbns
        ++ ask_server s 4 132 s.want_servers.nbns2,
    s,
  )

  -- `IpcpLayerUp`: a negotiated address that is out of range is replaced.
  unfoldable pub settle_self : Ipcp → Ipcp
  unfolding ip_addr_in_range
  settle_self s =
      if ip_addr_in_range i.overlong s.self_allow (ip4 s.want_addr)
      then s
      else record s { want_addr = in_addr_of s.self_allow.addr }

  unfoldable pub settle_peer : Ipcp → Ipcp
  unfolding ip_addr_in_range u_addrempty
  settle_peer s =
      if not (ip_addr_in_range i.overlong s.peer_allow (ip4 s.peer_addr))
        && not (u_addrempty s.peer_allow.addr)
      then record s { peer_addr = in_addr_of s.peer_allow.addr }
      else s

  abbrev pub is_vj : VjComp → Bool
  is_vj v = v.proto == proto_vjcomp

  unfoldable pub start_vj : Ipcp → Ipcp
  start_vj s =
      if is_vj s.peer_comp || is_vj s.want_comp
      then call (set_vj (is_vj s.peer_comp) (is_vj s.want_comp) s.peer_comp) (call init_vj s)
      else s

  unfoldable pub ipcp_layer_up : Ipcp → Ipcp
  unfolding settle_self settle_peer start_vj
  ipcp_layer_up s =
      let up = start_vj (settle_peer (settle_self s)) in
      call ip_join (call (set_ip true (is_vj s.peer_comp) (is_vj s.want_comp)) up)

  -- `IpcpLayerDown`.
  unfoldable pub ipcp_layer_down : Ipcp → Ipcp
  ipcp_layer_down s =
      let down = call (set_ip false false false) (call ip_leave s) in
      if is_vj s.peer_comp || is_vj s.want_comp then call stop_vj down else down

  -- `gIpcpFsmType`. Its codes are those from `CODE_CONFIGREQ` to `CODE_CODEREJ`.
  pub ipcp_type : FsmType Ipcp
  unfolding ipcp_configure ipcp_un_configure ipcp_build_config_req ipcp_layer_up ipcp_layer_down
      ipcp_decode_config
  ipcp_type = record {
    proto = 0x8021;
    known_codes = 254;
    link_layer = false;
    on_new_state = none;
    on_layer_up = some ipcp_layer_up;
    on_layer_down = some ipcp_layer_down;
    on_layer_start = some (call ip_start);
    on_layer_finish = some (call ip_finish);
    build_config_req = ipcp_build_config_req;
    decode_config = ipcp_decode_config i;
    configure = some ipcp_configure;
    un_configure = some ipcp_un_configure;
    on_send_terminate_req = none;
    on_send_terminate_ack = none;
    on_code_rej = none;
    on_proto_rej = none;
    on_failure = some (λ why s. call (ip_failed why) s);
    on_reset_req = none;
    on_reset_ack = none;
    on_ident = none;
    on_disc_req = none;
    on_time_remain = none;
    on_vendor = none;
    record_peer_disc = λ s. s;
    want_magic = λ s. 0;
    peer_magic = λ s. 0;
    retry_timeout = λ s. i.retry_timeout;
    has_bundle = λ s. i.has_bundle;
    stack = λ s. i.stack;
  }
