-- ===== src/Ipcp/Types.antt =====
-- src/ipcp.h and src/ipcp.c: the state of IPCP and its settings. An IPv4 address is its number in host order.
use mpdx.Common.{
  ℕ, ◌-◌, ◌+◌, Bool, false, List, [], take, ltb, if◌then◌else◌, Mask, no_bits, from_be,
}
use mpdx.Fsm.Types.{FsmFail}
use mpdx.Ip.{UAddr, unspec, ip4, ip6, URange}
use mpdx.Ippool.{Pool}
use mpdx.Vars.{Options}

-- `struct ipcpvjcomp`, with the protocol in host order.
pub record VjComp : Type 0 where
  pub proto : ℕ
  pub maxchan : ℕ
  pub compcid : ℕ

-- The two servers of each kind, the primary one first.
pub record Servers : Type 0 where
  pub dns : ℕ
  pub dns2 : ℕ
  pub nbns : ℕ
  pub nbns2 : ℕ

-- The calls to the bundle and to netgraph, newest first in the state: `BundNcpsStart`, `BundNcpsFinish`,
-- `BundNcpsJoin`, `BundNcpsLeave`, `NgFuncSetConfig` with the flags for IP and for compression in both
-- directions, the node for compression with its setting, and `RecordLinkUpDownReason`.
pub data IpcpCall : Type 0 where
  ip_start ip_finish ip_join ip_leave : IpcpCall
  set_ip : Bool → Bool → Bool → IpcpCall
  init_vj stop_vj : IpcpCall
  set_vj : Bool → Bool → VjComp → IpcpCall
  ip_failed : FsmFail → IpcpCall

-- `struct ipcpstate` without its settings and its machine, the flag of the parameters of the bundle, and the
-- pools of the daemon.
pub record Ipcp : Type 0 where
  pub want_addr : ℕ
  pub peer_addr : ℕ
  pub self_allow : URange
  pub peer_allow : URange
  pub self_ippool_used : Bool
  pub ippool_used : Bool
  pub user_ippool_used : Bool
  pub peer_comp : VjComp
  pub want_comp : VjComp
  pub want_servers : Servers
  pub peer_reject : Mask
  pub pools : List Pool
  pub calls : List IpcpCall

-- `struct ipcpconf`, where `self_range` and `peer_range` are its `self_allow` and `peer_allow`; the parameters of
-- the bundle that authentication has set (`range_valid`, `range`, `vjc_enable`, and `user_ippool` and
-- `user_servers` for its pool and servers); the numbers of channels of netgraph; and what the machine reads.
pub record IpcpInfo : Type 0 where
  pub options : Options
  pub self_range : URange
  pub peer_range : URange
  pub self_ippool : List ℕ
  pub ippool : List ℕ
  pub servers : Servers
  pub range_valid : Bool
  pub range : URange
  pub user_ippool : List ℕ
  pub user_servers : Servers
  pub vjc_enable : Bool
  pub min_channels : ℕ
  pub max_channels : ℕ
  pub overlong : ℕ → ℕ → ℕ
  pub retry_timeout : ℕ
  pub has_bundle : Bool
  pub stack : List ℕ

abbrev pub proto_vjcomp : ℕ
proto_vjcomp = 0x2d

-- `IPCP_CONF_PRETENDIP`.
abbrev pub pretend_ip : ℕ
pretend_ip = 5

-- `o2b`.
abbrev pub bit_of : ℕ → ℕ
bit_of x = if ltb x 128 then x else x - 128 + 3

-- `u_addrtoin_addr`: the first four bytes of the union. An address of no family is cleared.
abbrev pub in_addr_of : UAddr → ℕ
in_addr_of unspec = 0
in_addr_of (ip4 n) = n
in_addr_of (ip6 bs) = from_be 0 (take 4 bs)

abbrev pub no_servers : Servers
no_servers = record { dns = 0; dns2 = 0; nbns = 0; nbns2 = 0 }

abbrev pub no_vj : VjComp
no_vj = record { proto = 0; maxchan = 0; compcid = 0 }

-- The state of `IpcpInit`.
abbrev pub ipcp_init : List Pool → Ipcp
ipcp_init pools = record {
  want_addr = 0;
  peer_addr = 0;
  self_allow = record { addr = unspec; width = 0 };
  peer_allow = record { addr = unspec; width = 0 };
  self_ippool_used = false;
  ippool_used = false;
  user_ippool_used = false;
  peer_comp = no_vj;
  want_comp = no_vj;
  want_servers = no_servers;
  peer_reject = no_bits;
  pools = pools;
  calls = [];
}
