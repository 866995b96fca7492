-- ===== src/Ipcp/Leases.antt =====
-- src/ipcp.c: what a negotiation leaves of the addresses that IPCP has taken from the pools.
use mpdx.Common.{ℕ, Bool, true, false, ◌||◌, ◌≡◌, arith, ◌==◌, Bool-cases, inl, inr}
use mpdx.Vars.{enabled}
use mpdx.Ip.{ip4, ip_addr_in_range}
use mpdx.Fsm.Types.{FsmOption, Buffers}
use mpdx.Ipcp.Types.{Ipcp, IpcpInfo, pretend_ip}
use mpdx.Ipcp.Layer.{host}
use mpdx.Ipcp.Decode.{refuse_addr, request_addr, nak_addr}

-- Whether the peer's address is leased.
abbrev pub peer_leased : Ipcp → Bool
peer_leased s = s.user_ippool_used || s.ippool_used

-- The addresses that come from a pool are the only ones that their ranges have.
pub record IsLeased (s : Ipcp) : Type 0 where
  pub self_range : s.self_ippool_used ≡ true → s.self_allow ≡ host s.want_addr
  pub self_given : s.self_ippool_used ≡ true → (s.want_addr == 0) ≡ false
  pub peer_range : peer_leased s ≡ true → s.peer_allow ≡ host s.peer_addr
  pub peer_given : peer_leased s ≡ true → (s.peer_addr == 0) ≡ false

-- What is kept of `r` in `s`: the ranges, the leases and the leased addresses.
pub record Keeps (r s : Ipcp) : Type 0 where
  pub pools : s.pools ≡ r.pools
  pub self_used : s.self_ippool_used ≡ r.self_ippool_used
  pub user_used : s.user_ippool_used ≡ r.user_ippool_used
  pub used : s.ippool_used ≡ r.ippool_used
  pub self_allow : s.self_allow ≡ r.self_allow
  pub peer_allow : s.peer_allow ≡ r.peer_allow
  pub self_addr : r.self_ippool_used ≡ true → s.want_addr ≡ r.want_addr
  pub peer_addr : peer_leased r ≡ true → s.peer_addr ≡ r.peer_addr

pub in_range-host :
    (f : ℕ → ℕ → ℕ) (a b : ℕ)
    → (a == 0) ≡ false
    → ip_addr_in_range f (host a) (ip4 b) ≡ true
    → b ≡ a
unfolding ip_addr_in_range
in_range-host f a b n h = ground arith

pub host-in_range :
    (f : ℕ → ℕ → ℕ) (a : ℕ) → (a == 0) ≡ false → ip_addr_in_range f (host a) (ip4 a) ≡ true
unfolding ip_addr_in_range
host-in_range f a n = ground arith

module _ (i : IpcpInfo) (r : Ipcp) (l : IsLeased r)
    (plain : enabled i.options pretend_ip ≡ false) where
  pub with_peer :
      (s : Ipcp) (ip : ℕ)
      → Keeps r s
      → (peer_leased r ≡ true → ip ≡ r.peer_addr)
      → Keeps r (record s { peer_addr = ip })
  with_peer s ip k h = record {
    pools = k.pools;
    self_used = k.self_used;
    user_used = k.user_used;
    used = k.used;
    self_allow = k.self_allow;
    peer_allow = k.peer_allow;
    self_addr = k.self_addr;
    peer_addr = h;
  }

  pub with_want :
      (s : Ipcp) (ip : ℕ)
      → Keeps r s
      → (r.self_ippool_used ≡ true → ip ≡ r.want_addr)
      → Keeps r (record s { want_addr = ip })
  with_want s ip k h = record {
    pools = k.pools;
    self_used = k.self_used;
    user_used = k.user_used;
    used = k.used;
    self_allow = k.self_allow;
    peer_allow = k.peer_allow;
    self_addr = h;
    peer_addr = k.peer_addr;
  }

  peer_in_range :
      (s : Ipcp) (ip : ℕ)
      → Keeps r s
      → ip_addr_in_range i.overlong s.peer_allow (ip4 ip) ≡ true
      → peer_leased r ≡ true
      → ip ≡ r.peer_addr
  peer_in_range s ip k h u =
      in_range-host i.overlong r.peer_addr ip (l.peer_given u)
        (rw (← l.peer_range u, ← k.peer_allow) h)

  self_in_range :
      (s : Ipcp) (ip : ℕ)
      → Keeps r s
      → ip_addr_in_range i.overlong s.self_allow (ip4 ip) ≡ true
      → r.self_ippool_used ≡ true
      → ip ≡ r.want_addr
  self_in_range s ip k h u =
      in_range-host i.overlong r.want_addr ip (l.self_given u)
        (rw (← l.self_range u, ← k.self_allow) h)

  refuse_addr-Keeps :
      (ip : ℕ) (o : FsmOption) (b : Buffers) (s : Ipcp)
      → Keeps r s
      → Keeps r (refuse_addr i ip o b s).1
  unfolding refuse_addr
  refuse_addr-Keeps ip o b s k = simp plain k

  pub request_addr-Keeps :
      (ip : ℕ) (o : FsmOption) (b : Buffers) (s : Ipcp)
      → Keeps r s
      → Keeps r (request_addr i ip o b s).1
  unfolding request_addr
  request_addr-Keeps ip o b s k =
      elim (Bool-cases (ip_addr_in_range i.overlong s.peer_allow (ip4 ip))) [
        | inl e ↦ elim (Bool-cases (ip == 0)) [
          | inl z ↦ simp (e, z) (refuse_addr-Keeps ip o b s k)
          | inr z ↦ simp (e, z) (with_peer s ip k (peer_in_range s ip k e))
        ]
        | inr e ↦ simp e (refuse_addr-Keeps ip o b s k)
      ]

  pub nak_addr-Keeps : (ip : ℕ) (s : Ipcp) → Keeps r s → Keeps r (nak_addr i ip s)
  unfolding nak_addr
  nak_addr-Keeps ip s k = elim (Bool-cases (ip_addr_in_range i.overlong s.self_allow (ip4 ip))) [
    | inl e ↦ simp e (with_want s ip k (self_in_range s ip k e))
    | inr e ↦ simp (e, plain) k
  ]
