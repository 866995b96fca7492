-- ===== src/Ipcp/Pretend.antt =====
-- src/ipcp.c: the option `pretend-ip` and the addresses from pools.
use mpdx.Common.{
  ℕ, true, false, some, List, [], ◌∷◌, ◌≡◌, refl, arith, ◌==◌, from_be, no_bits, Bool-cases, inl,
  inr,
}
use mpdx.Vars.{enabled}
use mpdx.Ip.{ip4, ip_addr_in_range}
use mpdx.Fsm.Types.{Mode, FsmOption, Buffers}
use mpdx.Ippool.{Pool, ippool_get, ippool_free}
use mpdx.Ippool.Leases.{AllDistinct, get-leased, leased}
use mpdx.Ippool.Commute.{leased_other}
use mpdx.Ipcp.Types.{Ipcp, IpcpInfo, pretend_ip}
use mpdx.Ipcp.Layer.{
  has_name, leased_self, allow_self, allow_peer, ipcp_configure, ipcp_un_configure,
}
use mpdx.Ipcp.Decode.{nak_addr, decode_addr, decode_sized, decode_option, ipcp_decode_config}
use mpdx.Ipcp.Session.{decodes, session}
use mpdx.Ipcp.Returned.{IsIdle}

-- The own address comes from a pool, and the peer's from none.
pub record IsPretending (i : IpcpInfo) : Type 0 where
  pub pretends : enabled i.options pretend_ip ≡ true
  pub own_pool : has_name i.self_ippool ≡ true
  pub no_range : i.range_valid ≡ false
  pub no_user_pool : has_name i.user_ippool ≡ false
  pub no_peer_pool : has_name i.ippool ≡ false

-- A Configure-Nak with an address.
pub record IsAddr (o : FsmOption) (ip : ℕ) : Type 0 where
  pub type : o.type ≡ 3
  pub len : o.len ≡ 6
  pub bytes : from_be 0 o.bytes ≡ ip

module _ (i : IpcpInfo) (p : IsPretending i) where
  -- The state after `IpcpConfigure`, as far as the pools go.
  record HasLease (qs : List Pool) (r : Ipcp) : Type 0 where
    pools : r.pools ≡ qs
    self_used : r.self_ippool_used ≡ true
    user_used : r.user_ippool_used ≡ false
    used : r.ippool_used ≡ false

  allow_self-some :
      (s : Ipcp) (a : ℕ) (qs : List Pool)
      → ippool_get s.pools i.self_ippool ≡ some (a, qs)
      → allow_self i s ≡ leased_self (some (a, qs)) s
  unfolding allow_self
  allow_self-some s a qs h = rw (p.own_pool, h) refl

  allow_peer-none : (s : Ipcp) → allow_peer i s ≡ record s { peer_allow = i.peer_range }
  unfolding allow_peer
  allow_peer-none s = simp (p.no_range, p.no_user_pool, p.no_peer_pool) refl

  configure-HasLease :
      (s : Ipcp) (a : ℕ) (qs : List Pool)
      → IsIdle s
      → ippool_get s.pools i.self_ippool ≡ some (a, qs)
      → HasLease qs (ipcp_configure i s)
  unfolding ipcp_configure
  configure-HasLease s a qs q h =
      let cleared = record s { peer_reject = no_bits } in
      rw (allow_self-some cleared a qs h, allow_peer-none (leased_self (some (a, qs)) cleared))
        (record { pools = refl; self_used = refl; user_used = q.user_used; used = q.used })

  nak_addr-taken : (ip : ℕ) (r : Ipcp) → nak_addr i ip r ≡ record r { want_addr = ip }
  unfolding nak_addr
  nak_addr-taken ip r = elim (Bool-cases (ip_addr_in_range i.overlong r.self_allow (ip4 ip))) [
    | inl e ↦ rw e refl
    | inr e ↦ rw (e, p.pretends) refl
  ]

  nak-taken :
      (o : FsmOption) (ip : ℕ) (b : Buffers) (r : Ipcp)
      → IsAddr o ip
      → (ipcp_decode_config i (o ∷ []) Mode.nak b r).1 ≡ record r { want_addr = ip }
  unfolding ipcp_decode_config decode_option decode_sized decode_addr
  nak-taken o ip b r w = rw (w.len, w.type, w.bytes) (nak_addr-taken ip r)

  -- What the end of the session leaves.
  record IsFreed (qs : List Pool) (ip : ℕ) (r : Ipcp) : Type 0 where
    pools : r.pools ≡ ippool_free qs i.self_ippool ip
    idle : IsIdle r

  un_configure-IsFreed :
      (ip : ℕ) (qs : List Pool) (r : Ipcp)
      → HasLease qs r
      → IsFreed qs ip (ipcp_un_configure i (record r { want_addr = ip }))
  unfolding ipcp_un_configure
  un_configure-IsFreed ip qs r l =
      rw (l.pools, l.self_used, l.user_used, l.used)
        (record { pools = refl; idle = record { self_used = refl; user_used = refl; used = refl } })

  session-IsFreed :
      (o : FsmOption) (ip a : ℕ) (b : Buffers) (s : Ipcp) (qs : List Pool)
      → IsIdle s
      → IsAddr o ip
      → ippool_get s.pools i.self_ippool ≡ some (a, qs)
      → IsFreed qs ip (session i (decodes (o ∷ []) Mode.nak b ∷ []) s)
  session-IsFreed o ip a b s qs q w h =
      rw (nak-taken o ip b (ipcp_configure i s) w)
        (un_configure-IsFreed ip qs (ipcp_configure i s) (configure-HasLease s a qs q h))

  -- With `pretend-ip`, take a session for which a free address is leased from the pool of its own addresses, and
  -- that ends after one Configure-Nak with another address and before `IpcpLayerUp`. That address of the peer is
  -- what it gives back to the pool. The leased address is still marked as in use at its end, although the state
  -- records no lease any more. The peer's address comes from no pool here, the state has no lease at first, and no
  -- address stands twice in a pool.
  pub pretended-leased :
      (o : FsmOption) (ip a : ℕ) (b : Buffers) (s : Ipcp) (qs : List Pool)
      → IsIdle s
      → AllDistinct s.pools
      → IsAddr o ip
      → (ip == a) ≡ false
      → ippool_get s.pools i.self_ippool ≡ some (a, qs)
      → ((session i (decodes (o ∷ []) Mode.nak b ∷ []) s).pools ≡ ippool_free qs i.self_ippool ip)
        × IsIdle (session i (decodes (o ∷ []) Mode.nak b ∷ []) s)
        × (leased i.self_ippool a (session i (decodes (o ∷ []) Mode.nak b ∷ []) s).pools ≡ true)
  pretended-leased o ip a b s qs q d w n h =
      let (dq, free, after) = get-leased i.self_ippool s.pools qs a d h in
      let freed = session-IsFreed o ip a b s qs q w h in
      (
        freed.pools,
        freed.idle,
        rw (freed.pools, leased_other i.self_ippool ip a qs n, after a) (ground arith),
      )
