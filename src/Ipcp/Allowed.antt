-- ===== src/Ipcp/Allowed.antt =====
-- src/ipcp.c: the addresses that a link uses once IPCP is up.
use mpdx.Common.{ℕ, true, not, ◌&&◌, ◌||◌, ◌≡◌, refl, sym, ap, ◌∙◌, arith, Bool-cases, inl, inr}
use mpdx.Ip.{UAddr, unspec, ip4, u_addrempty, ip_addr_in_range}
use mpdx.Ipcp.Types.{Ipcp, IpcpInfo, in_addr_of}
use mpdx.Ipcp.Layer.{settle_self, settle_peer, is_vj, start_vj, ipcp_layer_up}

-- A range of IPv4 addresses, or none.
pub data IsIp4 : UAddr → Type 0 where
  is_unspec : IsIp4 unspec
  is_ip4 : (n : ℕ) → IsIp4 (ip4 n)

module _ (f : ℕ → ℕ → ℕ) where
  -- A range has its own address.
  own_address :
      (addr : UAddr) (width : ℕ)
      → IsIp4 addr
      → ip_addr_in_range f (record { addr = addr; width = width }) (ip4 (in_addr_of addr)) ≡ true
  unfolding ip_addr_in_range u_addrempty
  own_address _ width is_unspec = refl
  own_address _ width (is_ip4 n) = ground arith

module _ (i : IpcpInfo) where
  self_settled :
      (s : Ipcp)
      → IsIp4 s.self_allow.addr
      → ip_addr_in_range i.overlong s.self_allow (ip4 (settle_self i s).want_addr) ≡ true
  unfolding settle_self
  self_settled s h =
      elim (Bool-cases (ip_addr_in_range i.overlong s.self_allow (ip4 s.want_addr))) [
        | inl e ↦ rw e e
        | inr e ↦ rw e (own_address i.overlong s.self_allow.addr s.self_allow.width h)
      ]

  peer_settled :
      (s : Ipcp)
      → IsIp4 s.peer_allow.addr
      → ip_addr_in_range i.overlong s.peer_allow (ip4 (settle_peer i s).peer_addr) ≡ true
  unfolding settle_peer
  peer_settled s h =
      elim (Bool-cases (ip_addr_in_range i.overlong s.peer_allow (ip4 s.peer_addr))) [
        | inl e ↦ rw e e
        | inr e ↦ elim (Bool-cases (u_addrempty s.peer_allow.addr)) [
          | inl n ↦ rw (e, n) refl
          | inr n ↦
              let replaced : settle_peer i s
                  ≡ record s { peer_addr = in_addr_of s.peer_allow.addr } =
                rw (e, n) refl in
              ap (λ t. ip_addr_in_range i.overlong s.peer_allow (ip4 t.peer_addr)) replaced
              ∙ own_address i.overlong s.peer_allow.addr s.peer_allow.width h
        ]
      ]

  started_addrs :
      (s : Ipcp)
      → ((start_vj i s).want_addr ≡ s.want_addr) × ((start_vj i s).peer_addr ≡ s.peer_addr)
  unfolding start_vj
  started_addrs s = elim (Bool-cases (is_vj i s.peer_comp || is_vj i s.want_comp)) [
    | inl e ↦ rw e (refl, refl)
    | inr e ↦ rw e (refl, refl)
  ]

  settle_peer-want_addr : (s : Ipcp) → (settle_peer i s).want_addr ≡ s.want_addr
  unfolding settle_peer
  settle_peer-want_addr s =
      let out =
        not (ip_addr_in_range i.overlong s.peer_allow (ip4 s.peer_addr))
        && not (u_addrempty s.peer_allow.addr) in
      elim (Bool-cases out) [ inl e ↦ rw e refl | inr e ↦ rw e refl ]

  settle_self-peer : (s : Ipcp) → (settle_self i s).peer_allow ≡ s.peer_allow
  unfolding settle_self
  settle_self-peer s =
      elim (Bool-cases (ip_addr_in_range i.overlong s.self_allow (ip4 s.want_addr))) [
        | inl e ↦ rw e refl
        | inr e ↦ rw e refl
      ]

  -- Once IPCP is up, after any negotiation and with `pretend-ip` too, both addresses are in the ranges that are
  -- allowed for them, where these ranges are of IPv4 or empty.
  pub layer_up-allowed :
      (s : Ipcp)
      → IsIp4 s.self_allow.addr
      → IsIp4 s.peer_allow.addr
      → (ip_addr_in_range i.overlong s.self_allow (ip4 (ipcp_layer_up i s).want_addr) ≡ true)
        × (ip_addr_in_range i.overlong s.peer_allow (ip4 (ipcp_layer_up i s).peer_addr) ≡ true)
  unfolding ipcp_layer_up
  layer_up-allowed s h k =
      let own = settle_self i s in
      let both = settle_peer i own in
      let same = settle_self-peer s in
      let allowed : IsIp4 own.peer_allow.addr = rw same k in
      (
        ap (λ ip. ip_addr_in_range i.overlong s.self_allow (ip4 ip))
              ((started_addrs both).0 ∙ settle_peer-want_addr own)
            ∙ self_settled s h,
        ap (λ ip. ip_addr_in_range i.overlong s.peer_allow (ip4 ip)) (started_addrs both).1
            ∙ ap (λ range. ip_addr_in_range i.overlong range (ip4 both.peer_addr)) (sym same)
            ∙ peer_settled own allowed,
      )
