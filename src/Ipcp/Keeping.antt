-- ===== src/Ipcp/Keeping.antt =====
-- src/ipcp.c: the calls of the layer between `IpcpConfigure` and `IpcpUnConfigure`, which keep its leases.
use mpdx.Common.{
  ℕ, Bool, true, false, not, ◌&&◌, List, [], ◌∷◌, ◌≡◌, refl, arith, ◌==◌, if◌then◌else◌, Mask,
}
use mpdx.Vars.{enabled}
use mpdx.Ip.{ip4, u_addrempty, ip_addr_in_range}
use mpdx.Fsm.Types.{Mode, req, nak, rej, nop, FsmOption, Buffers}
use mpdx.Ipcp.Types.{VjComp, Servers, IpcpCall, Ipcp, IpcpInfo, pretend_ip, in_addr_of}
use mpdx.Ipcp.Layer.{call, settle_self, settle_peer, start_vj, ipcp_layer_up, ipcp_layer_down}
use mpdx.Ipcp.Decode.{
  decode_addr, request_vj, nak_vj, decode_vj, decode_server, decode_sized, refuse_in, or_own,
  decode_option, ipcp_decode_config,
}
use mpdx.Ipcp.Leases.{IsLeased, Keeps, with_peer, with_want, request_addr-Keeps, nak_addr-Keeps}

-- What is kept does not depend on the rest of the state.
Keeps-rest :
    {r : Ipcp} (s : Ipcp) (p w : VjComp) (v : Servers) (m : Mask) (c : List IpcpCall)
    → Keeps r s
    → Keeps r
        (record s { peer_comp = p; want_comp = w; want_servers = v; peer_reject = m; calls = c })
Keeps-rest s p w v m c k = record {
  pools = k.pools;
  self_used = k.self_used;
  user_used = k.user_used;
  used = k.used;
  self_allow = k.self_allow;
  peer_allow = k.peer_allow;
  self_addr = k.self_addr;
  peer_addr = k.peer_addr;
}

Keeps-if : {r s t : Ipcp} (b : Bool) → Keeps r s → Keeps r t → Keeps r (if b then s else t)
Keeps-if true h k = h
Keeps-if false h k = k

-- A change of the rest of the state only.
Keeps-only :
    {r : Ipcp} (s t : Ipcp)
    → t ≡ record s {
      peer_comp = t.peer_comp;
      want_comp = t.want_comp;
      want_servers = t.want_servers;
      peer_reject = t.peer_reject;
      calls = t.calls;
    }
    → Keeps r s
    → Keeps r t
Keeps-only {r} s t e k =
    rw e (Keeps-rest s t.peer_comp t.want_comp t.want_servers t.peer_reject t.calls k)

-- The state behind the replies.
record KeepsReply (r : Ipcp) (x : Buffers × Ipcp) : Type 0 where
  kept : Keeps r x.1

Keeps-if_reply :
    {r : Ipcp} {x y : Buffers × Ipcp} (b : Bool)
    → KeepsReply r x
    → KeepsReply r y
    → KeepsReply r (if b then x else y)
Keeps-if_reply true h k = h
Keeps-if_reply false h k = k

module _ (i : IpcpInfo) {r : Ipcp} where
  pub kept_call : (c : IpcpCall) (s : Ipcp) → Keeps r s → Keeps r (call c s)
  kept_call c s k =
      Keeps-rest s s.peer_comp s.want_comp s.want_servers s.peer_reject (c ∷ s.calls) k

  decode_vj-Keeps :
      (mode : Mode) (o : FsmOption) (b : Buffers) (s : Ipcp)
      → Keeps r s
      → KeepsReply r (decode_vj i mode o b s)
  unfolding decode_vj request_vj nak_vj
  decode_vj-Keeps req o b s k = record { kept = Keeps-only s _ (ground arith) k }
  decode_vj-Keeps nak o b s k = record { kept = Keeps-only s _ (ground arith) k }
  decode_vj-Keeps rej o b s k = record { kept = Keeps-only s _ refl k }
  decode_vj-Keeps nop o b s k = record { kept = k }

  decode_server-Keeps :
      (ours : ℕ) (keep : ℕ → Servers → Servers) (mode : Mode) (o : FsmOption) (b : Buffers)
      (s : Ipcp)
      → Keeps r s
      → KeepsReply r (decode_server i ours keep mode o b s)
  unfolding decode_server
  decode_server-Keeps ours keep req o b s k = record { kept = Keeps-only s _ (ground arith) k }
  decode_server-Keeps ours keep nak o b s k = record { kept = Keeps-only s _ refl k }
  decode_server-Keeps ours keep rej o b s k = record { kept = Keeps-only s _ refl k }
  decode_server-Keeps ours keep nop o b s k = record { kept = k }

  start_vj-Keeps : (s : Ipcp) → Keeps r s → Keeps r (start_vj i s)
  unfolding start_vj
  start_vj-Keeps s k = Keeps-only s (start_vj i s) (ground arith) k

  pub layer_down-Keeps : (s : Ipcp) → Keeps r s → Keeps r (ipcp_layer_down i s)
  unfolding ipcp_layer_down
  layer_down-Keeps s k = Keeps-only s (ipcp_layer_down i s) (ground arith) k

  refuse_in-Keeps :
      (mode : Mode) (o : FsmOption) (b : Buffers) (s : Ipcp)
      → Keeps r s
      → KeepsReply r (refuse_in i mode o b s)
  refuse_in-Keeps req o b s k = record { kept = k }
  refuse_in-Keeps nak o b s k = record { kept = k }
  refuse_in-Keeps rej o b s k = record { kept = k }
  refuse_in-Keeps nop o b s k = record { kept = k }

module _ (i : IpcpInfo) (r : Ipcp) (l : IsLeased r)
    (plain : enabled i.options pretend_ip ≡ false) where
  decode_addr-Keeps :
      (mode : Mode) (o : FsmOption) (b : Buffers) (s : Ipcp)
      → Keeps r s
      → KeepsReply r (decode_addr i mode o b s)
  unfolding decode_addr
  decode_addr-Keeps req o b s k = record { kept = request_addr-Keeps i r l plain _ o b s k }
  decode_addr-Keeps nak o b s k = record { kept = nak_addr-Keeps i r l plain _ s k }
  decode_addr-Keeps rej o b s k = record { kept = Keeps-only s _ refl k }
  decode_addr-Keeps nop o b s k = record { kept = k }

  decode_option-Keeps :
      (mode : Mode) (o : FsmOption) (b : Buffers) (s : Ipcp)
      → Keeps r s
      → KeepsReply r (decode_option i mode o b s)
  unfolding decode_option decode_sized
  decode_option-Keeps mode o b s k =
      let refused = refuse_in-Keeps i mode o b s k in
      let server =
        λ (ours : ℕ) (keep : ℕ → Servers → Servers). decode_server-Keeps i ours keep mode o b s k in
      Keeps-if_reply (o.len == 6)
        (Keeps-if_reply (o.type == 3) (decode_addr-Keeps mode o b s k) (
          Keeps-if_reply (o.type == 2) (decode_vj-Keeps i mode o b s k) (
            Keeps-if_reply (o.type == 129)
              (server (or_own i i.user_servers.dns i.servers.dns) (λ ip v. record v { dns = ip }))
              (Keeps-if_reply (o.type == 130)
                (server (or_own i i.user_servers.nbns i.servers.nbns)
                  (λ ip v. record v { nbns = ip }))
                (Keeps-if_reply (o.type == 131)
                  (server (or_own i i.user_servers.dns2 i.servers.dns2)
                    (λ ip v. record v { dns2 = ip }))
                  (Keeps-if_reply (o.type == 132)
                    (server (or_own i i.user_servers.nbns2 i.servers.nbns2)
                      (λ ip v. record v { nbns2 = ip }))
                    refused))))))
        refused

  pub decode_config-Keeps :
      (os : List FsmOption) (mode : Mode) (b : Buffers) (s : Ipcp)
      → Keeps r s
      → Keeps r (ipcp_decode_config i os mode b s).1
  unfolding ipcp_decode_config
  decode_config-Keeps [] mode b s k = k
  decode_config-Keeps (o ∷ os) mode b s k =
      decode_config-Keeps os mode (decode_option i mode o b s).0 (decode_option i mode o b s).1
        (decode_option-Keeps mode o b s k).kept

  -- A leased address is in its range, so that `IpcpLayerUp` replaces none.
  settle_self-Keeps : (s : Ipcp) → Keeps r s → Keeps r (settle_self i s)
  unfolding settle_self
  settle_self-Keeps s k = Keeps-if (ip_addr_in_range i.overlong s.self_allow (ip4 s.want_addr)) k (
      with_want i r l plain s (in_addr_of s.self_allow.addr) k
        (λ u. rw (k.self_allow, l.self_range u) refl))

  settle_peer-Keeps : (s : Ipcp) → Keeps r s → Keeps r (settle_peer i s)
  unfolding settle_peer
  settle_peer-Keeps s k =
      Keeps-if
        (not (ip_addr_in_range i.overlong s.peer_allow (ip4 s.peer_addr))
          && not (u_addrempty s.peer_allow.addr))
        (with_peer i r l plain s (in_addr_of s.peer_allow.addr) k
          (λ u. rw (k.peer_allow, l.peer_range u) refl))
        k

  pub layer_up-Keeps : (s : Ipcp) → Keeps r s → Keeps r (ipcp_layer_up i s)
  unfolding ipcp_layer_up
  layer_up-Keeps s k =
      kept_call i _ _
        (kept_call i _ _ (start_vj-Keeps i _ (settle_peer-Keeps _ (settle_self-Keeps s k))))
