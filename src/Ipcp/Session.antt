-- ===== src/Ipcp/Session.antt =====
-- src/ipcp.c: a session of IPCP, from `IpcpConfigure` to `IpcpUnConfigure`.
use mpdx.Common.{
  ℕ, Bool, true, false, ◌||◌, List, [], ◌∷◌, ◌≡◌, refl, sym, ◌∙◌, arith, if◌then◌else◌, Bool-cases,
  inl, inr,
}
use mpdx.Vars.{enabled}
use mpdx.Fsm.Types.{Mode, FsmFail, FsmOption, Buffers}
use mpdx.Ippool.{Pool, ippool_free}
use mpdx.Ipcp.Types.{Ipcp, IpcpInfo, ip_start, ip_finish, ip_failed, pretend_ip}
use mpdx.Ipcp.Layer.{
  call, ipcp_configure, ipcp_un_configure, ipcp_build_config_req, ipcp_layer_up, ipcp_layer_down,
}
use mpdx.Ipcp.Decode.{ipcp_decode_config}
use mpdx.Ipcp.Leases.{IsLeased, Keeps}
use mpdx.Ipcp.Keeping.{kept_call, decode_config-Keeps, layer_up-Keeps, layer_down-Keeps}

-- What the machine asks of the layer between the two.
pub data Move : Type 0 where
  decodes : List FsmOption → Mode → Buffers → Move
  builds comes_up goes_down starts finishes : Move
  fails : FsmFail → Move

module _ (i : IpcpInfo) where
  abbrev pub do_move : Move → Ipcp → Ipcp
  do_move (decodes os mode b) s = (ipcp_decode_config i os mode b s).1
  do_move builds s = (ipcp_build_config_req i s).1
  do_move comes_up s = ipcp_layer_up i s
  do_move goes_down s = ipcp_layer_down i s
  do_move starts s = call ip_start s
  do_move finishes s = call ip_finish s
  do_move (fails why) s = call (ip_failed why) s

  abbrev pub moves : List Move → Ipcp → Ipcp
  moves [] s = s
  moves (m ∷ ms) s = moves ms (do_move m s)

  -- `IpcpConfigure`, a negotiation, `IpcpUnConfigure`.
  abbrev pub session : List Move → Ipcp → Ipcp
  session ms s = ipcp_un_configure i (moves ms (ipcp_configure i s))

  module _ (r : Ipcp) (l : IsLeased r) (plain : enabled i.options pretend_ip ≡ false) where
    do_move-Keeps : (m : Move) (s : Ipcp) → Keeps r s → Keeps r (do_move m s)
    unfolding ipcp_build_config_req
    do_move-Keeps (decodes os mode b) s k = decode_config-Keeps i r l plain os mode b s k
    do_move-Keeps builds s k = k
    do_move-Keeps comes_up s k = layer_up-Keeps i r l plain s k
    do_move-Keeps goes_down s k = layer_down-Keeps i s k
    do_move-Keeps starts s k = kept_call i ip_start s k
    do_move-Keeps finishes s k = kept_call i ip_finish s k
    do_move-Keeps (fails why) s k = kept_call i (ip_failed why) s k

    pub moves-Keeps : (ms : List Move) (s : Ipcp) → Keeps r s → Keeps r (moves ms s)
    moves-Keeps [] s k = k
    moves-Keeps (m ∷ ms) s k = moves-Keeps ms (do_move m s) (do_move-Keeps m s k)

  -- What `IpcpUnConfigure` makes of the pools, by the leases and the addresses.
  abbrev pub give_back : Bool → Bool → Bool → ℕ → ℕ → List Pool → List Pool
  give_back self user own want peer ps =
      let qs = if self then ippool_free ps i.self_ippool want else ps in
      if user
      then ippool_free qs i.user_ippool peer
      else if own
      then ippool_free qs i.ippool peer
      else qs

  pub given_back :
      (s : Ipcp)
      → (ipcp_un_configure i s).pools
        ≡ give_back s.self_ippool_used s.user_ippool_used s.ippool_used s.want_addr s.peer_addr
            s.pools
  unfolding ipcp_un_configure
  given_back s = ground arith

  give_back-same :
      (self user own : Bool) (want want' peer peer' : ℕ) (ps : List Pool)
      → (self ≡ true → want' ≡ want)
      → ((user || own) ≡ true → peer' ≡ peer)
      → give_back self user own want' peer' ps ≡ give_back self user own want peer ps
  give_back-same self user own want want' peer peer' ps h k = elim (Bool-cases self) [
    | inl e ↦ elim (Bool-cases (user || own)) [
      | inl f ↦ rw (h e, k f) refl
      | inr f ↦ ground (arith, h e)
    ]
    | inr e ↦ elim (Bool-cases (user || own)) [ inl f ↦ ground (arith, k f) | inr f ↦ ground arith ]
  ]

  -- What is kept is given back alike.
  pub freed-Keeps :
      (r s : Ipcp) → Keeps r s → (ipcp_un_configure i s).pools ≡ (ipcp_un_configure i r).pools
  freed-Keeps r s k =
      given_back s
      ∙ rw (k.self_used, k.user_used, k.used, k.pools)
          (give_back-same r.self_ippool_used r.user_ippool_used r.ippool_used r.want_addr
            s.want_addr r.peer_addr s.peer_addr r.pools k.self_addr k.peer_addr)
      ∙ sym (given_back r)
