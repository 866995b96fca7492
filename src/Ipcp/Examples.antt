-- ===== src/Ipcp/Examples.antt =====
-- A bundle with two pools, for the lemmas of src/ipcp.c.
use mpdx.Common.{ℕ, Bool, true, false, List, [], ◌∷◌, ◌≡◌, refl, no_bits}
use mpdx.Ip.{unspec, ip4, ip_addr_in_range}
use mpdx.Fsm.Types.{Mode, FsmOption, Buffers}
use mpdx.Ippool.{IpRec, Pool, ippool_free, ippool_get, holds, same_name}
use mpdx.Ippool.Leases.{leased}
use mpdx.Ipcp.Types.{Ipcp, IpcpInfo, no_servers, ipcp_init}
use mpdx.Ipcp.Layer.{ipcp_configure, ipcp_layer_up}
use mpdx.Ipcp.Allowed.{is_ip4, layer_up-allowed}
use mpdx.Ipcp.Session.{Move, decodes, comes_up, goes_down, builds, session}
use mpdx.Ipcp.Returned.{IsIdle, session-pools}
use mpdx.Ipcp.Pretend.{IsPretending, pretended-leased}

abbrev own_pool : List ℕ
own_pool = 111 ∷ []

abbrev peer_pool : List ℕ
peer_pool = 112 ∷ []

abbrev free_ip : ℕ → IpRec
free_ip ip = record { ip = ip; used = false }

abbrev two_pools : List Pool
two_pools =
    record { name = own_pool; pool = free_ip 3232235521 ∷ [] }
    ∷ record { name = peer_pool; pool = free_ip 167772161 ∷ free_ip 167772162 ∷ [] }
    ∷ []

abbrev info : Bool → List ℕ → IpcpInfo
info pretends peers = record {
  options = record { enable = λ k. pretends; accept = no_bits };
  self_range = record { addr = unspec; width = 0 };
  peer_range = record { addr = unspec; width = 0 };
  self_ippool = own_pool;
  ippool = peers;
  servers = no_servers;
  range_valid = false;
  range = record { addr = unspec; width = 0 };
  user_ippool = [];
  user_servers = no_servers;
  vjc_enable = false;
  min_channels = 4;
  max_channels = 16;
  overlong = λ w b. b;
  retry_timeout = 2;
  has_bundle = true;
  stack = [];
}

abbrev no_replies : Buffers
no_replies = record { acks = []; naks = []; rejs = [] }

-- An address of 0.0.0.0 in a request, and another address in a Nak.
abbrev asks_any : FsmOption
asks_any = record { type = 3; len = 6; bytes = 0 ∷ 0 ∷ 0 ∷ 0 ∷ [] }

abbrev names_other : FsmOption
names_other = record { type = 3; len = 6; bytes = 172 ∷ 16 ∷ 0 ∷ 1 ∷ [] }

abbrev negotiation : List Move
negotiation =
    builds
    ∷ decodes (asks_any ∷ []) Mode.req no_replies
    ∷ decodes (names_other ∷ []) Mode.nak no_replies
    ∷ comes_up
    ∷ goes_down
    ∷ []

init-IsIdle : IsIdle (ipcp_init two_pools)
init-IsIdle = record { self_used = refl; user_used = refl; used = refl }

-- The negotiation does take addresses.
takes_both :
    leased own_pool 3232235521 (ipcp_configure (info false peer_pool) (ipcp_init two_pools)).pools
    ≡ true
unfolding ipcp_configure leased ippool_get same_name mpdx.Ippool.Leases.uses
takes_both = refl

session-pools_example :
    (session (info false peer_pool) negotiation (ipcp_init two_pools)).pools ≡ two_pools
unfolding holds
session-pools_example =
    session-pools (info false peer_pool) negotiation (ipcp_init two_pools) refl init-IsIdle
      ((refl, tt), ((refl, (refl, tt)), tt)) (refl, (refl, tt))

info-IsPretending : IsPretending (info true [])
info-IsPretending = record {
  pretends = refl;
  own_pool = refl;
  no_range = refl;
  no_user_pool = refl;
  no_peer_pool = refl;
}

-- `two_pools` with the own address leased.
abbrev own_leased : List Pool
own_leased =
    record { name = own_pool; pool = record { ip = 3232235521; used = true } ∷ [] }
    ∷ record { name = peer_pool; pool = free_ip 167772161 ∷ free_ip 167772162 ∷ [] }
    ∷ []

-- A session that ends after the Configure-Nak.
abbrev naked : Ipcp
naked =
    session (info true []) (decodes (names_other ∷ []) Mode.nak no_replies ∷ [])
      (ipcp_init two_pools)

pretended-leased_example :
    (naked.pools ≡ ippool_free own_leased own_pool 2886729729)
    × IsIdle naked
    × (leased own_pool 3232235521 naked.pools ≡ true)
unfolding holds ippool_get same_name
pretended-leased_example =
    pretended-leased (info true []) info-IsPretending names_other 2886729729 3232235521 no_replies
      (ipcp_init two_pools) own_leased init-IsIdle ((refl, tt), ((refl, (refl, tt)), tt))
      (record { type = refl; len = refl; bytes = refl }) refl refl

-- Both sides have pretended to agree to other addresses.
abbrev pretended : Ipcp
pretended = record (ipcp_init two_pools) {
  want_addr = 2886729729;
  peer_addr = 2886729730;
  self_allow = record { addr = ip4 3232235521; width = 32 };
  peer_allow = record { addr = ip4 167772161; width = 24 };
}

layer_up-allowed_example :
    (ip_addr_in_range
        (λ w b. b)
        pretended.self_allow
        (ip4 (ipcp_layer_up (info true []) pretended).want_addr)
      ≡ true)
    × (ip_addr_in_range
          (λ w b. b)
          pretended.peer_allow
          (ip4 (ipcp_layer_up (info true []) pretended).peer_addr)
        ≡ true)
layer_up-allowed_example =
    layer_up-allowed (info true []) pretended (is_ip4 3232235521) (is_ip4 167772161)
