-- ===== src/Ipcp/Returned.antt =====
-- src/ipcp.c: the addresses that `IpcpConfigure` takes from the pools, and that `IpcpUnConfigure` gives back.
use mpdx.Common.{
  ℕ, Bool, true, false, not, ◌&&◌, Option, none, some, List, ◌≡◌, refl, ap, ◌∙◌, arith, ◌==◌,
  if◌then◌else◌, Bool-cases, inl, inr, no_bits,
}
use mpdx.Vars.{enabled}
use mpdx.Ip.{URange, u_addrempty}
use mpdx.Ippool.{Pool, ippool_get, ippool_free}
use mpdx.Ippool.Leases.{AllDistinct, free-get, get-leased}
use mpdx.Ippool.Commute.{ippool_free_comm}
use mpdx.Ippool.Nonzero.{NoZero, get-nonzero}
use mpdx.Ipcp.Types.{Ipcp, IpcpInfo, pretend_ip, in_addr_of}
use mpdx.Ipcp.Layer.{
  has_name, host, leased_self, leased_user, leased_peer, allow_self, allow_peer, ipcp_configure,
}
use mpdx.Ipcp.Leases.{IsLeased, Keeps, peer_leased}
use mpdx.Ipcp.Session.{Move, moves, session, give_back, given_back, freed-Keeps, moves-Keeps}

-- No address of a pool is leased.
pub record IsIdle (s : Ipcp) : Type 0 where
  pub self_used : s.self_ippool_used ≡ false
  pub user_used : s.user_ippool_used ≡ false
  pub used : s.ippool_used ≡ false

abbrev self_ip : Ipcp → ℕ
self_ip s = in_addr_of s.self_allow.addr

abbrev peer_ip : Ipcp → ℕ
peer_ip s = in_addr_of s.peer_allow.addr

module _ (i : IpcpInfo) (ps : List Pool) where
  -- The pools once the own address is given back.
  abbrev self_back : Bool → ℕ → List Pool → List Pool
  self_back b ip qs = if b then ippool_free qs i.self_ippool ip else qs

  record SelfTaken (s : Ipcp) : Type 0 where
    distinct : AllDistinct s.pools
    nonzero : NoZero s.pools
    back : self_back s.self_ippool_used (self_ip s) s.pools ≡ ps
    range : s.self_ippool_used ≡ true → s.self_allow ≡ host (self_ip s)
    given : s.self_ippool_used ≡ true → (self_ip s == 0) ≡ false
    user_used : s.user_ippool_used ≡ false
    used : s.ippool_used ≡ false

  record BothTaken (s : Ipcp) : Type 0 where
    back :
        give_back i s.self_ippool_used s.user_ippool_used s.ippool_used
          (self_ip s)
          (peer_ip s)
          s.pools
        ≡ ps
    self_range : s.self_ippool_used ≡ true → s.self_allow ≡ host (self_ip s)
    self_given : s.self_ippool_used ≡ true → (self_ip s == 0) ≡ false
    peer_range : peer_leased s ≡ true → s.peer_allow ≡ host (peer_ip s)
    peer_given : peer_leased s ≡ true → (peer_ip s == 0) ≡ false

  self_left :
      (s : Ipcp) → IsIdle s → AllDistinct s.pools → NoZero s.pools → s.pools ≡ ps → SelfTaken s
  self_left s q d z e = record {
    distinct = d;
    nonzero = z;
    back = rw q.self_used e;
    range = λ u. absurd (cc (u, q.self_used));
    given = λ u. absurd (cc (u, q.self_used));
    user_used = q.user_used;
    used = q.used;
  }

  leased_self-SelfTaken :
      (o : Option (ℕ × List Pool)) (s : Ipcp)
      → ippool_get s.pools i.self_ippool ≡ o
      → IsIdle s
      → AllDistinct s.pools
      → NoZero s.pools
      → s.pools ≡ ps
      → SelfTaken (leased_self o s)
  leased_self-SelfTaken none s h q d z e = self_left s q d z e
  leased_self-SelfTaken (some (ip, qs)) s h q d z e =
      let (dq, free, after) = get-leased i.self_ippool s.pools qs ip d h in
      let (given, zq) = get-nonzero i.self_ippool s.pools qs ip z h in
      record {
        distinct = dq;
        nonzero = zq;
        back = free-get i.self_ippool s.pools qs ip d h ∙ e;
        range = λ u. refl;
        given = λ u. given;
        user_used = q.user_used;
        used = q.used;
      }

  allow_self-SelfTaken :
      (s : Ipcp)
      → IsIdle s
      → AllDistinct s.pools
      → NoZero s.pools
      → s.pools ≡ ps
      → SelfTaken (allow_self i s)
  unfolding allow_self
  allow_self-SelfTaken s q d z e = elim (Bool-cases (has_name i.self_ippool)) [
    | inl n ↦ simp n (leased_self-SelfTaken (ippool_get s.pools i.self_ippool) s refl q d z e)
    | inr n ↦ simp n (
        self_left (record s { self_allow = i.self_range })
          (record { self_used = q.self_used; user_used = q.user_used; used = q.used }) d z e)
  ]

  -- An address that the peer gets, given back behind the own one.
  returned :
      (b : Bool) (name : List ℕ) (a ip : ℕ) (qs rs : List Pool)
      → AllDistinct qs
      → ippool_get qs name ≡ some (ip, rs)
      → ippool_free (self_back b a rs) name ip ≡ self_back b a qs
  returned true name a ip qs rs d h =
      ippool_free_comm i.self_ippool name a ip rs
      ∙ ap (λ ts. ippool_free ts i.self_ippool a) (free-get name qs rs ip d h)
  returned false name a ip qs rs d h = free-get name qs rs ip d h

  peer_left : (s : Ipcp) → SelfTaken s → BothTaken s
  peer_left s t = record {
    back = rw (t.user_used, t.used) t.back;
    self_range = t.range;
    self_given = t.given;
    peer_range = λ u. absurd (ground (arith, t.user_used, t.used));
    peer_given = λ u. absurd (ground (arith, t.user_used, t.used));
  }

  leased_user-BothTaken :
      (o : Option (ℕ × List Pool)) (s : Ipcp)
      → ippool_get s.pools i.user_ippool ≡ o
      → SelfTaken s
      → BothTaken (leased_user o s)
  leased_user-BothTaken none s h t = peer_left s t
  leased_user-BothTaken (some (ip, qs)) s h t = record {
    back =
        returned s.self_ippool_used i.user_ippool (self_ip s) ip s.pools qs t.distinct h ∙ t.back;
    self_range = t.range;
    self_given = t.given;
    peer_range = λ u. refl;
    peer_given = λ u. (get-nonzero i.user_ippool s.pools qs ip t.nonzero h).0;
  }

  leased_peer-BothTaken :
      (o : Option (ℕ × List Pool)) (s : Ipcp)
      → ippool_get s.pools i.ippool ≡ o
      → SelfTaken s
      → BothTaken (leased_peer o s)
  leased_peer-BothTaken none s h t = peer_left s t
  leased_peer-BothTaken (some (ip, qs)) s h t = record {
    back =
        rw t.user_used (returned s.self_ippool_used i.ippool (self_ip s) ip s.pools qs t.distinct h)
        ∙ t.back;
    self_range = t.range;
    self_given = t.given;
    peer_range = λ u. refl;
    peer_given = λ u. (get-nonzero i.ippool s.pools qs ip t.nonzero h).0;
  }

  BothTaken-if :
      {s t : Ipcp} (b : Bool) → BothTaken s → BothTaken t → BothTaken (if b then s else t)
  BothTaken-if true h k = h
  BothTaken-if false h k = k

  same_self :
      (s : Ipcp) (range : URange) → SelfTaken s → SelfTaken (record s { peer_allow = range })
  same_self s range t = record {
    distinct = t.distinct;
    nonzero = t.nonzero;
    back = t.back;
    range = t.range;
    given = t.given;
    user_used = t.user_used;
    used = t.used;
  }

  allow_peer-BothTaken : (s : Ipcp) → SelfTaken s → BothTaken (allow_peer i s)
  unfolding allow_peer
  allow_peer-BothTaken s t =
      BothTaken-if (i.range_valid && not (u_addrempty i.range.addr))
        (peer_left (record s { peer_allow = i.range }) (same_self s i.range t))
        (BothTaken-if (has_name i.user_ippool)
          (leased_user-BothTaken (ippool_get s.pools i.user_ippool) s refl t)
          (BothTaken-if (has_name i.ippool)
            (leased_peer-BothTaken (ippool_get s.pools i.ippool) s refl t)
            (peer_left (record s { peer_allow = i.peer_range }) (same_self s i.peer_range t))))

module _ (i : IpcpInfo) where
  configured :
      (s : Ipcp)
      → IsIdle s
      → AllDistinct s.pools
      → NoZero s.pools
      → BothTaken i s.pools (allow_peer i (allow_self i (record s { peer_reject = no_bits })))
  configured s q d z =
      let cleared = record s { peer_reject = no_bits } in
      allow_peer-BothTaken i s.pools (allow_self i cleared) (
        allow_self-SelfTaken i s.pools cleared
          (record { self_used = q.self_used; user_used = q.user_used; used = q.used }) d z refl)

  -- A session of IPCP gives back what it has taken: from `IpcpConfigure` with no address leased, over any
  -- negotiation, to `IpcpUnConfigure`, the pools are what they were. This holds where `pretend-ip` is off, no
  -- address stands twice in a pool, no pool has 0.0.0.0, and nobody else uses the pools in between.
  pub session-pools :
      (ms : List Move) (s : Ipcp)
      → enabled i.options pretend_ip ≡ false
      → IsIdle s
      → AllDistinct s.pools
      → NoZero s.pools
      → (session i ms s).pools ≡ s.pools
  unfolding ipcp_configure
  session-pools ms s plain q d z =
      let t = configured s q d z in
      let r = ipcp_configure i s in
      let l : IsLeased r = record {
        self_range = t.self_range;
        self_given = t.self_given;
        peer_range = t.peer_range;
        peer_given = t.peer_given;
      } in
      let here : Keeps r r = record {
        pools = refl;
        self_used = refl;
        user_used = refl;
        used = refl;
        self_allow = refl;
        peer_allow = refl;
        self_addr = λ u. refl;
        peer_addr = λ u. refl;
      } in
      freed-Keeps i r (moves i ms r) (moves-Keeps i r l plain ms r here) ∙ given_back i r ∙ t.back
