-- ===== src/Lcp/Request.antt =====
-- src/lcp.c: `LcpInit`, `LcpConfigure` and `LcpBuildConfigReq`. The two settings of the machine that
-- `LcpConfigure` makes are part of the machine's configuration.
use mpdx.Common.{
  ℕ, ◌+◌, Bool, true, false, not, ◌&&◌, Option, none, some, List, [], ◌∷◌, ◌++◌, ltb, ◌==◌,
  if◌then◌else◌, no_bits,
}
use mpdx.Vars.{Options, enabled, acceptable}
use mpdx.Fsm.Options.{ConfData, raw, net16, net32}
use mpdx.Fsm.Options.RoundTrip.{write_options}
use mpdx.Lcp.Types.{dead, AuthProto, LinkInfo, Lcp}

abbrev pub proto_pap : ℕ
proto_pap = 49187

abbrev pub proto_chap : ℕ
proto_chap = 49699

abbrev pub proto_eap : ℕ
proto_eap = 49703

-- The five rows of `gLcpAuthProtos`.
abbrev pub pap : AuthProto
pap = record { proto = proto_pap; alg = 0; conf = 0 }

abbrev pub chap_md5 : AuthProto
chap_md5 = record { proto = proto_chap; alg = 5; conf = 1 }

abbrev pub chap_ms_v1 : AuthProto
chap_ms_v1 = record { proto = proto_chap; alg = 128; conf = 2 }

abbrev pub chap_ms_v2 : AuthProto
chap_ms_v2 = record { proto = proto_chap; alg = 129; conf = 3 }

abbrev pub eap : AuthProto
eap = record { proto = proto_eap; alg = 0; conf = 4 }

abbrev pub auth_protos : List AuthProto
auth_protos = pap ∷ chap_md5 ∷ chap_ms_v1 ∷ chap_ms_v2 ∷ eap ∷ []

-- The order in which `LcpConfigure` lists them.
abbrev pub by_strength : List AuthProto
by_strength = chap_ms_v2 ∷ chap_ms_v1 ∷ chap_md5 ∷ pap ∷ eap ∷ []

-- `LcpInit`: the machine is that of `fsm_init` with an echo interval of 5 and a limit of 40 seconds.
unfoldable pub lcp_init : Lcp
lcp_init = record {
  phase = dead;
  peer_protos = none ∷ none ∷ none ∷ none ∷ none ∷ [];
  peer_accmap = 0;
  peer_magic = 0;
  peer_mru = 0;
  peer_auth = 0;
  peer_mrru = 0;
  peer_alg = 0;
  want_alg = 0;
  want_protos = none ∷ none ∷ none ∷ none ∷ none ∷ [];
  want_accmap = 0;
  want_magic = 0;
  want_mru = 0;
  want_auth = 0;
  want_mrru = 0;
  want_protocomp = false;
  want_acfcomp = false;
  want_shortseq = false;
  want_callback = false;
  peer_protocomp = false;
  peer_acfcomp = false;
  peer_shortseq = false;
  peer_discrim = record { class = 0; bytes = [] };
  peer_ident = [];
  peer_reject = no_bits;
  need_reset = false;
  in_bundle = false;
  drawn = 0;
  calls = [];
  aborted = false;
}

-- The protocols that the peer may ask for, with NULL for a denied one.
unfoldable pub acceptable_protos : Options → List AuthProto → List (Option AuthProto)
acceptable_protos o [] = []
acceptable_protos o (p ∷ ps) =
    (if acceptable o p.conf then some p else none) ∷ acceptable_protos o ps

-- The loop of `LcpConfigure` over `want_protos` where `want_auth` and `want_alg` are `auth` and `alg`:
-- the list that it leaves, and the protocol to request.
unfoldable pub choose_auth : Options → ℕ → ℕ → List AuthProto → List (Option AuthProto) × ℕ × ℕ
choose_auth o auth alg [] = ([], auth, alg)
choose_auth o auth alg (p ∷ ps) =
    let (taken, first, first_alg) = choose_auth o p.proto p.alg ps in
    let (left, old, old_alg) = choose_auth o auth alg ps in
    if enabled o p.conf && auth == 0
    then (none ∷ taken, first, first_alg)
    else ((if enabled o p.conf then some p else none) ∷ left, old, old_alg)

abbrev pub min_of : ℕ → ℕ → ℕ
min_of a b = if ltb b a then b else a

module _ (l : LinkInfo) where
  -- `LcpConfigure`.
  unfoldable pub lcp_configure : Lcp → Lcp
  unfolding acceptable_protos choose_auth
  lcp_configure lcp =
      let on = λ (k : ℕ). enabled l.options k in
      let (protos, auth, alg) = choose_auth l.options 0 0 by_strength in
      record lcp {
        peer_reject = no_bits;
        need_reset = false;
        peer_mru = l.phys_mtu;
        want_mru = if l.has_type then min_of l.phys_mru l.phys_type_mru else l.phys_mru;
        peer_accmap = 4294967295;
        want_accmap = l.accmap;
        peer_acfcomp = false;
        want_acfcomp = on 6;
        peer_protocomp = false;
        want_protocomp = on 7;
        peer_magic = 0;
        want_magic = if on 9 then l.magics lcp.drawn else 0;
        drawn = if on 9 then lcp.drawn + 1 else lcp.drawn;
        want_callback = l.originates && on 14;
        peer_auth = 0;
        want_auth = auth;
        peer_alg = 0;
        want_alg = alg;
        peer_ident = [];
        want_protos = protos;
        peer_protos = acceptable_protos l.options by_strength;
        peer_mrru = 0;
        peer_shortseq = false;
        want_mrru = if on 15 then l.mrru else 0;
        want_shortseq = on 15 && on 16;
        peer_discrim = record { class = 0; bytes = [] };
      }

-- An option of a request, by its number and contents, under a condition.
abbrev pub option_if : Bool → ℕ → ConfData → List (ℕ × ConfData)
option_if true type v = (type, v) ∷ []
option_if false type v = []

-- The request for an authentication protocol.
unfoldable pub auth_option : ℕ → ℕ → List (ℕ × ConfData)
auth_option auth alg =
    if auth == proto_pap
    then (3, net16 auth) ∷ []
    else if auth == proto_eap
    then (3, net16 auth) ∷ []
    else if auth == proto_chap
    then (3, raw (194 ∷ 35 ∷ alg ∷ [])) ∷ []
    else []

module _ (l : LinkInfo) where
  -- The options of the request that concern a multi-link bundle.
  unfoldable pub bundle_options : Lcp → List (ℕ × ConfData)
  bundle_options lcp =
      let may = λ (k : ℕ). not (lcp.peer_reject k) in
      if enabled l.options 15 && may 17
      then (17, net16 lcp.want_mrru) ∷ option_if (lcp.want_shortseq && may 18) 18 (raw [])
        ++ option_if (may 19) 19 (raw (l.self_discrim.class ∷ l.self_discrim.bytes))
      else []

  unfoldable pub request_options : Lcp → List (ℕ × ConfData)
  unfolding auth_option bundle_options
  request_options lcp =
      let may = λ (k : ℕ). not (lcp.peer_reject k) in
      option_if (lcp.want_acfcomp && may 8) 8 (raw [])
      ++ option_if (lcp.want_protocomp && may 7) 7 (raw [])
      ++ option_if (not l.is_sync && may 2) 2 (net32 lcp.want_accmap)
      ++ option_if (may 1) 1 (net16 lcp.want_mru)
      ++ option_if (not (lcp.want_magic == 0) && may 5) 5 (net32 lcp.want_magic)
      ++ option_if (lcp.want_callback && may 13) 13 (raw (0 ∷ []))
      ++ auth_option lcp.want_auth lcp.want_alg
      ++ bundle_options lcp

  -- `LcpBuildConfigReq`.
  unfoldable pub lcp_build_config_req : Lcp → List ℕ × Lcp
  unfolding request_options write_options
  lcp_build_config_req lcp = (write_options (request_options lcp), lcp)
