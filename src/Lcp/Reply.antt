-- ===== src/Lcp/Reply.antt =====
-- src/lcp.c: the tables of options and of authentication protocols, the searches in them, and the
-- replies that `LcpDecodeConfig` gives to an option.
use mpdx.Common.{
  ℕ, zero, suc, Bool, true, false, not, ◌&&◌, ◌||◌, Option, none, some, List, [], ◌∷◌, ◌++◌, ◌==◌,
  if◌then◌else◌, drop, get_or, set_bit, clear_bit,
}
use mpdx.Fsm.Types.{FsmOption, Buffers}
use mpdx.Fsm.Options.{FsmOptInfo, fsm_ack, fsm_nak, fsm_rej}
use mpdx.Lcp.Types.{AuthProto, Lcp}
use mpdx.Lcp.Request.{proto_pap, proto_chap, proto_eap, auth_protos}

abbrev pub row : ℕ → ℕ → ℕ → FsmOptInfo
row type min_len max_len = record {
  type = type;
  min_len = min_len;
  max_len = max_len;
  supported = true;
}

abbrev pub unsupported : ℕ → FsmOptInfo
unsupported type = record { type = type; min_len = 0; max_len = 0; supported = false }

-- `gLcpConfOpts`.
abbrev pub conf_opts : List FsmOptInfo
conf_opts =
    row 0 4 255
    ∷ row 1 2 2
    ∷ row 2 4 4
    ∷ row 3 2 255
    ∷ unsupported 4
    ∷ row 5 4 4
    ∷ unsupported 6
    ∷ row 7 0 0
    ∷ row 8 0 0
    ∷ unsupported 9
    ∷ unsupported 10
    ∷ unsupported 11
    ∷ unsupported 12
    ∷ row 13 1 255
    ∷ unsupported 14
    ∷ unsupported 15
    ∷ unsupported 16
    ∷ row 17 2 2
    ∷ row 18 0 0
    ∷ row 19 1 255
    ∷ unsupported 20
    ∷ unsupported 21
    ∷ unsupported 22
    ∷ unsupported 23
    ∷ unsupported 24
    ∷ unsupported 25
    ∷ unsupported 26
    ∷ unsupported 27
    ∷ unsupported 28
    ∷ unsupported 29
    ∷ []

-- The call that a case ends with: `FsmAck`, `FsmNak` with the option changed, `FsmRej`, or none.
pub data Reply : Type 0 where
  ack_it rej_it no_reply : Reply
  nak_it : FsmOption → Reply

unfoldable pub reply : Reply → FsmOption → Buffers → Buffers
reply ack_it o b = fsm_ack o b
reply rej_it o b = fsm_rej o b
reply no_reply o b = b
reply (nak_it changed) o b = fsm_nak changed b

-- `LCP_PEER_REJ` and `LCP_PEER_UNREJ`.
unfoldable pub peer_rej : ℕ → Lcp → Lcp
peer_rej type lcp = record lcp { peer_reject = set_bit type lcp.peer_reject }

unfoldable pub peer_unrej : ℕ → Lcp → Lcp
peer_unrej type lcp = record lcp { peer_reject = clear_bit type lcp.peer_reject }

abbrev pub lcp_min_mru : ℕ
lcp_min_mru = 296

-- An option with its first bytes replaced.
abbrev pub rewrite_option : List ℕ → ℕ → FsmOption → FsmOption
rewrite_option bytes n o = record o { bytes = bytes ++ drop n o.bytes }

abbrev chap_nak : ℕ → FsmOption
chap_nak alg = record { type = 3; len = 5; bytes = 194 ∷ 35 ∷ alg ∷ [] }

-- `LcpAuthProtoNak`.
unfoldable pub auth_proto_nak : ℕ → ℕ → Option FsmOption
auth_proto_nak proto alg =
    if proto == proto_pap
    then some (record { type = 3; len = 4; bytes = 192 ∷ 35 ∷ [] })
    else if proto == proto_eap
    then some (record { type = 3; len = 4; bytes = 194 ∷ 39 ∷ [] })
    else if alg == 129
    then some (chap_nak 129)
    else if alg == 128
    then some (chap_nak 128)
    else if alg == 5
    then some (chap_nak 5)
    else none

-- `LcpFindAuthProto`: the index in `gLcpAuthProtos`.
unfoldable pub find_auth_proto : List AuthProto → ℕ → ℕ → ℕ → Option ℕ
find_auth_proto [] i proto alg = none
find_auth_proto (p ∷ ps) i proto alg =
    if p.proto == proto && p.alg == alg then some i else find_auth_proto ps (suc i) proto alg

-- `protos[i] = NULL`.
unfoldable pub clear_at : List (Option AuthProto) → ℕ → List (Option AuthProto)
clear_at [] i = []
clear_at (p ∷ ps) zero = none ∷ ps
clear_at (p ∷ ps) (suc i) = p ∷ clear_at ps i

-- The first protocol that is not NULL.
unfoldable pub first_proto : List (Option AuthProto) → Option AuthProto
first_proto [] = none
first_proto (none ∷ ps) = first_proto ps
first_proto (some p ∷ ps) = some p

-- The length check on PAP and CHAP.
unfoldable pub is_bogus : ℕ → ℕ → Bool
is_bogus proto len = proto == proto_pap && not (len == 4) || proto == proto_chap && not (len == 5)

-- `protoPos`, or -1.
unfoldable pub proto_pos : ℕ → FsmOption → Option ℕ
unfolding find_auth_proto is_bogus
proto_pos proto o =
    if is_bogus proto o.len
    then none
    else find_auth_proto auth_protos 0 proto (if proto == proto_chap then get_or o.bytes 2 0 else 0)

-- The Nak that proposes a protocol; `FsmNak` would read a NULL for one without.
abbrev pub propose : Option FsmOption → Lcp → Reply × Lcp
propose none lcp = (no_reply, record lcp { aborted = true })
propose (some o) lcp = (nak_it o, lcp)

abbrev pub propose_proto : Option AuthProto → Lcp → Reply × Lcp
propose_proto none lcp = (rej_it, lcp)
propose_proto (some p) lcp = propose (auth_proto_nak p.proto p.alg) lcp

abbrev pub want_proto : Option AuthProto → Lcp → Lcp
want_proto none lcp = lcp
want_proto (some p) lcp = record lcp { want_auth = p.proto; want_alg = p.alg }
