-- ===== src/Auth/Input.antt =====
-- src/auth.c: `AuthInput` and `AuthStart`.
use mpdx.Common.{
  ℕ, ◌+◌, ◌-◌, ◌*◌, Bool, true, false, not, ◌&&◌, List, [], ◌∷◌, length, take, ltb, ◌==◌,
  if◌then◌else◌, from_be,
}
use mpdx.Timer.{timer_init, timer_start}
use mpdx.Fsm.Core.{seconds}
use mpdx.Lcp.Types.{Phase, authenticate, network, Lcp}
use mpdx.Auth.Types.{
  peer_to_self, self_to_peer, lcp_auth_result, eap_start, eap_input, Auth, AuthConf, Crypto,
  pap_proto, chap_proto, eap_proto, Direction,
}
use mpdx.Auth.Core.{call, started, empty_params, auth_data_new}
use mpdx.Auth.Pap.{pap_start}
use mpdx.Auth.Chap.{chap_start}
use mpdx.Auth.PapInput.{pap_input}
use mpdx.Auth.ChapInput.{chap_input}

module _ (c : Crypto) (e : AuthConf) (lcp : Lcp) where
  -- `AuthInput` behind its tests, by the protocol.
  unfoldable pub input_as : ℕ → ℕ → ℕ → List ℕ → Auth → Auth
  unfolding pap_input chap_input auth_data_new
  input_as proto code id pkt a =
      let auth = auth_data_new proto code id a in
      if proto == pap_proto
      then pap_input c e lcp auth pkt a
      else if proto == chap_proto
      then chap_input c e lcp auth pkt a
      else if proto == eap_proto
      then call (eap_input auth pkt) a
      else record a { aborted = true }

  abbrev pub may_authenticate : Phase → Bool
  may_authenticate authenticate = true
  may_authenticate network = true
  may_authenticate _ = false

  -- `AuthInput`: the header of four bytes, and the body cut to the length that it says.
  unfoldable pub auth_input : ℕ → List ℕ → Auth → Auth
  unfolding input_as
  auth_input proto (code ∷ id ∷ hi ∷ lo ∷ body) a =
      let said = from_be 0 (hi ∷ lo ∷ []) in
      if not (may_authenticate lcp.phase)
      then a
      else if not (ltb said (length body + 4))
      then input_as proto code id body a
      else if ltb said 4
      then a
      else input_as proto code id (take (said - 4) body) a
  auth_input proto _ a = a

-- `AuthStart`.
abbrev pub start_direction : AuthConf → ℕ → Direction → Auth → Auth
start_direction e proto which a =
    if proto == 0
    then a
    else if proto == pap_proto
    then pap_start e which a
    else if proto == chap_proto
    then chap_start e which a
    else if proto == eap_proto
    then call (eap_start which) a
    else record a { aborted = true }

abbrev pub negotiated : Lcp → Auth → Auth
negotiated lcp a = record a {
  params = empty_params;
  want_self = lcp.peer_auth;
  want_peer = lcp.want_auth;
  want_self_alg = lcp.peer_alg;
  want_peer_alg = lcp.want_alg;
}

unfoldable pub auth_start : AuthConf → Lcp → Auth → Auth
unfolding pap_start chap_start timer_init timer_start
auth_start e lcp a =
    let t = timer_init (e.timeout * seconds) in
    let b = negotiated lcp a in
    let timed = record b { timer = started (timer_start t) t } in
    if lcp.peer_auth == 0 && lcp.want_auth == 0
    then call (lcp_auth_result true) b
    else start_direction e lcp.want_auth peer_to_self
        (start_direction e lcp.peer_auth self_to_peer timed)
