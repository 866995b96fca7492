-- ===== src/Auth/ChapInput.antt =====
-- src/chap.c: the packets of CHAP that a link gets.
use mpdx.Common.{
  ℕ, ◌+◌, false, not, ◌&&◌, ◌||◌, Option, none, some, List, ◌∷◌, ◌++◌, length, drop, ◌==◌,
  if◌then◌else◌, u8,
}
use mpdx.Timer.{timer_stop}
use mpdx.Lcp.Types.{Lcp}
use mpdx.Auth.Types.{
  first, strlcpy, same_bytes, peer_to_self, self_to_peer, invalid_packet, not_expected, chap_finish,
  AuthData, Auth, AuthConf, Crypto, chap_proto, alg_msoft, alg_msoft_v2,
}
use mpdx.Auth.Core.{is_empty, auth_output, auth_finish, auth_fail_msg, is_ms_alg}
use mpdx.Auth.Hash.{
  strip_domain, chap_hash, chap_get_secret, chap_parse_pkt, is_own_origin, nt_hash_of,
}
use mpdx.Auth.Chap.{chap_send_response, chap_input_finish, is_authenticating}
use mpdx.Auth.Async.{auth_async_start}

module _ (c : Crypto) (e : AuthConf) (lcp : Lcp) where
  -- The name and the password with which `ChapInput` answers a challenge.
  abbrev pub answer_name : List ℕ → List ℕ
  answer_name peer_name = if is_empty e.authname then peer_name else e.authname

  unfoldable pub answer_password : List ℕ → Option (List ℕ)
  unfolding same_bytes
  answer_password name =
      let authname = strlcpy 64 name in
      if same_bytes e.authname authname && not (is_empty e.password)
      then some (strlcpy 64 e.password)
      else e.get_data authname

  -- What MPPE needs of the answer.
  abbrev over : List ℕ → List ℕ → List ℕ
  over new old = new ++ drop (length new) old

  unfoldable pub keep_answer : List ℕ → List ℕ → Auth → Auth
  unfolding first
  keep_answer value hash a =
      if not (e.originate == 1)
      then a
      else if a.want_self_alg == alg_msoft
      then record a {
        params = record a.params { ms_chal = over (first 8 (value ++ e.stack)) a.params.ms_chal };
      }
      else if a.want_self_alg == alg_msoft_v2
      then record a {
        params = record a.params {
          ms_chal = over (first 16 (value ++ e.stack)) a.params.ms_chal;
          nt_resp = nt_hash_of hash;
        };
      }
      else a

  -- The answer, once the hash is there. `chap_gen_random` has taken 13 numbers for MS-CHAP v2.
  abbrev pub answer_with : AuthData → List ℕ → List ℕ → Auth → Option (List ℕ) → Auth
  answer_with auth name value a none = a
  answer_with auth name value a (some hash) =
      let kept = keep_answer value hash a in
      chap_send_response e lcp (record kept {
        chap = record kept.chap {
          resp = some (u8 (length hash) ∷ hash ++ name);
          resp_id = u8 auth.id;
        };
        drawn = if a.want_self_alg == alg_msoft_v2 then a.drawn + 13 else a.drawn;
      })

  -- `ChapGenRandom` for the peer's challenge of an answer.
  unfoldable pub answer_chal : Auth → List ℕ
  unfolding mpdx.Auth.Hash.chap_gen_random
  answer_chal a = mpdx.Auth.Hash.chap_gen_random e a.drawn 16

  unfoldable pub answer : AuthData → List ℕ → List ℕ → Option (List ℕ) → Auth → Auth
  unfolding keep_answer chap_send_response chap_get_secret chap_hash answer_chal
  answer auth name value none a = a
  answer auth name value (some password) a =
      let (secret, params) = chap_get_secret c a.want_self_alg password a.params in
      answer_with auth name value (record a { params = params })
        (chap_hash c e a.want_self_alg auth.id name secret value (answer_chal a))

  -- A challenge that `ChapInput` answers: not our own, and not from our side of the link.
  unfoldable pub take_challenge : AuthData → Option (List ℕ × List ℕ) → Auth → Auth
  unfolding answer answer_password same_bytes is_own_origin
  take_challenge auth none a = a
  take_challenge auth (some (peer_name, value)) a =
      if same_bytes value auth.params.chal_data || is_own_origin e.originate value
      then a
      else answer auth (answer_name peer_name) value (answer_password (answer_name peer_name)) a

  abbrev pub login_name : Auth → List ℕ → List ℕ
  login_name a name =
      if not e.keeps_domain && is_ms_alg a.want_peer_alg then strip_domain name else name

  unfoldable pub take_response : AuthData → Option (List ℕ × List ℕ) → Auth → Auth
  unfolding chap_input_finish auth_async_start is_ms_alg
  take_response auth none a =
      chap_input_finish c e (record auth { alg = a.want_peer_alg; why_fail = invalid_packet }) a
  take_response auth (some (peer_name, value)) a =
      auth_async_start c e
        (record auth {
          alg = a.want_peer_alg;
          finish = chap_finish;
          params = record auth.params {
            value = value;
            authname = strlcpy 64 (login_name a peer_name);
          };
        })
        a

  unfoldable pub chap_reply : AuthData → Auth → Auth
  unfolding timer_stop auth_finish
  chap_reply auth a =
      let b = record a {
        chap = record a.chap { resp_timer = timer_stop a.chap.resp_timer; resp = none };
      } in
      if a.want_self == chap_proto && is_authenticating lcp.phase
      then auth_finish self_to_peer (auth.code == 3) b
      else b

  abbrev pub bad_chap_packet : AuthData → Auth → Auth
  bad_chap_packet auth a = auth_finish peer_to_self false (
      auth_output auth.proto 4 auth.id (auth_fail_msg (record auth { why_fail = not_expected }))
        false 4 a)

  -- `ChapInput`.
  unfoldable pub chap_input : AuthData → List ℕ → Auth → Auth
  unfolding take_challenge take_response chap_reply chap_parse_pkt timer_stop auth_output
      auth_finish auth_fail_msg
  chap_input auth pkt a0 =
      let a = record a0 { chap = record a0.chap { proto = auth.proto } } in
      if auth.code == 1
      then take_challenge auth (chap_parse_pkt pkt) a
      else if auth.code == 2
      then take_response auth (chap_parse_pkt pkt)
          (record a { chap = record a.chap { chal_timer = timer_stop a.chap.chal_timer } })
      else if auth.code == 3 || auth.code == 4
      then chap_reply auth a
      else if auth.code == 5 || auth.code == 7
      then bad_chap_packet auth a
      else a
