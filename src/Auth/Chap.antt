-- ===== src/Auth/Chap.antt =====
-- src/chap.c: challenges and responses that are sent, their timers, and the end of an authentication by CHAP.
use mpdx.Common.{
  ℕ, ◌+◌, ◌-◌, ◌*◌, ◌/◌, ◌%◌, Bool, true, false, not, ◌&&◌, ◌||◌, Option, none, some, List, [], ◌∷◌,
  ◌++◌, length, drop, ltb, ◌==◌, if◌then◌else◌, u8, u16, pred16, is_pos16,
}
use mpdx.Ip.{all_zero}
use mpdx.Timer.{timer_init, timer_start, timer_stop}
use mpdx.Fsm.Core.{seconds}
use mpdx.Lcp.Types.{Phase, authenticate, Lcp}
use mpdx.Auth.Types.{
  codes, first, strlcpy, peer_to_self, self_to_peer, AuthStatus, undef, fail, success, busy,
  invalid_login, invalid_packet, Direction, AuthData, Auth, AuthConf, Crypto, chap_proto, alg_md5,
  alg_msoft, alg_msoft_v2, auth_retries,
}
use mpdx.Auth.Core.{started, or_else, auth_output, auth_finish, auth_fail_msg}
use mpdx.Auth.Hash.{chap_gen_random, nt_hash_of, chap_hash, chap_hash_agree, chap_get_secret}

-- `send_pkt` of `ChapSendChallenge`. The codes of CHAP and EAP are the same numbers.
unfoldable pub send_challenge : AuthConf → Auth → Auth
unfolding auth_output
send_challenge e a =
    auth_output a.chap.proto 1 a.chap.next_id
      (u8 (length a.params.chal_data) ∷ a.params.chal_data ++ e.authname) false 4
      (record a { chap = record a.chap { next_id = u16 (a.chap.next_id + 1) } })

-- A challenge of `n` bytes, when `k` numbers were taken from `random`.
abbrev pub fresh_challenge : AuthConf → ℕ → ℕ → Auth → Auth
fresh_challenge e k n a = record a {
  params = record a.params { chal_data = chap_gen_random e k n };
  drawn = k + n - 3;
}

-- The start of a Microsoft challenge, which a link that was called keeps.
abbrev pub keep_challenge : AuthConf → Auth → Auth
keep_challenge e a =
    if e.originate == 2
    then record a {
      params = record a.params {
        ms_chal = a.params.chal_data ++ drop (length a.params.chal_data) a.params.ms_chal;
      };
    }
    else a

-- `ChapSendChallenge`.
unfoldable pub new_challenge : AuthConf → Auth → Auth
unfolding send_challenge chap_gen_random
new_challenge e a =
    if a.want_peer_alg == alg_msoft
    then send_challenge e (keep_challenge e (fresh_challenge e a.drawn 8 a))
    else if a.want_peer_alg == alg_msoft_v2
    then send_challenge e (keep_challenge e (fresh_challenge e a.drawn 16 a))
    else if a.want_peer_alg == alg_md5
    then send_challenge e (fresh_challenge e (a.drawn + 1) (e.random a.drawn % 32 + 16) a)
    else record a { aborted = true }

unfoldable pub chap_send_challenge : AuthConf → Auth → Auth
unfolding new_challenge send_challenge
chap_send_challenge e a =
    if length a.params.chal_data == 0 then new_challenge e a else send_challenge e a

-- `ChapStart`.
abbrev pub with_alg : AuthConf → Auth → Auth
with_alg e a = record a {
  chap = record a.chap { proto = chap_proto };
  params = record a.params {
    chap_alg = if e.originate == 1 then a.want_self_alg else a.want_peer_alg;
  };
}

abbrev pub first_challenge : AuthConf → Auth → Auth
first_challenge e a =
    let t = timer_init (e.retry_timeout * seconds) in
    record a {
      params = record a.params { chal_data = [] };
      chap = record a.chap {
        next_id = 1;
        retry = auth_retries;
        chal_timer = started (timer_start t) t;
      };
    }

unfoldable pub chap_start : AuthConf → Direction → Auth → Auth
unfolding chap_send_challenge timer_init timer_start
chap_start e self_to_peer a = with_alg e a
chap_start e peer_to_self a = chap_send_challenge e (first_challenge e (with_alg e a))

-- `ChapChalTimeout`.
unfoldable pub chap_chal_timeout : AuthConf → Auth → Auth
unfolding chap_send_challenge timer_start
chap_chal_timeout e a =
    let left = pred16 a.chap.retry in
    let counted = record a { chap = record a.chap { retry = left } } in
    if is_pos16 left
    then chap_send_challenge e (record counted {
      chap = record counted.chap {
        chal_timer = started (timer_start counted.chap.chal_timer) counted.chap.chal_timer;
      };
    })
    else counted

-- `ChapSendResponse`, which is the expiry of its timer too.
abbrev pub is_authenticating : Phase → Bool
is_authenticating authenticate = true
is_authenticating _ = false

abbrev pub resend_later : AuthConf → Phase → Auth → Auth
resend_later e phase a =
    let t = timer_init (e.retry_timeout * seconds) in
    if is_authenticating phase
    then record a { chap = record a.chap { resp_timer = started (timer_start t) t } }
    else a

abbrev pub output_response : Option (List ℕ) → Auth → Auth
output_response none a = record a { aborted = true }
output_response (some resp) a = auth_output a.chap.proto 2 a.chap.resp_id resp false 4 a

unfoldable pub chap_send_response : AuthConf → Lcp → Auth → Auth
unfolding auth_output timer_init timer_start timer_stop
chap_send_response e lcp a = resend_later e lcp.phase (
    output_response a.chap.resp
      (record a { chap = record a.chap { resp_timer = timer_stop a.chap.resp_timer } }))

-- `%02X`.
abbrev hex_digit : ℕ → ℕ
hex_digit d = if ltb d 10 then d + 48 else d + 55

unfoldable pub hex : List ℕ → List ℕ
hex [] = []
hex (b ∷ bs) = hex_digit (b / 16 % 16) ∷ hex_digit (b % 16) ∷ hex bs

-- The message of `ChapInputFinish` before the response is judged.
unfoldable pub ack_message : AuthData → Auth → List ℕ
ack_message auth a =
    let other = or_else auth.reply_message (codes "Welcome") in
    strlcpy 128 (if a.want_peer_alg == alg_msoft_v2 then or_else auth.mschapv2resp other else other)

abbrev s_and_m : List ℕ → Option (List ℕ) → List ℕ
s_and_m s none = codes "S=" ++ s
s_and_m s (some m) = codes "S=" ++ s ++ codes " M=" ++ m

-- The response of the authenticator.
unfoldable pub v2_message : Crypto → AuthData → Auth → List ℕ
unfolding hex first
v2_message c auth a =
    let p = a.params in
    let resp =
      c.authenticator_response p.nt_hash (nt_hash_of p.value) (first 16 p.value) p.chal_data
        p.authname in
    strlcpy 128 (s_and_m (hex (first 20 resp)) auth.reply_message)

-- `goodResponse` and `badResponse`.
abbrev pub remember_response : AuthConf → Auth → Auth
remember_response e a =
    if e.originate == 2 && a.want_peer_alg == alg_msoft_v2 && all_zero a.params.nt_resp
    then record a { params = record a.params { nt_resp = nt_hash_of a.params.value } }
    else a

unfoldable pub good_response : AuthConf → AuthData → List ℕ → Auth → Auth
unfolding auth_output auth_finish all_zero
good_response e auth message a =
    auth_finish peer_to_self true
      (auth_output a.chap.proto 3 auth.id message false 4 (remember_response e a))

unfoldable pub bad_response : AuthData → Auth → Auth
unfolding auth_output auth_finish auth_fail_msg
bad_response auth a =
    auth_finish peer_to_self false
      (auth_output a.chap.proto 4 auth.id (auth_fail_msg auth) false 4 a)

-- The comparison with the hash that is expected.
unfoldable pub judge_response : Crypto → AuthConf → AuthData → Option (List ℕ) → Auth → Auth
unfolding chap_hash_agree
judge_response c e auth none a = bad_response (record auth { why_fail = invalid_packet }) a
judge_response c e auth (some hash) a =
    if length a.params.chal_data == 0 || not (chap_hash_agree a.want_peer_alg hash a.params.value)
    then bad_response (record auth { why_fail = invalid_login }) a
    else good_response e auth
        (if a.want_peer_alg == alg_msoft_v2 then v2_message c auth a else ack_message auth a) a

-- `ChapInputFinish`.
unfoldable pub respond_as : Crypto → AuthConf → AuthStatus → AuthData → Auth → Auth
unfolding first
respond_as c e busy auth a = a
respond_as c e fail auth a = bad_response auth a
respond_as c e success auth a = good_response e auth (ack_message auth a) a
respond_as c e undef auth a =
    let (secret, params) = chap_get_secret c a.want_peer_alg a.params.password a.params in
    judge_response c e auth
      (chap_hash c e a.want_peer_alg auth.id a.params.authname secret a.params.chal_data
        (first 16 a.params.value))
      (record a { params = params })

unfoldable pub chap_input_finish : Crypto → AuthConf → AuthData → Auth → Auth
unfolding respond_as
chap_input_finish c e auth a = respond_as c e auth.status auth a
