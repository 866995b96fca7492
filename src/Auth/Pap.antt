-- ===== src/Auth/Pap.antt =====
-- src/pap.c: requests, their timer, and the end of an authentication by PAP.
use mpdx.Common.{
  ℕ, ◌+◌, ◌*◌, true, false, ◌&&◌, Option, none, some, List, [], ◌∷◌, ◌++◌, length, take, drop, leb,
  ltb, if◌then◌else◌, u8, u16, pred16, is_pos16,
}
use mpdx.Timer.{timer_init, timer_start}
use mpdx.Fsm.Core.{seconds}
use mpdx.Auth.Types.{
  codes, c_string, strlcpy, same_bytes, peer_to_self, self_to_peer, AuthStatus, undef, fail,
  success, busy, invalid_login, Direction, AuthData, Auth, AuthConf, pap_proto, auth_retries,
}
use mpdx.Auth.Core.{started, or_else, is_empty, auth_output, auth_finish, auth_fail_msg}

-- The password of `PapSendRequest`. Where there is none the array is sent as it is found.
unfoldable pub request_password : AuthConf → List ℕ
unfolding c_string
request_password e =
    if is_empty e.password
    then or_else (e.get_data e.authname) (c_string e.stack)
    else strlcpy 64 e.password

unfoldable pub request_body : AuthConf → List ℕ
unfolding request_password
request_body e =
    u8 (length e.authname) ∷ e.authname ++ u8 (length (request_password e)) ∷ request_password e

-- `PapSendRequest`.
unfoldable pub pap_send_request : AuthConf → Auth → Auth
unfolding auth_output request_body
pap_send_request e a =
    auth_output pap_proto 1 a.pap.next_id (request_body e) false 0
      (record a { pap = record a.pap { next_id = u16 (a.pap.next_id + 1) } })

-- `PapStart`.
unfoldable pub pap_start : AuthConf → Direction → Auth → Auth
unfolding pap_send_request timer_init timer_start
pap_start e peer_to_self a = a
pap_start e self_to_peer a =
    let t = timer_init (e.retry_timeout * seconds) in
    pap_send_request e (record a {
      pap = record { next_id = 1; retry = auth_retries; timer = started (timer_start t) t };
    })

-- `PapTimeout`.
unfoldable pub pap_timeout : AuthConf → Auth → Auth
unfolding pap_send_request timer_start
pap_timeout e a =
    let left = pred16 a.pap.retry in
    let counted = record a { pap = record a.pap { retry = left } } in
    if is_pos16 left
    then pap_send_request e (record counted {
      pap = record counted.pap {
        timer = started (timer_start counted.pap.timer) counted.pap.timer;
      };
    })
    else counted

-- The fields of a request.
unfoldable pub password_of : List ℕ → List ℕ → Option (List ℕ × List ℕ)
unfolding c_string
password_of name [] = none
password_of name (n ∷ rest) =
    if ltb (length rest) n then none else some (c_string name, c_string (take n rest))

unfoldable pub pap_fields : List ℕ → Option (List ℕ × List ℕ)
unfolding password_of
pap_fields [] = none
pap_fields (n ∷ rest) =
    if leb (length rest) n then none else password_of (take n rest) (drop n rest)

-- The two ends of `PapInputFinish`.
unfoldable pub good_request : AuthData → Auth → Auth
unfolding auth_output auth_finish
good_request auth a =
    auth_finish peer_to_self true
      (auth_output pap_proto 2 auth.id (or_else auth.reply_message (codes "Welcome")) true 0 a)

unfoldable pub bad_request : AuthData → Auth → Auth
unfolding auth_output auth_finish auth_fail_msg
bad_request auth a =
    auth_finish peer_to_self false (auth_output pap_proto 3 auth.id (auth_fail_msg auth) true 0 a)

-- `PapInputFinish`.
unfoldable pub finish_as : AuthStatus → AuthData → Auth → Auth
unfolding good_request bad_request same_bytes
finish_as busy auth a = a
finish_as fail auth a = bad_request auth a
finish_as success auth a = good_request auth a
finish_as undef auth a =
    if same_bytes a.params.authname a.params.peer_name
      && same_bytes a.params.password a.params.peer_pass
    then good_request auth a
    else bad_request (record auth { why_fail = invalid_login }) a

unfoldable pub pap_input_finish : AuthData → Auth → Auth
unfolding finish_as
pap_input_finish auth a = finish_as auth.status auth a
