-- ===== src/Auth/PapInput.antt =====
-- src/pap.c: the packets of PAP that a link gets.
use mpdx.Common.{ℕ, true, false, ◌&&◌, ◌||◌, Option, none, some, List, [], ◌==◌, if◌then◌else◌}
use mpdx.Timer.{timer_stop}
use mpdx.Lcp.Types.{Lcp}
use mpdx.Auth.Types.{
  codes, strlcpy, peer_to_self, self_to_peer, invalid_packet, not_expected, pap_finish, AuthData,
  Auth, AuthConf, Crypto, pap_proto,
}
use mpdx.Auth.Core.{auth_output, auth_finish, auth_fail_msg}
use mpdx.Auth.Pap.{pap_fields, pap_input_finish}
use mpdx.Auth.Async.{auth_async_start}

module _ (c : Crypto) (e : AuthConf) (lcp : Lcp) where
  -- `PapInput`: a request that has its fields, and one that has not.
  abbrev pub bad_pap_packet : AuthData → Auth → Auth
  bad_pap_packet auth a = auth_finish peer_to_self false (
      auth_output pap_proto 3 auth.id (auth_fail_msg (record auth { why_fail = invalid_packet }))
        true 0 a)

  unfoldable pub take_request : AuthData → Option (List ℕ × List ℕ) → Auth → Auth
  unfolding auth_output auth_finish auth_fail_msg auth_async_start
  take_request auth none a = bad_pap_packet auth a
  take_request auth (some (name, pass)) a =
      auth_async_start c e
        (record auth {
          finish = pap_finish;
          params = record auth.params {
            peer_name = strlcpy 64 name;
            peer_pass = strlcpy 64 pass;
            authname = strlcpy 64 name;
            password = [];
          };
        })
        a

  unfoldable pub pap_request : AuthData → List ℕ → Auth → Auth
  unfolding take_request auth_output pap_input_finish pap_fields
  pap_request auth pkt a =
      if a.want_peer == pap_proto
      then take_request auth (pap_fields pkt) a
      else if lcp.want_auth == pap_proto && a.want_peer == 0
      then auth_output pap_proto 2 auth.id (codes "Welcome") true 0 a
      else pap_input_finish (record auth { why_fail = not_expected }) a

  unfoldable pub pap_reply : AuthData → Auth → Auth
  unfolding timer_stop auth_finish
  pap_reply auth a =
      if a.want_self == pap_proto
      then auth_finish self_to_peer (auth.code == 2)
          (record a { pap = record a.pap { timer = timer_stop a.pap.timer } })
      else a

  unfoldable pub pap_input : AuthData → List ℕ → Auth → Auth
  unfolding pap_request pap_reply
  pap_input auth pkt a =
      if auth.code == 1
      then pap_request auth pkt a
      else if auth.code == 2 || auth.code == 3
      then pap_reply auth a
      else a
