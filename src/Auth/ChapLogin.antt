-- ===== src/Auth/ChapLogin.antt =====
-- A login by src/chap.c with MD5: the challenge of one side, the response of the other, and the verdict.
use mpdx.Common.{
  ℕ, ◌≤◌, some, List, ◌∷◌, ◌++◌, length, length-append, ◌≡◌, refl, ap, ◌∙◌, arith, u8,
}
use mpdx.Fsm.Core.{packet}
use mpdx.Lcp.Types.{Lcp}
use mpdx.Auth.Types.{
  c_string, lcp_auth_result, Auth, unmatched, AuthConf, Crypto, chap_proto, alg_md5,
}
use mpdx.Auth.Core.{auth_data_new, auth_output}
use mpdx.Auth.Chap.{send_challenge}
use mpdx.Auth.Async.{Backends}
use mpdx.Auth.ChapInput.{take_challenge, chap_input}
use mpdx.Auth.Input.{auth_input}
use mpdx.Auth.Login.{IsReady, settle, last_call, sent}
use mpdx.Auth.PapLogin.{IsCaller}
use mpdx.Auth.Answer.{
  response_to, IsAsked, length-first, input-chap, answer-md5, answered-sent, taken-answer,
}
use mpdx.Auth.Verdict.{answers, response-settled}
use mpdx.Auth.Challenge.{parse-pkt}

-- The two sides: `e` asks with a challenge that it has made, and `from` is asked.
module _ (c : Crypto) (b : Backends) (e from : AuthConf) (lcp lcp' : Lcp) (a p : Auth)
    (chal : List ℕ) (r : IsReady e lcp chap_proto a) (md5 : a.want_peer_alg ≡ alg_md5)
    (chap : a.chap.proto ≡ chap_proto) (made : a.params.chal_data ≡ chal)
    (some_bytes : 1 ≤ length chal) (few : length chal ≤ 64) (named : length e.authname ≤ 64)
    (k : IsCaller from) (q : IsAsked from lcp' p chal)
    (free : e.match_action from.authname ≡ unmatched) where
  -- The link that has sent its challenge.
  abbrev asking : Auth
  asking = send_challenge e a

  asking-IsReady : IsReady e lcp chap_proto asking
  unfolding send_challenge auth_output
  asking-IsReady = record {
    phase = r.phase;
    want_peer = r.want_peer;
    want_self = r.want_self;
    thread = r.thread;
    action = r.action;
    external_off = r.external_off;
    radius_off = r.radius_off;
    pam_off = r.pam_off;
    system_off = r.system_off;
    internal_on = r.internal_on;
    no_limit = r.no_limit;
    starts = r.starts;
  }

  challenge-sent : sent asking ≡ packet 1 a.chap.next_id (u8 (length chal) ∷ chal ++ e.authname)
  unfolding send_challenge auth_output
  challenge-sent = rw (chap, made) refl

  asking-md5 : asking.want_peer_alg ≡ alg_md5
  unfolding send_challenge auth_output
  asking-md5 = md5

  asking-made : asking.params.chal_data ≡ chal
  unfolding send_challenge auth_output
  asking-made = made

  -- The identifier and the response on the wire.
  abbrev number : ℕ
  number = u8 a.chap.next_id

  abbrev response : List ℕ
  response = response_to c number from.password chal

  abbrev renamed : Auth
  renamed = record p { chap = record p.chap { proto = chap_proto } }

  abbrev challenge : List ℕ
  challenge = u8 (length chal) ∷ chal ++ e.authname

  challenge-taken :
      chap_input c from lcp' (auth_data_new chap_proto 1 number p) challenge p
      ≡ take_challenge c from lcp'
          (auth_data_new chap_proto 1 number p)
          (some (c_string e.authname, chal))
          renamed
  unfolding chap_input auth_data_new
  challenge-taken =
      ap (λ x. take_challenge c from lcp' (auth_data_new chap_proto 1 number p) x renamed)
        (parse-pkt chal e.authname some_bytes few named)

  taken-sent :
      sent (
        take_challenge c from lcp'
          (auth_data_new chap_proto 1 number p)
          (some (c_string e.authname, chal))
          renamed)
      ≡ packet 2 (u8 number) (u8 16 ∷ response ++ from.authname)
  unfolding auth_data_new
  taken-sent =
      let auth = auth_data_new chap_proto 1 number p in
      ap sent (
        taken-answer c from lcp' auth (c_string e.authname) chal renamed k q.no_challenge some_bytes
          q.other_side)
      ∙ ap sent (answer-md5 c from lcp' auth from.authname from.password chal renamed q.by_md5)
      ∙ answered-sent c from lcp' auth from.authname chal response renamed q.phase q.by_md5 refl
          (length-first 16 (c.md5 (u8 number ∷ from.password ++ chal)))

  challenge-answered :
      sent (auth_input c from lcp' chap_proto (sent asking) p)
      ≡ packet 2 (u8 number) (u8 16 ∷ response ++ from.authname)
  challenge-answered =
      ap (λ frame. sent (auth_input c from lcp' chap_proto frame p)) challenge-sent
      ∙ ap sent (
          input-chap c from lcp' p 1 a.chap.next_id challenge q.phase
            (omega (arith, length-append chal e.authname)))
      ∙ ap sent challenge-taken
      ∙ taken-sent

  -- A CHAP login with MD5: a link sends its challenge of 1 to 64 bytes, the other side, which has sent none itself
  -- and does not take it for its own, answers by its name and password of 1 to 63 bytes without NUL, and the link,
  -- which asks its file of secrets alone and has no limit of logins and no action for the name, judges the answer.
  -- LCP is told of a success exactly where the file has the name and the hash of its secret is the one sent.
  pub chap_login :
      last_call (
        settle c b e (
          auth_input c e lcp chap_proto
            (sent (auth_input c from lcp' chap_proto (sent asking) p))
            asking))
      ≡ some (
          lcp_auth_result (
            answers c number chal
              (e.get_data from.authname)
              (response_to c number from.password chal)))
  chap_login =
      let full = length-first 16 (c.md5 (u8 number ∷ from.password ++ chal)) in
      ap (λ frame. last_call (settle c b e (auth_input c e lcp chap_proto frame asking)))
        challenge-answered
      ∙ ap (λ t. last_call (settle c b e t))
          (input-chap c e lcp asking 2 (u8 number) (u8 16 ∷ response ++ from.authname) r.phase
            (omega (arith, length-append response from.authname, full, k.name_short)))
      ∙ response-settled c b e lcp asking chal asking-IsReady asking-md5 asking-made some_bytes
          from.authname response k.name_short k.name_text k.name_given free full (u8 (u8 number))
      ∙ ap
          (λ (id : ℕ).
            some (lcp_auth_result (answers c id chal (e.get_data from.authname) response)))
          same_number
    where
      same_number : u8 (u8 number) ≡ number
      same_number = omega arith
