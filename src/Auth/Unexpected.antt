-- ===== src/Auth/Unexpected.antt =====
-- A request of src/pap.c on a link whose peer has to authenticate by CHAP.
use mpdx.Common.{ℕ, ◌+◌, ◌*◌, true, none, List, [], ◌∷◌, length, ◌≡◌, refl, arith, from_be, le→ltb}
use mpdx.Timer.{timer_init, timer_start}
use mpdx.Fsm.Core.{packet, seconds}
use mpdx.Lcp.Types.{authenticate, Lcp}
use mpdx.Auth.Types.{
  codes, undef, AuthCall, not_expected, AuthData, write_frame, lcp_auth_result, eap_stop, Auth,
  AuthConf, Crypto, chap_proto, pap_proto,
}
use mpdx.Auth.Core.{started, auth_finish, auth_stop, auth_data_new}
use mpdx.Auth.Pap.{good_request, finish_as, pap_input_finish}
use mpdx.Auth.Chap.{
  send_challenge, new_challenge, chap_send_challenge, with_alg, first_challenge, chap_start,
}
use mpdx.Auth.PapInput.{pap_request, pap_input}
use mpdx.Auth.Input.{input_as, auth_input, negotiated, auth_start}

-- The peer has to authenticate by CHAP, nothing else is to do, and no names are there yet.
record IsFresh (a : Auth) : Type 0 where
  want_peer : a.want_peer ≡ chap_proto
  want_self : a.want_self ≡ 0
  authname : a.params.authname ≡ []
  password : a.params.password ≡ []
  peer_name : a.params.peer_name ≡ []
  peer_pass : a.params.peer_pass ≡ []

send_challenge-IsFresh : (e : AuthConf) (a : Auth) → IsFresh a → IsFresh (send_challenge e a)
unfolding send_challenge
send_challenge-IsFresh e a f = ground arith

new_challenge-IsFresh : (e : AuthConf) (a : Auth) → IsFresh a → IsFresh (new_challenge e a)
unfolding new_challenge send_challenge
new_challenge-IsFresh e a f = ground arith

chap_send_challenge-IsFresh :
    (e : AuthConf) (a : Auth) → IsFresh a → IsFresh (chap_send_challenge e a)
unfolding chap_send_challenge
chap_send_challenge-IsFresh e a f =
    ground (arith, send_challenge-IsFresh e a, new_challenge-IsFresh e a)

abbrev primed : AuthConf → Lcp → Auth → Auth
primed e lcp a =
    let t = timer_init (e.timeout * seconds) in
    first_challenge e (with_alg e (record (negotiated lcp a) { timer = started (timer_start t) t }))

primed-IsFresh :
    (e : AuthConf) (lcp : Lcp) (a : Auth)
    → lcp.peer_auth ≡ 0
    → lcp.want_auth ≡ chap_proto
    → IsFresh (primed e lcp a)
primed-IsFresh e lcp a self peer = record {
  want_peer = peer;
  want_self = self;
  authname = refl;
  password = refl;
  peer_name = refl;
  peer_pass = refl;
}

auth_start-primed :
    (e : AuthConf) (lcp : Lcp) (a : Auth)
    → lcp.peer_auth ≡ 0
    → lcp.want_auth ≡ chap_proto
    → auth_start e lcp a ≡ chap_send_challenge e (primed e lcp a)
unfolding auth_start chap_start
auth_start-primed e lcp a self peer = rw (self, peer) refl

auth_start-IsFresh :
    (e : AuthConf) (lcp : Lcp) (a : Auth)
    → lcp.peer_auth ≡ 0
    → lcp.want_auth ≡ chap_proto
    → IsFresh (auth_start e lcp a)
auth_start-IsFresh e lcp a self peer =
    rw (auth_start-primed e lcp a self peer)
      (chap_send_challenge-IsFresh e (primed e lcp a) (primed-IsFresh e lcp a self peer))

-- The acknowledgement, and the success that LCP is told.
abbrev pub welcome : ℕ → List AuthCall → List AuthCall
welcome id calls =
    lcp_auth_result true
    ∷ eap_stop
    ∷ write_frame pap_proto (packet 2 id (7 ∷ codes "Welcome"))
    ∷ calls

good_request-calls :
    (auth : AuthData) (a : Auth)
    → auth.reply_message ≡ none
    → IsFresh a
    → (good_request auth a).calls ≡ welcome auth.id a.calls
unfolding good_request auth_finish auth_stop
good_request-calls auth a n f = rw (n, f.want_self) refl

module _ (c : Crypto) (e : AuthConf) (lcp : Lcp) where
  pap_request-welcome :
      (auth : AuthData) (pkt : List ℕ) (a : Auth)
      → auth.status ≡ undef
      → auth.reply_message ≡ none
      → lcp.want_auth ≡ chap_proto
      → IsFresh a
      → (pap_request c e lcp auth pkt a).calls ≡ welcome auth.id a.calls
  unfolding pap_request finish_as pap_input_finish
  pap_request-welcome auth pkt a st n w f =
      simp (f.want_peer, w, st, f.authname, f.password, f.peer_name, f.peer_pass)
        (good_request-calls (record auth { why_fail = not_expected }) a n f)

  as_request :
      (id hi lo : ℕ) (body : List ℕ) (a : Auth)
      → lcp.phase ≡ authenticate
      → from_be 0 (hi ∷ lo ∷ []) ≡ length body + 4
      → auth_input c e lcp pap_proto (1 ∷ id ∷ hi ∷ lo ∷ body) a
        ≡ pap_request c e lcp (auth_data_new pap_proto 1 id a) body a
  unfolding auth_input input_as pap_input
  as_request id hi lo body a ph len =
      simp (ph, le→ltb (from_be 0 (hi ∷ lo ∷ [])) (length body + 4) (omega (arith, len))) refl

  -- On a link whose peer has to authenticate by CHAP, with nothing to do in the other direction, a PAP request
  -- that comes first after `AuthStart` is acknowledged, and LCP is told that the authentication has succeeded,
  -- whatever the body of the request holds.
  pub unexpected_pap-accepted :
      (id hi lo : ℕ) (body : List ℕ) (a : Auth)
      → lcp.phase ≡ authenticate
      → lcp.peer_auth ≡ 0
      → lcp.want_auth ≡ chap_proto
      → from_be 0 (hi ∷ lo ∷ []) ≡ length body + 4
      → (auth_input c e lcp pap_proto (1 ∷ id ∷ hi ∷ lo ∷ body) (auth_start e lcp a)).calls
        ≡ welcome id (auth_start e lcp a).calls
  unfolding auth_data_new
  unexpected_pap-accepted id hi lo body a ph self peer len =
      let s = auth_start e lcp a in
      rw (as_request id hi lo body s ph len) (
        pap_request-welcome (auth_data_new pap_proto 1 id s) body s refl refl peer
          (auth_start-IsFresh e lcp a self peer))
