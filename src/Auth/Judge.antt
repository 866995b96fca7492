-- ===== src/Auth/Judge.antt =====
-- The end of src/chap.c's authentication by MD5, as LCP hears of it.
use mpdx.Common.{
  ℕ, ◌≤◌, Bool, true, false, not, ◌||◌, some, List, length, ◌==◌, ◌≡◌, refl, ap, ◌∙◌, arith,
  if◌then◌else◌,
}
use mpdx.Auth.Types.{
  first, same_bytes, undef, fail, invalid_login, peer_to_self, AuthParams, AuthData,
  lcp_auth_result, Auth, AuthConf, Crypto, alg_md5, alg_msoft_v2,
}
use mpdx.Auth.Core.{auth_output, auth_finish}
use mpdx.Auth.Hash.{chap_hash, chap_hash_agree, chap_get_secret}
use mpdx.Auth.Chap.{
  ack_message, v2_message, remember_response, good_response, bad_response, judge_response,
  respond_as, chap_input_finish,
}
use mpdx.Auth.Login.{last_call}
use mpdx.Auth.Answer.{response_to}

-- The side that asks, at the end of the login.
module _ (c : Crypto) (e : AuthConf) (chal : List ℕ) where
  finish-last :
      (ok : Bool) (a : Auth)
      → a.want_self ≡ 0
      → last_call (auth_finish peer_to_self ok a) ≡ some (lcp_auth_result ok)
  unfolding auth_finish
  finish-last true a h = rw h refl
  finish-last false a h = refl

  remembered-want_self : (a : Auth) → (remember_response e a).want_self ≡ a.want_self
  remembered-want_self a = ground arith

  good-last :
      (auth : AuthData) (message : List ℕ) (a : Auth)
      → a.want_self ≡ 0
      → last_call (good_response e auth message a) ≡ some (lcp_auth_result true)
  unfolding good_response auth_output
  good-last auth message a h =
      finish-last true (auth_output a.chap.proto 3 auth.id message false 4 (remember_response e a))
        (remembered-want_self a ∙ h)

  bad-last :
      (auth : AuthData) (a : Auth) → last_call (bad_response auth a) ≡ some (lcp_auth_result false)
  unfolding bad_response auth_finish
  bad-last auth a = refl

  verdict-last :
      (agree : Bool) (bad good : Auth)
      → last_call bad ≡ some (lcp_auth_result false)
      → last_call good ≡ some (lcp_auth_result true)
      → last_call (if not agree then bad else good) ≡ some (lcp_auth_result agree)
  verdict-last true bad good h k = k
  verdict-last false bad good h k = h

  agree-md5 :
      (alg : ℕ) (hash value : List ℕ)
      → alg ≡ alg_md5
      → chap_hash_agree alg hash value ≡ same_bytes hash value
  unfolding chap_hash_agree
  agree-md5 alg hash value k = rw k refl

  secret-md5 :
      (alg : ℕ) (pass : List ℕ) (p : AuthParams)
      → alg ≡ alg_md5
      → chap_get_secret c alg pass p ≡ (pass, p)
  unfolding chap_get_secret
  secret-md5 alg pass p k = rw k refl

  hash-md5 :
      (alg id : ℕ) (name secret peer_chal : List ℕ)
      → alg ≡ alg_md5
      → chap_hash c e alg id name secret chal peer_chal ≡ some (response_to c id secret chal)
  unfolding chap_hash
  hash-md5 alg id name secret peer_chal k = rw k refl

  some_length : (n : ℕ) → 1 ≤ n → (n == 0) ≡ false
  some_length n h = ground arith

  test-md5 :
      (hash : List ℕ) (a : Auth)
      → a.want_peer_alg ≡ alg_md5
      → a.params.chal_data ≡ chal
      → 1 ≤ length chal
      → (length a.params.chal_data == 0
          || not (chap_hash_agree a.want_peer_alg hash a.params.value))
        ≡ not (same_bytes hash a.params.value)
  test-md5 hash a k f l =
      ap (λ x. x || not (chap_hash_agree a.want_peer_alg hash a.params.value))
        (ap (λ x. length x == 0) f ∙ some_length (length chal) l)
      ∙ ap not (agree-md5 a.want_peer_alg hash a.params.value k)

  judged-last :
      (auth : AuthData) (hash : List ℕ) (a : Auth)
      → a.want_self ≡ 0
      → a.want_peer_alg ≡ alg_md5
      → a.params.chal_data ≡ chal
      → 1 ≤ length chal
      → last_call (judge_response c e auth (some hash) a)
        ≡ some (lcp_auth_result (same_bytes hash a.params.value))
  unfolding judge_response
  judged-last auth hash a h k f l =
      let bad = bad_response (record auth { why_fail = invalid_login }) a in
      let message =
        if a.want_peer_alg == alg_msoft_v2 then v2_message c auth a else ack_message auth a in
      let good = good_response e auth message a in
      ap (λ t. last_call (if t then bad else good)) (test-md5 hash a k f l)
      ∙ verdict-last (same_bytes hash a.params.value) bad good
          (bad-last (record auth { why_fail = invalid_login }) a) (good-last auth message a h)

  md5-response :
      (auth : AuthData) (a : Auth)
      → a.want_peer_alg ≡ alg_md5
      → a.params.chal_data ≡ chal
      → auth.status ≡ undef
      → chap_input_finish c e auth a
        ≡ judge_response c e auth (some (response_to c auth.id a.params.password chal)) a
  unfolding chap_input_finish respond_as
  md5-response auth a k f st =
      ap (λ s. respond_as c e s auth a) st
      ∙ ap
          (λ (s : List ℕ × AuthParams).
            let (secret, params) = s in
            judge_response c e auth
              (chap_hash c e a.want_peer_alg auth.id a.params.authname secret a.params.chal_data
                (first 16 a.params.value))
              (record a { params = params }))
          (secret-md5 a.want_peer_alg a.params.password a.params k)
      ∙ ap
          (λ x.
            judge_response c e auth
              (chap_hash c e a.want_peer_alg auth.id a.params.authname a.params.password x
                (first 16 a.params.value))
              a)
          f
      ∙ ap (λ x. judge_response c e auth x a)
          (hash-md5 a.want_peer_alg auth.id a.params.authname a.params.password
            (first 16 a.params.value) k)

  pub responded-last :
      (auth : AuthData) (a : Auth)
      → a.want_self ≡ 0
      → a.want_peer_alg ≡ alg_md5
      → a.params.chal_data ≡ chal
      → 1 ≤ length chal
      → auth.status ≡ undef
      → last_call (chap_input_finish c e auth a)
        ≡ some (
            lcp_auth_result
              (same_bytes (response_to c auth.id a.params.password chal) a.params.value))
  responded-last auth a h k f l st =
      ap last_call (md5-response auth a k f st)
      ∙ judged-last auth (response_to c auth.id a.params.password chal) a h k f l

  pub failed-last :
      (auth : AuthData) (a : Auth)
      → auth.status ≡ fail
      → last_call (chap_input_finish c e auth a) ≡ some (lcp_auth_result false)
  unfolding chap_input_finish respond_as
  failed-last auth a st = ap (λ s. last_call (respond_as c e s auth a)) st ∙ bad-last auth a
