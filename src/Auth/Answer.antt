-- ===== src/Auth/Answer.antt =====
-- The answer of src/chap.c to a challenge by MD5.
use mpdx.Common.{
  ℕ, zero, suc, ◌+◌, ◌≤◌, false, some, List, [], ◌∷◌, ◌++◌, length, ◌≡◌, refl, arith, u8, be16,
  from_be, le→ltb,
}
use mpdx.Fsm.Core.{packet}
use mpdx.Lcp.Types.{authenticate, Lcp}
use mpdx.Auth.Types.{first, AuthData, Auth, AuthConf, Crypto, chap_proto, alg_md5}
use mpdx.Auth.Core.{auth_data_new, auth_output}
use mpdx.Auth.Hash.{chap_hash, chap_get_secret, is_own_origin}
use mpdx.Auth.Chap.{chap_send_response}
use mpdx.Auth.ChapInput.{
  answer_with, answer_password, keep_answer, answer, take_challenge, chap_input,
}
use mpdx.Auth.Input.{input_as, auth_input}
use mpdx.Auth.Login.{sent, take_all, same_bytes_self}
use mpdx.Auth.PapLogin.{IsCaller}

-- `MD5` of an identifier, a password and a challenge.
abbrev pub response_to : Crypto → ℕ → List ℕ → List ℕ → List ℕ
response_to c id pass chal = first 16 (c.md5 (u8 id ∷ pass ++ chal))

-- A link that may be asked by MD5, and has sent no challenge itself.
pub record IsAsked (e : AuthConf) (lcp : Lcp) (a : Auth) (chal : List ℕ) : Type 0 where
  pub phase : lcp.phase ≡ authenticate
  pub by_md5 : a.want_self_alg ≡ alg_md5
  pub no_challenge : a.params.chal_data ≡ []
  pub other_side : is_own_origin e.originate chal ≡ false

pub length-first : (n : ℕ) (bs : List ℕ) → length (first n bs) ≡ n
unfolding first
length-first zero bs = refl
length-first (suc n) [] = omega (arith, length-first n [])
length-first (suc n) (b ∷ bs) = omega (arith, length-first n bs)

-- What `AuthInput` hands to `ChapInput`.
module _ (c : Crypto) (e : AuthConf) (lcp : Lcp) (a : Auth) where
  pub input-chap :
      (code id : ℕ) (body : List ℕ)
      → lcp.phase ≡ authenticate
      → length body ≤ 1000
      → auth_input c e lcp chap_proto (packet code id body) a
        ≡ chap_input c e lcp (auth_data_new chap_proto (u8 code) (u8 id) a) body a
  unfolding auth_input input_as
  input-chap code id body ph h =
      simp (ph, le→ltb (from_be 0 (be16 (length body + 4))) (length body + 4) (omega arith)) refl

-- The side that is asked.
module _ (c : Crypto) (from : AuthConf) (lcp : Lcp) where
  keep-md5 :
      (value hash : List ℕ) (s : Auth)
      → s.want_self_alg ≡ alg_md5
      → keep_answer c from lcp value hash s ≡ s
  unfolding keep_answer
  keep-md5 value hash s h = ground arith

  pub answer-md5 :
      (auth : AuthData) (name pass chal : List ℕ) (s : Auth)
      → s.want_self_alg ≡ alg_md5
      → answer c from lcp auth name chal (some pass) s
        ≡ answer_with c from lcp auth name chal s (some (response_to c auth.id pass chal))
  unfolding answer chap_get_secret chap_hash
  answer-md5 auth name pass chal s h = rw h refl

  pub answered-sent :
      (auth : AuthData) (name chal hash : List ℕ) (s : Auth)
      → lcp.phase ≡ authenticate
      → s.want_self_alg ≡ alg_md5
      → s.chap.proto ≡ chap_proto
      → length hash ≡ 16
      → sent (answer_with c from lcp auth name chal s (some hash))
        ≡ packet 2 (u8 auth.id) (u8 16 ∷ hash ++ name)
  unfolding chap_send_response auth_output
  answered-sent auth name chal hash s ph h k l = rw (keep-md5 chal hash s h, ph, k, l) refl

  pub taken-answer :
      (auth : AuthData) (peer_name chal : List ℕ) (s : Auth)
      → IsCaller from
      → auth.params.chal_data ≡ []
      → 1 ≤ length chal
      → is_own_origin from.originate chal ≡ false
      → take_challenge c from lcp auth (some (peer_name, chal)) s
        ≡ answer c from lcp auth from.authname chal (some from.password) s
  unfolding take_challenge answer_password
  taken-answer auth peer_name [] s k d h o = absurd (omega arith)
  taken-answer auth peer_name (b ∷ chal) s k d h o =
      rw
        (
          d,
          o,
          k.name_given,
          take_all 63 from.authname k.name_short,
          same_bytes_self from.authname,
          k.pass_given,
          take_all 63 from.password k.pass_short,
        )
        refl
