-- ===== src/Auth/PapLogin.antt =====
-- A login by src/pap.c: the request of one side, judged by the other.
use mpdx.Common.{
  ℕ, ◌+◌, ◌≤◌, Bool, true, false, Option, none, some, List, [], ◌∷◌, ◌++◌, length, length-append,
  take-append, drop-append, ◌≡◌, refl, ap, ◌∙◌, arith, u8, be16, from_be, Bool-cases, inl, inr,
  le→ltb,
}
use mpdx.Fsm.Core.{packet}
use mpdx.Lcp.Types.{Lcp}
use mpdx.Auth.Types.{
  same_bytes, pap_finish, AuthData, lcp_auth_result, Auth, unmatched, AuthConf, Crypto, pap_proto,
}
use mpdx.Auth.Core.{is_empty, empty_params, auth_data_new, auth_output, auth_finish}
use mpdx.Auth.Pap.{
  request_password, request_body, pap_send_request, password_of, pap_fields, good_request,
  bad_request, finish_as, pap_input_finish,
}
use mpdx.Auth.Async.{Backends, by, found, auth_async_finish, run_finish}
use mpdx.Auth.PapInput.{take_request, pap_request, pap_input}
use mpdx.Auth.Input.{input_as, auth_input}
use mpdx.Auth.Login.{
  IsReady, settle, last_call, sent, NoNul, c_string-NoNul, take_all, same_bytes_self, start-thread,
  async-internal, finish-run,
}

fields-name :
    (m : ℕ) (name rest : List ℕ)
    → m ≡ length name
    → 1 ≤ length rest
    → pap_fields (m ∷ name ++ rest) ≡ password_of name rest
unfolding pap_fields
fields-name m name rest e h =
    ground (arith, length-append name rest, take-append name rest m e, drop-append name rest m e)

fields-pass :
    (m : ℕ) (name pass : List ℕ)
    → m ≡ length pass
    → NoNul name
    → NoNul pass
    → password_of name (m ∷ pass) ≡ some (name, pass)
unfolding password_of
fields-pass m name pass e n p =
    ground (arith, take_all m pass (omega (arith, e)), c_string-NoNul name n, c_string-NoNul pass p)

-- The fields that a request is read as are those that were written.
pub fields-body :
    (name pass : List ℕ)
    → length name ≤ 255
    → length pass ≤ 255
    → NoNul name
    → NoNul pass
    → pap_fields (u8 (length name) ∷ name ++ u8 (length pass) ∷ pass) ≡ some (name, pass)
fields-body name pass h k n p =
    fields-name (u8 (length name)) name (u8 (length pass) ∷ pass) (omega arith) (omega arith)
    ∙ fields-pass (u8 (length pass)) name pass (omega arith) n p

-- Whether the secret that was found is the password.
abbrev pub judged : Option (List ℕ) → List ℕ → Bool
judged none pass = false
judged (some secret) pass = same_bytes secret pass

good_request-last :
    (auth : AuthData) (a : Auth)
    → a.want_self ≡ 0
    → last_call (good_request auth a) ≡ some (lcp_auth_result true)
unfolding good_request auth_finish
good_request-last auth a h = rw h refl

-- The end of a login, where the request gave a name and a password.
finished :
    (x : Option (List ℕ)) (auth : AuthData) (a : Auth) (name pass : List ℕ)
    → a.want_self ≡ 0
    → auth.params.authname ≡ name
    → auth.params.peer_name ≡ name
    → auth.params.peer_pass ≡ pass
    → last_call (
        pap_input_finish
          (record (found x auth) { params = empty_params })
          (record a { thread = none; params = (found x auth).params }))
      ≡ some (lcp_auth_result (judged x pass))
unfolding pap_input_finish finish_as bad_request auth_finish
finished none auth a name pass h e f g = refl
finished (some secret) auth a name pass h e f g = elim (Bool-cases (same_bytes secret pass)) [
  | inl t ↦ rw (e, f, g, same_bytes_self name, t, h) refl
  | inr t ↦ rw (e, f, g, same_bytes_self name, t) refl
]

-- A caller that logs in by PAP: what it sends as its name and password.
pub record IsCaller (e : AuthConf) : Type 0 where
  pub name_short : length e.authname ≤ 63
  pub name_given : is_empty e.authname ≡ false
  pub name_text : NoNul e.authname
  pub pass_short : length e.password ≤ 63
  pub pass_given : is_empty e.password ≡ false
  pub pass_text : NoNul e.password

abbrev body_of : AuthConf → List ℕ
body_of e = u8 (length e.authname) ∷ e.authname ++ u8 (length e.password) ∷ e.password

body-request : (e : AuthConf) → IsCaller e → request_body e ≡ body_of e
unfolding request_body request_password
body-request e k = simp (k.pass_given, take_all 63 e.password k.pass_short) refl

module _ (c : Crypto) (b : Backends) (e from : AuthConf) (lcp : Lcp) (a : Auth)
    (r : IsReady e lcp pap_proto a) (k : IsCaller from)
    (free : e.match_action from.authname ≡ unmatched) where
  -- What the thread works on after the request.
  abbrev asked : ℕ → AuthData
  asked id = record (auth_data_new pap_proto 1 id a) {
    finish = pap_finish;
    params = record a.params {
      peer_name = from.authname;
      peer_pass = from.password;
      authname = from.authname;
      password = [];
    };
  }

  request-taken :
      (auth : AuthData) (pkt : List ℕ)
      → pap_request c e lcp auth pkt a ≡ take_request c e lcp auth (pap_fields pkt) a
  unfolding pap_request
  request-taken auth pkt = simp r.want_peer refl

  taken-asked :
      (id : ℕ)
      → take_request c e lcp
          (auth_data_new pap_proto 1 id a)
          (some (from.authname, from.password))
          a
        ≡ record a { thread = some (asked id) }
  unfolding take_request auth_data_new
  taken-asked id =
      simp (take_all 63 from.authname k.name_short, take_all 63 from.password k.pass_short)
        (start-thread c b e lcp pap_proto a r (asked id) k.name_given free)

  request-asked :
      (id : ℕ)
      → pap_request c e lcp (auth_data_new pap_proto 1 id a) (body_of from) a
        ≡ record a { thread = some (asked id) }
  request-asked id =
      request-taken (auth_data_new pap_proto 1 id a) (body_of from)
      ∙ ap (λ x. take_request c e lcp (auth_data_new pap_proto 1 id a) x a)
          (fields-body from.authname from.password (omega (arith, k.name_short))
            (omega (arith, k.pass_short)) k.name_text k.pass_text)
      ∙ taken-asked id

  found-finished :
      (x : Option (List ℕ)) (id : ℕ) (t : Option AuthData)
      → last_call (auth_async_finish c e (found x (by 3 (asked id))) (record a { thread = t }))
        ≡ some (lcp_auth_result (judged x from.password))
  unfolding run_finish
  found-finished none id t =
      ap last_call (finish-run c b e lcp pap_proto a r (found none (by 3 (asked id))) t r.action)
      ∙ finished none (by 3 (asked id)) a from.authname from.password r.want_self refl refl refl
  found-finished (some secret) id t =
      ap last_call
        (finish-run c b e lcp pap_proto a r (found (some secret) (by 3 (asked id))) t r.action)
      ∙ finished (some secret) (by 3 (asked id)) a from.authname from.password r.want_self refl refl
          refl

  settle-asked :
      (id : ℕ)
      → last_call (settle c b e (record a { thread = some (asked id) }))
        ≡ some (lcp_auth_result (judged (e.get_data from.authname) from.password))
  settle-asked id =
      rw (async-internal c b e lcp pap_proto a r (asked id))
        (found-finished (e.get_data from.authname) id (some (asked id)))

  input-request :
      (id : ℕ) (body : List ℕ)
      → length body ≤ 1000
      → auth_input c e lcp pap_proto (packet 1 id body) a
        ≡ pap_request c e lcp (auth_data_new pap_proto 1 (u8 id) a) body a
  unfolding auth_input input_as pap_input
  input-request id body h =
      simp (r.phase, le→ltb (from_be 0 (be16 (length body + 4))) (length body + 4) (omega arith))
        refl

  length-body_of : length (body_of from) ≤ 1000
  length-body_of = omega (
    arith,
    length-append from.authname (u8 (length from.password) ∷ from.password),
    k.name_short,
    k.pass_short,
  )

  sent-request :
      (client : Auth)
      → sent (pap_send_request from client) ≡ packet 1 client.pap.next_id (body_of from)
  unfolding pap_send_request auth_output
  sent-request client = ap (packet 1 client.pap.next_id) (body-request from k)

  -- A PAP request with a name and a password of 1 to 63 bytes without NUL, taken by a link that has only this peer
  -- to authenticate, asks its file of secrets alone and has no limit of logins and no action for the name, ends in
  -- what LCP is told: success exactly where the file has the name with that password.
  pub pap_login :
      (client : Auth)
      → last_call
          (settle c b e (auth_input c e lcp pap_proto (sent (pap_send_request from client)) a))
        ≡ some (lcp_auth_result (judged (e.get_data from.authname) from.password))
  pap_login client =
      rw
        (
          sent-request client,
          input-request client.pap.next_id (body_of from) length-body_of,
          request-asked (u8 client.pap.next_id),
        )
        (settle-asked (u8 client.pap.next_id))
