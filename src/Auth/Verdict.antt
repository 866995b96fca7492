-- ===== src/Auth/Verdict.antt =====
-- The verdict of src/chap.c on a response by MD5.
use mpdx.Common.{
  ℕ, ◌≤◌, Bool, false, not, ◌&&◌, Option, none, some, List, ◌∷◌, ◌++◌, length, ◌≡◌, refl, ap, sym,
  ◌∙◌, arith, if◌then◌else◌, u8,
}
use mpdx.Timer.{timer_stop}
use mpdx.Lcp.Types.{Lcp}
use mpdx.Auth.Types.{
  strlcpy, same_bytes, chap_finish, AuthData, lcp_auth_result, Auth, unmatched, AuthConf, Crypto,
  chap_proto, alg_md5,
}
use mpdx.Auth.Core.{is_ms_alg, is_empty, empty_params, auth_data_new}
use mpdx.Auth.Hash.{strip_domain, chap_parse_pkt}
use mpdx.Auth.Async.{Backends, by, found, auth_async_start, auth_async_finish, run_finish}
use mpdx.Auth.ChapInput.{login_name, take_response, chap_input}
use mpdx.Auth.Login.{
  IsReady, settle, last_call, NoNul, c_string-NoNul, take_all, start-thread, async-internal,
  finish-run,
}
use mpdx.Auth.Answer.{response_to}
use mpdx.Auth.Challenge.{parse-pkt}
use mpdx.Auth.Judge.{failed-last, responded-last}

-- Whether a value is the response to the secret that was found.
abbrev pub answers : Crypto → ℕ → List ℕ → Option (List ℕ) → List ℕ → Bool
answers c id chal none value = false
answers c id chal (some secret) value = same_bytes (response_to c id secret chal) value

-- The side that asks, from the response on.
module _ (c : Crypto) (b : Backends) (e : AuthConf) (lcp : Lcp) (a : Auth) (chal : List ℕ)
    (r : IsReady e lcp chap_proto a) (md5 : a.want_peer_alg ≡ alg_md5)
    (made : a.params.chal_data ≡ chal) (some_bytes : 1 ≤ length chal) (name hash : List ℕ)
    (short : length name ≤ 63) (text : NoNul name) (given : is_empty name ≡ false)
    (free : e.match_action name ≡ unmatched) (long : length hash ≡ 16) where
  -- The link when the response has come.
  abbrev waiting : Auth
  waiting = record a {
    chap = record a.chap { proto = chap_proto; chal_timer = timer_stop a.chap.chal_timer };
  }

  waiting-IsReady : IsReady e lcp chap_proto waiting
  waiting-IsReady = record {
    phase = r.phase;
    want_peer = r.want_peer;
    want_self = r.want_self;
    thread = r.thread;
    action = r.action;
    external_off = r.external_off;
    radius_off = r.radius_off;
    pam_off = r.pam_off;
    system_off = r.system_off;
    internal_on = r.internal_on;
    no_limit = r.no_limit;
    starts = r.starts;
  }

  abbrev asked : ℕ → AuthData
  asked id = record (auth_data_new chap_proto 2 id a) {
    alg = a.want_peer_alg;
    finish = chap_finish;
    params = record a.params { value = hash; authname = name };
  }

  response-parsed : chap_parse_pkt (u8 16 ∷ hash ++ name) ≡ some (name, hash)
  response-parsed =
      ap (λ m. chap_parse_pkt (u8 m ∷ hash ++ name)) (sym long)
      ∙ parse-pkt hash name (omega (arith, long)) (omega (arith, long)) (omega arith)
      ∙ ap (λ n. some (n, hash)) (c_string-NoNul name text)

  input-response :
      (auth : AuthData) (pkt : List ℕ)
      → auth.code ≡ 2
      → auth.proto ≡ chap_proto
      → chap_input c e lcp auth pkt a ≡ take_response c e lcp auth (chap_parse_pkt pkt) waiting
  unfolding chap_input
  input-response auth pkt two proto = simp (two, proto) refl

  login_kept : strlcpy 64 (login_name c e lcp waiting name) ≡ name
  unfolding is_ms_alg
  login_kept =
      ap
        (λ (alg : ℕ).
          strlcpy 64 (if not e.keeps_domain && is_ms_alg alg then strip_domain name else name))
        md5
      ∙ ap (λ (k : Bool). strlcpy 64 (if k then strip_domain name else name))
          (never (not e.keeps_domain))
      ∙ take_all 63 name short
    where
      never : (k : Bool) → (k && false) ≡ false
      never k = ground arith

  response-taken :
      (id : ℕ)
      → take_response c e lcp (auth_data_new chap_proto 2 id a) (some (name, hash)) waiting
        ≡ record waiting { thread = some (asked id) }
  unfolding take_response auth_data_new
  response-taken id =
      ap
        (λ (n : List ℕ).
          auth_async_start c e
            (record (asked id) { params = record a.params { value = hash; authname = n } }) waiting)
        login_kept
      ∙ start-thread c b e lcp chap_proto waiting waiting-IsReady (asked id) given free

  response-asked :
      (id : ℕ)
      → chap_input c e lcp (auth_data_new chap_proto 2 id a) (u8 16 ∷ hash ++ name) a
        ≡ record waiting { thread = some (asked id) }
  unfolding auth_data_new
  response-asked id =
      let auth = auth_data_new chap_proto 2 id a in
      input-response auth (u8 16 ∷ hash ++ name) refl refl
      ∙ ap (λ x. take_response c e lcp auth x waiting) response-parsed
      ∙ response-taken id

  found-judged :
      (x : Option (List ℕ)) (id : ℕ) (t : Option AuthData)
      → last_call
          (auth_async_finish c e (found x (by 3 (asked id))) (record waiting { thread = t }))
        ≡ some (lcp_auth_result (answers c id chal x hash))
  unfolding run_finish auth_data_new
  found-judged none id t =
      ap last_call (
        finish-run c b e lcp chap_proto waiting waiting-IsReady (found none (by 3 (asked id))) t
          r.action)
      ∙ failed-last c e chal (record (found none (by 3 (asked id))) { params = empty_params })
          (record waiting { params = (found none (by 3 (asked id))).params; thread = none }) refl
  found-judged (some secret) id t =
      let d = found (some secret) (by 3 (asked id)) in
      ap last_call (finish-run c b e lcp chap_proto waiting waiting-IsReady d t r.action)
      ∙ responded-last c e chal (record d { params = empty_params })
          (record waiting { params = d.params; thread = none }) r.want_self md5 made some_bytes refl

  -- The verdict on a response.
  pub response-settled :
      (id : ℕ)
      → last_call (
          settle c b e
            (chap_input c e lcp (auth_data_new chap_proto 2 id a) (u8 16 ∷ hash ++ name) a))
        ≡ some (lcp_auth_result (answers c id chal (e.get_data name) hash))
  response-settled id =
      rw (response-asked id, async-internal c b e lcp chap_proto waiting waiting-IsReady (asked id))
        (found-judged (e.get_data name) id (some (asked id)))
