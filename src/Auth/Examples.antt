-- ===== src/Auth/Examples.antt =====
-- A link that is called and asks for a login, its caller, and the properties of src/auth.c, src/pap.c and src/chap.c
-- at them.
use mpdx.Common.{
  ℕ, ◌+◌, ◌*◌, ◌≤◌, true, false, none, some, List, [], ◌∷◌, ◌++◌, length, ◌==◌, ◌≡◌, refl, inl,
  arith, u8, ltb, if◌then◌else◌,
}
use mpdx.Timer.{zeroed}
use mpdx.Lcp.Types.{authenticate, Lcp}
use mpdx.Lcp.Request.{lcp_init}
use mpdx.Auth.Types.{
  same_bytes, codes, c_string, self_to_peer, lcp_auth_result, Auth, unmatched, AuthConf, Crypto,
  chap_proto, pap_proto, alg_md5,
}
use mpdx.Auth.Core.{empty_params, auth_data_new}
use mpdx.Auth.Pap.{pap_start, pap_send_request}
use mpdx.Auth.Retries.{is_waiting, expirations, requests, pap_gives_up}
use mpdx.Auth.Hash.{chap_gen_random, chap_parse_pkt, is_own_origin}
use mpdx.Auth.Chap.{send_challenge}
use mpdx.Auth.Async.{Backends}
use mpdx.Auth.ChapInput.{chap_input}
use mpdx.Auth.Input.{auth_start, auth_input}
use mpdx.Auth.Login.{IsReady, settle, last_call, sent}
use mpdx.Auth.Challenge.{chap_parse_pkt_bounds, chap_input-reflected}
use mpdx.Auth.Unexpected.{welcome, unexpected_pap-accepted}
use mpdx.Auth.Secrets.{auth_get_data, login_by_file}
use mpdx.Auth.PapLogin.{IsCaller, judged, pap_login}
use mpdx.Auth.Answer.{response_to, IsAsked}
use mpdx.Auth.Verdict.{answers}
use mpdx.Auth.ChapLogin.{chap_login}

abbrev server : AuthConf
server = record {
  authname = codes "mpd";
  password = [];
  options = record { enable = λ k. k == 3; accept = λ k. false };
  timeout = 40;
  retry_timeout = 2;
  originate = 2;
  keeps_domain = false;
  get_data = λ name. some (codes "secret");
  random = λ k. k * 7 + 1;
  match_action = λ name. unmatched;
  rep_fails = λ name. false;
  thread_starts = true;
  open_names = [];
  max_logins = 0;
  max_logins_ci = false;
  stack = [];
}

abbrev caller : AuthConf
caller = record server { authname = codes "ann"; password = codes "secret"; originate = 1 }

-- Sums in place of hashes.
abbrev sum : List ℕ → ℕ
sum [] = 0
sum (b ∷ bs) = b + sum bs

abbrev sums : Crypto
sums = record {
  md5 = λ bs. u8 (sum bs) ∷ [];
  nt_password_hash = λ bs. u8 (sum bs) ∷ [];
  nt_password_hash_hash = λ bs. u8 (sum bs) ∷ [];
  lm_password_hash = λ bs. u8 (sum bs) ∷ [];
  nt_challenge_response = λ chal hash. u8 (sum chal + sum hash) ∷ [];
  generate_nt_response = λ chal peer name hash. u8 (sum chal + sum peer + sum hash) ∷ [];
  authenticator_response = λ hash resp peer chal name. u8 (sum hash + sum resp) ∷ [];
}

abbrev backends : Backends
backends = record { external = λ d. none; radius = λ d. none; pam = λ d. d; system = λ d. d }

abbrev authenticating : ℕ → Lcp
authenticating proto = record lcp_init {
  phase = authenticate;
  want_auth = proto;
  peer_auth = 0;
  want_alg = alg_md5;
}

abbrev idle : Auth
idle = record {
  want_peer = 0;
  want_self = 0;
  want_peer_alg = 0;
  want_self_alg = 0;
  timer = zeroed;
  pap = record { next_id = 1; retry = 0; timer = zeroed };
  chap = record {
    proto = chap_proto;
    next_id = 1;
    retry = 0;
    chal_timer = zeroed;
    resp_timer = zeroed;
    resp = none;
    resp_id = 0;
  };
  thread = none;
  params = empty_params;
  drawn = 0;
  calls = [];
  aborted = false;
}

abbrev expecting : ℕ → Auth
expecting proto = record idle { want_peer = proto; want_peer_alg = alg_md5 }

abbrev chal : List ℕ
chal = 9 ∷ 8 ∷ 7 ∷ 6 ∷ []

abbrev asker : Auth
asker = record (expecting chap_proto) { params = record empty_params { chal_data = chal } }

abbrev asked : Auth
asked = record idle { want_self_alg = alg_md5 }

ready :
    (proto : ℕ) (a : Auth)
    → a.want_peer ≡ proto
    → a.want_self ≡ 0
    → a.thread ≡ none
    → a.params.action ≡ []
    → IsReady server (authenticating proto) proto a
ready proto a p s t n = record {
  phase = refl;
  want_peer = p;
  want_self = s;
  thread = t;
  action = n;
  external_off = refl;
  radius_off = refl;
  pam_off = refl;
  system_off = refl;
  internal_on = refl;
  no_limit = refl;
  starts = refl;
}

caller-IsCaller : IsCaller caller
caller-IsCaller = record {
  name_short = omega arith;
  name_given = refl;
  name_text = omega arith;
  pass_short = omega arith;
  pass_given = refl;
  pass_text = omega arith;
}

asked-IsAsked : IsAsked caller (authenticating 0) asked chal
unfolding is_own_origin
asked-IsAsked = record { phase = refl; by_md5 = refl; no_challenge = refl; other_side = refl }

unexpected_pap-accepted_example :
    (auth_input sums server
      (authenticating chap_proto)
      pap_proto
      (1 ∷ 5 ∷ 0 ∷ 6 ∷ 0 ∷ 0 ∷ [])
      (auth_start server (authenticating chap_proto) idle)).calls
    ≡ welcome 5 (auth_start server (authenticating chap_proto) idle).calls
unexpected_pap-accepted_example =
    unexpected_pap-accepted sums server (authenticating chap_proto) 5 0 6 (0 ∷ 0 ∷ []) idle refl
      refl refl (omega arith)

pap_login_example :
    last_call (
      settle sums backends server (
        auth_input sums server
          (authenticating pap_proto)
          pap_proto
          (sent (pap_send_request caller idle))
          (expecting pap_proto)))
    ≡ some (lcp_auth_result (judged (some (codes "secret")) (codes "secret")))
pap_login_example =
    pap_login sums backends server caller (authenticating pap_proto) (expecting pap_proto)
      (ready pap_proto (expecting pap_proto) refl refl refl refl) caller-IsCaller refl idle

-- A file with a line for another name and two for the caller.
abbrev other_line : List (List ℕ)
other_line = codes "eve" ∷ codes "other" ∷ []

login_by_file_example :
    last_call (
      settle sums backends server (
        auth_input sums server
          (authenticating pap_proto)
          pap_proto
          (sent (pap_send_request caller idle))
          (expecting pap_proto)))
    ≡ some (lcp_auth_result (same_bytes (codes "secret") (codes "secret")))
unfolding auth_get_data
login_by_file_example =
    login_by_file sums backends server caller (authenticating pap_proto) (expecting pap_proto)
      (ready pap_proto (expecting pap_proto) refl refl refl refl) caller-IsCaller refl (λ p n. none)
      (other_line ∷ []) ((caller.authname ∷ codes "later" ∷ []) ∷ []) (codes "secret") [] idle refl
      (refl, tt) refl

chap_login_example :
    last_call (
      settle sums backends server (
        auth_input sums server
          (authenticating chap_proto)
          chap_proto
          (sent (
            auth_input sums caller
              (authenticating 0)
              chap_proto
              (sent (send_challenge server asker))
              asked))
          (send_challenge server asker)))
    ≡ some (
        lcp_auth_result (
          answers sums
            (u8 1)
            chal
            (some (codes "secret"))
            (response_to sums (u8 1) (codes "secret") chal)))
chap_login_example =
    chap_login sums backends server caller (authenticating chap_proto) (authenticating 0) asker
      asked chal (ready chap_proto asker refl refl refl refl) refl refl refl (omega arith)
      (omega arith) (omega arith) caller-IsCaller asked-IsAsked refl

chap_input-reflected_example :
    chap_input sums caller
      (authenticating 0)
      (auth_data_new chap_proto 1 3 asked)
      (u8 16 ∷ chap_gen_random caller 4 16 ++ codes "mpd")
      asked
    ≡ record asked { chap = record asked.chap { proto = chap_proto } }
unfolding auth_data_new
chap_input-reflected_example =
    chap_input-reflected sums caller caller (authenticating 0) (auth_data_new chap_proto 1 3 asked)
      asked 4 16 (codes "mpd") refl refl (inl refl) (omega arith) (omega arith) (omega arith)

chap_parse_pkt_bounds_example :
    (1 ≤ length {A = ℕ} (7 ∷ 9 ∷ []))
    × (length {A = ℕ} (7 ∷ 9 ∷ []) ≤ 64)
    × ((rest : List ℕ) × ((2 ∷ 7 ∷ 9 ∷ codes "ann") ≡ length {A = ℕ} (7 ∷ 9 ∷ []) ∷ 7 ∷ 9 ∷ rest)
        × (length rest ≤ 64)
        × (codes "ann" ≡ c_string rest))
unfolding chap_parse_pkt
chap_parse_pkt_bounds_example =
    chap_parse_pkt_bounds (2 ∷ 7 ∷ 9 ∷ codes "ann") (codes "ann") (7 ∷ 9 ∷ []) refl

pap_gives_up_example :
    ((expirations caller 7 (pap_start caller self_to_peer idle)).calls
      ≡ requests caller (if ltb 7 4 then 7 + 1 else 5) ++ idle.calls)
    × (is_waiting (expirations caller 7 (pap_start caller self_to_peer idle)) ≡ ltb 7 5)
pap_gives_up_example = pap_gives_up caller idle 7
