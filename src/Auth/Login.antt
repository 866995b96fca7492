-- ===== src/Auth/Login.antt =====
-- A login from its first packet to the verdict, where the passwords of src/auth.c are those of the file of secrets.
use mpdx.Common.{
  ℕ, ◌≤◌, true, false, Option, none, some, List, [], ◌∷◌, length, take, ◌≡◌, refl, ap, arith, suc,
  zero,
}
use mpdx.Vars.{enabled}
use mpdx.Lcp.Types.{authenticate, Lcp}
use mpdx.Auth.Types.{
  c_string, same_bytes, fail, invalid_login, AuthData, AuthCall, write_frame, Auth, unmatched,
  AuthConf, Crypto,
}
use mpdx.Auth.Core.{empty_params, is_empty, auth_pre_checks}
use mpdx.Auth.Async.{
  Backends, by, tried, is_settled, found, auth_internal, try_internal, try_system, try_pam,
  try_radius, auth_async, run_finish, begin_thread, start_as, auth_async_start, auth_async_finish,
}

-- A link that authenticates its peer by `proto` and has nothing to prove itself, with the file of secrets alone, no
-- limit of logins and no actions.
pub record IsReady (e : AuthConf) (lcp : Lcp) (proto : ℕ) (a : Auth) : Type 0 where
  pub phase : lcp.phase ≡ authenticate
  pub want_peer : a.want_peer ≡ proto
  pub want_self : a.want_self ≡ 0
  pub thread : a.thread ≡ none
  pub action : a.params.action ≡ []
  pub external_off : enabled e.options 4 ≡ false
  pub radius_off : enabled e.options 1 ≡ false
  pub pam_off : enabled e.options 8 ≡ false
  pub system_off : enabled e.options 6 ≡ false
  pub internal_on : enabled e.options 3 ≡ true
  pub no_limit : e.max_logins ≡ 0
  pub starts : e.thread_starts ≡ true

-- The thread runs to its end.
abbrev pub settle : Crypto → Backends → AuthConf → Auth → Auth
settle c b e a = elim a.thread [
  | none ↦ a
  | some auth ↦ auth_async_finish c e (auth_async b e auth) a
]

abbrev pub last_call : Auth → Option AuthCall
last_call a = elim a.calls [ [] ↦ none | x ∷ xs ↦ some x ]

-- The frame that was sent last.
abbrev pub sent : Auth → List ℕ
sent a = elim a.calls [ [] ↦ [] | x ∷ xs ↦ elim x [ write_frame proto bytes ↦ bytes | _ ↦ [] ] ]

abbrev pub NoNul : List ℕ → Type 0
NoNul [] = Unit
NoNul (b ∷ bs) = (1 ≤ b) × NoNul bs

pub c_string-NoNul : (s : List ℕ) → NoNul s → c_string s ≡ s
unfolding c_string
c_string-NoNul [] h = refl
c_string-NoNul (b ∷ bs) h = ground (arith, c_string-NoNul bs)

pub take_all : (n : ℕ) (s : List ℕ) → length s ≤ n → take n s ≡ s
take_all zero [] h = refl
take_all zero (b ∷ bs) h = absurd (omega arith)
take_all (suc n) [] h = refl
take_all (suc n) (b ∷ bs) h = ap (λ t. b ∷ t) (take_all n bs (omega arith))

pub same_bytes_self : (s : List ℕ) → same_bytes s s ≡ true
unfolding same_bytes
same_bytes_self [] = refl
same_bytes_self (b ∷ bs) = ground (arith, same_bytes_self bs)

found-tried :
    (x : Option (List ℕ)) (auth : AuthData)
    → tried
        (is_settled (found x auth).status)
        (found x auth)
        (λ d. record d { status = fail; why_fail = invalid_login })
      ≡ found x auth
found-tried none auth = refl
found-tried (some password) auth = refl

module _ (c : Crypto) (b : Backends) (e : AuthConf) (lcp : Lcp) (proto : ℕ) (a : Auth)
    (r : IsReady e lcp proto a) where
  pub start-thread :
      (auth : AuthData)
      → is_empty auth.params.authname ≡ false
      → e.match_action auth.params.authname ≡ unmatched
      → auth_async_start c e auth a ≡ record a { thread = some auth }
  unfolding auth_async_start start_as begin_thread auth_pre_checks
  start-thread auth named free = simp (free, r.thread, named, r.no_limit, r.starts) refl

  pub async-internal :
      (auth : AuthData) → auth_async b e auth ≡ found (e.get_data auth.params.authname) (by 3 auth)
  unfolding auth_async try_radius try_pam try_system try_internal auth_internal
  async-internal auth =
      simp (r.external_off, r.radius_off, r.pam_off, r.system_off, r.internal_on)
        (found-tried (e.get_data auth.params.authname) (by 3 auth))

  pub finish-run :
      (auth : AuthData) (t : Option AuthData)
      → auth.params.action ≡ []
      → auth_async_finish c e auth (record a { thread = t })
        ≡ run_finish c e auth.finish
            (record auth { params = empty_params })
            (record a { thread = none; params = auth.params })
  unfolding auth_async_finish
  finish-run auth t none_set = simp none_set refl
