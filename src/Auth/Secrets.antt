-- ===== src/Auth/Secrets.antt =====
-- src/auth.c: `AuthGetData`, the search of the file of secrets. The lines are the words of the file that
-- `ParseLine` makes; the program that a secret with `!` names is a parameter.
use mpdx.Common.{
  ℕ, Bool, true, false, ◌&&◌, ◌||◌, Option, none, some, List, [], ◌∷◌, ◌++◌, drop, ◌≡◌, refl, ap,
  ◌∙◌, ◌==◌, if◌then◌else◌,
}
use mpdx.Lcp.Types.{Lcp}
use mpdx.Auth.Types.{
  strlcpy, same_bytes, lcp_auth_result, Auth, AuthConf, Crypto, unmatched, pap_proto,
}
use mpdx.Auth.Core.{is_empty}
use mpdx.Auth.Pap.{pap_send_request}
use mpdx.Auth.Async.{Backends}
use mpdx.Auth.Input.{auth_input}
use mpdx.Auth.Login.{IsReady, settle, last_call, sent, same_bytes_self}
use mpdx.Auth.PapLogin.{judged, IsCaller, pap_login}

-- A secret of another program.
abbrev pub is_command : List ℕ → Bool
is_command [] = false
is_command (b ∷ _) = b == 33

-- The line is for that name, or for any name by another program.
unfoldable pub line_matches : List ℕ → List (List ℕ) → Bool
unfolding same_bytes
line_matches name (user ∷ secret ∷ _) =
    same_bytes user name || (is_command secret && same_bytes user (42 ∷ []))
line_matches name _ = false

-- The secret of a line that matches.
unfoldable pub line_secret :
    (List ℕ → List ℕ → Option (List ℕ)) → List ℕ → List (List ℕ) → Option (List ℕ)
line_secret command name (_ ∷ secret ∷ _) =
    if is_command secret then command (drop 1 secret) name else some (strlcpy 64 secret)
line_secret command name _ = none

unfoldable pub find_secret :
    (List ℕ → List ℕ → Option (List ℕ)) → List ℕ → List (List (List ℕ)) → Option (List ℕ)
unfolding line_matches line_secret
find_secret command name [] = none
find_secret command name (line ∷ lines) =
    if line_matches name line then line_secret command name line else find_secret command name lines

-- `AuthGetData` into an array of 64 bytes, of a file that may be missing.
unfoldable pub auth_get_data :
    (List ℕ → List ℕ → Option (List ℕ)) → Option (List (List (List ℕ))) → List ℕ → Option (List ℕ)
unfolding find_secret
auth_get_data command none name = none
auth_get_data command (some lines) name =
    if is_empty name then none else find_secret command name lines

module _ (command : List ℕ → List ℕ → Option (List ℕ)) (name : List ℕ) where
  abbrev pub NoneMatch : List (List (List ℕ)) → Type 0
  NoneMatch [] = Unit {0}
  NoneMatch (line ∷ lines) = (line_matches name line ≡ false) × NoneMatch lines

  find_secret-first :
      (before after : List (List (List ℕ))) (line : List (List ℕ))
      → NoneMatch before
      → line_matches name line ≡ true
      → find_secret command name (before ++ line ∷ after) ≡ line_secret command name line
  unfolding find_secret
  find_secret-first [] after line n m = rw m refl
  find_secret-first (l ∷ before) after line n m = rw n.0 (find_secret-first before after line n.1 m)

module _ (c : Crypto) (b : Backends) (e from : AuthConf) (lcp : Lcp) (a : Auth)
    (r : IsReady e lcp pap_proto a) (k : IsCaller from)
    (free : e.match_action from.authname ≡ unmatched) (command : List ℕ → List ℕ → Option (List ℕ))
    (before after : List (List (List ℕ))) (secret : List ℕ) (more : List (List ℕ)) where
  -- The file in which the caller's line is the first one that matches its name.
  abbrev pub secrets : Option (List (List (List ℕ)))
  secrets = some (before ++ (from.authname ∷ secret ∷ more) ∷ after)

  own_line-matches : line_matches from.authname (from.authname ∷ secret ∷ more) ≡ true
  unfolding line_matches
  own_line-matches = rw (same_bytes_self from.authname) refl

  own_line-secret :
      is_command secret ≡ false
      → line_secret command from.authname (from.authname ∷ secret ∷ more) ≡ some (strlcpy 64 secret)
  unfolding line_secret
  own_line-secret own = rw own refl

  file-searched :
      auth_get_data command secrets from.authname
      ≡ find_secret command from.authname (before ++ (from.authname ∷ secret ∷ more) ∷ after)
  unfolding auth_get_data
  file-searched = rw k.name_given refl

  secret-found :
      NoneMatch command from.authname before
      → is_command secret ≡ false
      → auth_get_data command secrets from.authname ≡ some (strlcpy 64 secret)
  secret-found n own =
      file-searched
      ∙ find_secret-first command from.authname before after (from.authname ∷ secret ∷ more) n
          own_line-matches
      ∙ own_line-secret own

  -- A caller by PAP, with a name and a password of 1 to 63 bytes without NUL, is let in by a link that has only
  -- this peer to authenticate, asks its file of secrets alone and has no limit of logins and no action for the
  -- name, exactly where its password is the secret, cut to 63 bytes, of the first line of the file that matches
  -- the name, which is a line of this name and not one that names a program.
  pub login_by_file :
      (client : Auth)
      → e.get_data from.authname ≡ auth_get_data command secrets from.authname
      → NoneMatch command from.authname before
      → is_command secret ≡ false
      → last_call
          (settle c b e (auth_input c e lcp pap_proto (sent (pap_send_request from client)) a))
        ≡ some (lcp_auth_result (same_bytes (strlcpy 64 secret) from.password))
  login_by_file client file n own =
      pap_login c b e from lcp a r k free client
      ∙ ap (λ found. some (lcp_auth_result (judged found from.password)))
          (file ∙ secret-found n own)
