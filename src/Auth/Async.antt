-- ===== src/Auth/Async.antt =====
-- src/auth.c: the thread that asks for a password, `AuthAsyncStart`, `AuthAsync` and `AuthAsyncFinish`.
use mpdx.Common.{ℕ, Bool, true, false, Option, none, some, List, drop, take, if◌then◌else◌}
use mpdx.Vars.{enabled}
use mpdx.Auth.Types.{
  codes, same_bytes, AuthStatus, undef, fail, success, busy, invalid_login, not_expected, Finish,
  pap_finish, chap_finish, AuthData, phys_close, forwarded, Auth, Matched, unmatched, drop_link,
  repeat_to, AuthConf, Crypto,
}
use mpdx.Auth.Core.{call, empty_params, auth_pre_checks}
use mpdx.Auth.Pap.{pap_input_finish}
use mpdx.Auth.Chap.{chap_input_finish}

-- The parts of `AuthAsync` that ask other programs: a script, which may end in an error, RADIUS, PAM and the
-- accounts of the system.
pub record Backends : Type 0 where
  pub external : AuthData → Option AuthData
  pub radius : AuthData → Option AuthData
  pub pam : AuthData → AuthData
  pub system : AuthData → AuthData

-- Whether a backend settles the authentication, where it may leave it to the comparison with the password.
abbrev pub is_settled : AuthStatus → Bool
is_settled success = true
is_settled undef = true
is_settled _ = false

abbrev pub is_success : AuthStatus → Bool
is_success success = true
is_success _ = false

abbrev pub tried : Bool → AuthData → (AuthData → AuthData) → AuthData
tried settled auth next = if settled then auth else next auth

-- `AuthInternal`.
abbrev pub found : Option (List ℕ) → AuthData → AuthData
found none auth = record auth { status = fail; why_fail = invalid_login }
found (some password) auth = record auth {
  status = undef;
  params = record auth.params { password = password };
}

unfoldable pub auth_internal : AuthConf → AuthData → AuthData
auth_internal e auth = found (e.get_data auth.params.authname) auth

abbrev pub by : ℕ → AuthData → AuthData
by backend auth = record auth { params = record auth.params { authentic = backend } }

-- `AuthAsync` for PAP and CHAP, in the build with PAM and the system's accounts and without OPIE: the backends
-- in their order.
unfoldable pub try_internal : AuthConf → AuthData → AuthData
unfolding auth_internal
try_internal e auth =
    let refused = λ (d : AuthData). record d { status = fail; why_fail = invalid_login } in
    if enabled e.options 3
    then (let d = auth_internal e (by 3 auth) in tried (is_settled d.status) d refused)
    else refused auth

unfoldable pub try_system : Backends → AuthConf → AuthData → AuthData
unfolding try_internal
try_system b e auth =
    if enabled e.options 6
    then (let d = b.system (by 6 auth) in tried (is_settled d.status) d (try_internal e))
    else try_internal e auth

unfoldable pub try_pam : Backends → AuthConf → AuthData → AuthData
unfolding try_system
try_pam b e auth =
    if enabled e.options 8
    then (let d = b.pam (by 8 auth) in tried (is_settled d.status) d (try_system b e))
    else try_system b e auth

abbrev pub radius_result : Backends → AuthConf → AuthData → Option AuthData → AuthData
radius_result b e asked none = try_pam b e asked
radius_result b e asked (some d) = tried (is_success d.status) d (try_pam b e)

unfoldable pub try_radius : Backends → AuthConf → AuthData → AuthData
unfolding try_pam
try_radius b e auth =
    if enabled e.options 1
    then radius_result b e (by 1 auth) (b.radius (by 1 auth))
    else try_pam b e auth

abbrev pub external_result : Backends → AuthConf → AuthData → Option AuthData → AuthData
external_result b e asked none = try_radius b e asked
external_result b e asked (some d) = tried (is_settled d.status) d (try_radius b e)

unfoldable pub auth_async : Backends → AuthConf → AuthData → AuthData
unfolding try_radius
auth_async b e auth =
    if enabled e.options 4
    then external_result b e (by 4 auth) (b.external (by 4 auth))
    else try_radius b e auth

-- A call of `finish`.
unfoldable pub run_finish : Crypto → AuthConf → Finish → AuthData → Auth → Auth
unfolding pap_input_finish chap_input_finish
run_finish c e pap_finish auth a = pap_input_finish auth a
run_finish c e chap_finish auth a = chap_input_finish c e auth a

abbrev pub is_running : Option AuthData → Bool
is_running none = false
is_running (some _) = true

abbrev pub checked : Crypto → AuthConf → AuthData → Auth → Option AuthData → Auth
checked c e auth a (some refused) = run_finish c e auth.finish refused a
checked c e auth a none =
    if e.thread_starts
    then record a { thread = some auth }
    else run_finish c e auth.finish (record auth { status = fail; why_fail = not_expected }) a

-- The end of `AuthAsyncStart`, from the test of the thread on.
unfoldable pub begin_thread : Crypto → AuthConf → AuthData → Auth → Auth
unfolding run_finish auth_pre_checks
begin_thread c e auth a =
    if is_running a.thread
    then run_finish c e auth.finish (record auth { status = busy }) a
    else checked c e auth a (auth_pre_checks e auth)

-- A link that goes on as a repeater: `RepCreate`, `RepIncoming`, `LinkNgToRep`, `LcpDown`, `LcpClose`.
abbrev pub forward : AuthConf → List ℕ → Auth → Auth
forward e to a = if e.rep_fails to then call phys_close a else call (forwarded to) a

-- `AuthAsyncStart`.
unfoldable pub start_as : Crypto → AuthConf → Matched → AuthData → Auth → Auth
unfolding begin_thread
start_as c e drop_link auth a = call phys_close a
start_as c e (repeat_to to) auth a = forward e to a
start_as c e unmatched auth a = begin_thread c e auth a

unfoldable pub auth_async_start : Crypto → AuthConf → AuthData → Auth → Auth
unfolding start_as
auth_async_start c e auth a = start_as c e (e.match_action auth.params.authname) auth a

-- `AuthAsyncFinish` on a link that is still there. `paction` has cleared `thread` before; a cancelled thread
-- ends without effect.
unfoldable pub auth_async_finish : Crypto → AuthConf → AuthData → Auth → Auth
unfolding run_finish same_bytes
auth_async_finish c e auth a =
    let moved = record a { thread = none; params = auth.params } in
    let left = record auth { params = empty_params } in
    if same_bytes auth.params.action (codes "drop")
    then run_finish c e auth.finish (record left { status = fail; why_fail = invalid_login }) moved
    else if same_bytes (take 8 auth.params.action) (codes "forward ")
    then forward e (drop 8 auth.params.action) moved
    else run_finish c e auth.finish left moved
