-- ===== src/Auth/Core.antt =====
-- src/auth.c: what PAP and CHAP share, from `AuthOutput` to `AuthFailMsg` and `AuthDataNew`.
use mpdx.Common.{
  ℕ, suc, Bool, true, false, not, ◌&&◌, ◌||◌, Option, none, some, List, [], ◌∷◌, ◌++◌, length, leb,
  ◌==◌, if◌then◌else◌, u8,
}
use mathlib.Core.List.{map}
use mpdx.Timer.{Timer, timer_stop}
use mpdx.Vars.{lower}
use mpdx.Fsm.Core.{packet}
use mpdx.Auth.Types.{
  codes, strlcpy, same_bytes, Direction, peer_to_self, self_to_peer, undef, fail, WhyFail,
  invalid_login, acct_disabled, no_permission, restricted_hours, invalid_packet, not_expected,
  AuthParams, AuthData, pap_finish, AuthCall, write_frame, lcp_auth_result, eap_stop, Auth,
  AuthConf, chap_proto, eap_proto, alg_msoft, alg_msoft_v2,
}

abbrev pub call : AuthCall → Auth → Auth
call c a = record a { calls = c ∷ a.calls }

-- `TimerStart`, whose `assert` may fail.
abbrev pub started : Option Timer → Timer → Timer
started none t = t
started (some t) _ = t

-- `AuthOutput`, where `add_len` asks for the length of the message in front of it.
unfoldable pub auth_output : ℕ → ℕ → ℕ → List ℕ → Bool → ℕ → Auth → Auth
unfolding packet
auth_output proto code id message add_len eap_type a =
    let counted = if add_len then u8 (length message) ∷ message else message in
    let typed = if proto == eap_proto then u8 eap_type ∷ counted else counted in
    call (write_frame proto (packet code id typed)) a

-- `PapStop`, `ChapStop`.
unfoldable pub pap_stop : Auth → Auth
unfolding timer_stop
pap_stop a = record a { pap = record a.pap { timer = timer_stop a.pap.timer } }

unfoldable pub chap_stop : Auth → Auth
unfolding timer_stop
chap_stop a = record a {
  chap = record a.chap {
    chal_timer = timer_stop a.chap.chal_timer;
    resp_timer = timer_stop a.chap.resp_timer;
    resp = none;
  };
}

-- `AuthStop`: a thread that is cancelled ends without effect.
unfoldable pub auth_stop : Auth → Auth
unfolding timer_stop pap_stop chap_stop
auth_stop a =
    record (call eap_stop (chap_stop (pap_stop (record a { timer = timer_stop a.timer })))) {
      thread = none;
    }

-- `AuthFinish`.
abbrev pub done_with : Direction → Auth → Auth
done_with self_to_peer a = record a { want_self = 0 }
done_with peer_to_self a = record a { want_peer = 0 }

unfoldable pub auth_finish : Direction → Bool → Auth → Auth
unfolding auth_stop
auth_finish which ok a =
    let b = done_with which a in
    if not ok
    then call (lcp_auth_result false) (auth_stop b)
    else if b.want_peer == 0 && b.want_self == 0
    then call (lcp_auth_result true) (auth_stop b)
    else b

-- `AuthTimeout`.
unfoldable pub auth_timeout : Auth → Auth
unfolding auth_stop
auth_timeout a = call (lcp_auth_result false) (auth_stop a)

abbrev pub empty_params : AuthParams
empty_params = record {
  authname = [];
  password = [];
  peer_name = [];
  peer_pass = [];
  chal_data = [];
  value = [];
  action = [];
  authentic = 0;
  chap_alg = 0;
  has_nt_hash = false;
  nt_hash = [];
  nt_hash_hash = [];
  lm_hash = [];
  ms_chal = [];
  nt_resp = [];
}

-- `AuthCleanup`.
pub auth_cleanup : Auth → Auth
auth_cleanup a = record a { params = empty_params }

-- `AuthDataNew` and what `AuthInput` sets; `Malloc` clears the memory. `finish` is NULL here in the code, and is set
-- before it is called.
unfoldable pub auth_data_new : ℕ → ℕ → ℕ → Auth → AuthData
auth_data_new proto code id a = record {
  proto = proto;
  alg = 0;
  id = id;
  code = code;
  status = undef;
  why_fail = invalid_login;
  reply_message = none;
  mschap_error = none;
  mschapv2resp = none;
  finish = pap_finish;
  params = a.params;
}

abbrev pub or_else {ℓ} : {A : Type ℓ} → Option A → A → A
or_else none a = a
or_else (some b) _ = b

-- The texts of `AuthFailMsg` for Microsoft's CHAP and for the others.
unfoldable pub ms_message : WhyFail → List ℕ × List ℕ
ms_message acct_disabled = (codes "E=647 R=0 M=", codes "Account disabled")
ms_message no_permission = (codes "E=649 R=0 M=", codes "Login not allowed for this account")
ms_message restricted_hours = (codes "E=646 R=0 M=", codes "Login hours restricted")
ms_message _ = (codes "E=691 R=0 M=", codes "Login incorrect")

unfoldable pub plain_message : WhyFail → List ℕ
plain_message acct_disabled = codes "Account disabled"
plain_message no_permission = codes "Login not allowed for this account"
plain_message restricted_hours = codes "Login hours restricted"
plain_message not_expected = codes "Unexpected packet"
plain_message invalid_packet = codes "Incorrectly formatted packet"
plain_message invalid_login = codes "Login incorrect"

unfoldable pub is_ms_alg : ℕ → Bool
is_ms_alg alg = alg == alg_msoft || alg == alg_msoft_v2

-- `AuthFailMsg` into the 64 bytes of its callers.
unfoldable pub auth_fail_msg : AuthData → List ℕ
unfolding ms_message plain_message is_ms_alg
auth_fail_msg auth =
    let (head, text) = ms_message auth.why_fail in
    if auth.proto == chap_proto && is_ms_alg auth.alg
    then strlcpy 64 (or_else auth.mschap_error (head ++ or_else auth.reply_message text))
    else strlcpy 64 (or_else auth.reply_message (plain_message auth.why_fail))

-- The logins of `AuthPreChecks` under a name.
unfoldable pub same_login : Bool → List ℕ → List ℕ → Bool
unfolding same_bytes
same_login true a b = same_bytes (map lower a) (map lower b)
same_login false a b = same_bytes a b

unfoldable pub count_logins : Bool → List ℕ → List (List ℕ) → ℕ
unfolding same_login
count_logins ci name [] = 0
count_logins ci name (n ∷ ns) =
    let rest = count_logins ci name ns in if same_login ci n name then suc rest else rest

abbrev pub is_empty : List ℕ → Bool
is_empty [] = true
is_empty (_ ∷ _) = false

-- `AuthPreChecks`: `none` for 0.
unfoldable pub auth_pre_checks : AuthConf → AuthData → Option AuthData
unfolding count_logins
auth_pre_checks e auth =
    let refused = record auth { status = fail; why_fail = invalid_login } in
    if is_empty auth.params.authname
    then some refused
    else if e.max_logins == 0
    then none
    else if leb e.max_logins (count_logins e.max_logins_ci auth.params.authname e.open_names)
    then some refused
    else none
