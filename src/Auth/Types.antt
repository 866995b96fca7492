-- ===== src/Auth/Types.antt =====
-- src/auth.h, src/pap.h, src/chap.h: the state of the authentication of a link, and what it reads from the rest
-- of the daemon. A string is the list of its bytes without the NUL.
use Prim.Native.Char.{code}
use Prim.Native.String.{String}
use mpdx.Common.{
  ℕ, zero, suc, ◌-◌, Bool, true, false, Option, List, [], ◌∷◌, take, ◌==◌, ◌&&◌, if◌then◌else◌,
}
use mpdx.Timer.{Timer}
use mpdx.Vars.{Options}

abbrev pub codes : String → List ℕ
codes String.[] = []
codes (String.◌∷◌ c s) = code c ∷ codes s

-- The string that bytes of memory hold: they are read up to a NUL.
unfoldable pub c_string : List ℕ → List ℕ
c_string [] = []
c_string (b ∷ bs) = let rest = b ∷ c_string bs in if b == 0 then [] else rest

-- `strlcpy` into an array of `size` bytes.
abbrev pub strlcpy : ℕ → List ℕ → List ℕ
strlcpy size s = take (size - 1) s

-- The first `n` bytes of memory; memory that the model does not know reads as 0.
unfoldable pub first : ℕ → List ℕ → List ℕ
first zero bs = []
first (suc n) [] = 0 ∷ first n []
first (suc n) (b ∷ bs) = b ∷ first n bs

-- `strcmp` or `memcmp` is 0.
unfoldable pub same_bytes : List ℕ → List ℕ → Bool
same_bytes [] [] = true
same_bytes (a ∷ xs) (b ∷ ys) = a == b && same_bytes xs ys
same_bytes _ _ = false

-- `AUTH_PEER_TO_SELF`, `AUTH_SELF_TO_PEER`.
pub data Direction : Type 0 where
  peer_to_self self_to_peer : Direction

-- `AUTH_STATUS_*`, `AUTH_FAIL_*`.
pub data AuthStatus : Type 0 where
  undef fail success busy : AuthStatus

pub data WhyFail : Type 0 where
  invalid_login acct_disabled no_permission restricted_hours invalid_packet not_expected : WhyFail

-- `struct authparams`, as far as PAP and CHAP read it. `chal_data` has `chal_len` bytes and `value` has
-- `value_len`.
pub record AuthParams : Type 0 where
  pub authname : List ℕ
  pub password : List ℕ
  pub peer_name : List ℕ
  pub peer_pass : List ℕ
  pub chal_data : List ℕ
  pub value : List ℕ
  pub action : List ℕ
  pub authentic : ℕ
  pub chap_alg : ℕ
  pub has_nt_hash : Bool
  pub nt_hash : List ℕ
  pub nt_hash_hash : List ℕ
  pub lm_hash : List ℕ
  pub ms_chal : List ℕ
  pub nt_resp : List ℕ

-- `PapInputFinish`, `ChapInputFinish`: the values of `finish`.
pub data Finish : Type 0 where
  pap_finish chap_finish : Finish

-- `struct authdata`, less the copy of the settings.
pub record AuthData : Type 0 where
  pub proto : ℕ
  pub alg : ℕ
  pub id : ℕ
  pub code : ℕ
  pub status : AuthStatus
  pub why_fail : WhyFail
  pub reply_message : Option (List ℕ)
  pub mschap_error : Option (List ℕ)
  pub mschapv2resp : Option (List ℕ)
  pub finish : Finish
  pub params : AuthParams

-- `struct papinfo`, `struct chapinfo`.
pub record PapInfo : Type 0 where
  pub next_id : ℕ
  pub retry : ℕ
  pub timer : Timer

pub record ChapInfo : Type 0 where
  pub proto : ℕ
  pub next_id : ℕ
  pub retry : ℕ
  pub chal_timer : Timer
  pub resp_timer : Timer
  pub resp : Option (List ℕ)
  pub resp_id : ℕ

-- The calls to the rest of the daemon, newest first in the state: `NgFuncWritePppFrameLink`,
-- `LcpAuthResult`, `PhysClose`, `RepCreate` with the calls behind it, and EAP.
pub data AuthCall : Type 0 where
  write_frame : ℕ → List ℕ → AuthCall
  lcp_auth_result : Bool → AuthCall
  phys_close : AuthCall
  forwarded : List ℕ → AuthCall
  eap_start : Direction → AuthCall
  eap_input : AuthData → List ℕ → AuthCall
  eap_stop : AuthCall

-- `struct auth` less its settings. `thread` is what the thread of an authentication works on. `drawn` says how
-- many numbers were taken from `random`, and `aborted` that an `assert` failed.
pub record Auth : Type 0 where
  pub want_peer : ℕ
  pub want_self : ℕ
  pub want_peer_alg : ℕ
  pub want_self_alg : ℕ
  pub timer : Timer
  pub pap : PapInfo
  pub chap : ChapInfo
  pub thread : Option AuthData
  pub params : AuthParams
  pub drawn : ℕ
  pub calls : List AuthCall
  pub aborted : Bool

-- What `LinkMatchAction` finds for a name: nothing, `##DROP##`, or a repeater.
pub data Matched : Type 0 where
  unmatched drop_link : Matched
  repeat_to : List ℕ → Matched

-- The settings of the link and the functions of the daemon and the system that authentication calls: the
-- password that `AuthGetData` finds in the file of secrets, `random`, `LinkMatchAction`, whether `RepCreate` and
-- `paction_start` succeed, the names of the open bundles, and memory that is read before it is written.
pub record AuthConf : Type 0 where
  pub authname : List ℕ
  pub password : List ℕ
  pub options : Options
  pub timeout : ℕ
  pub retry_timeout : ℕ
  pub originate : ℕ
  pub keeps_domain : Bool
  pub get_data : List ℕ → Option (List ℕ)
  pub random : ℕ → ℕ
  pub match_action : List ℕ → Matched
  pub rep_fails : List ℕ → Bool
  pub thread_starts : Bool
  pub open_names : List (List ℕ)
  pub max_logins : ℕ
  pub max_logins_ci : Bool
  pub stack : List ℕ

-- The hashes of OpenSSL and of src/msoft.c.
pub record Crypto : Type 0 where
  pub md5 : List ℕ → List ℕ
  pub nt_password_hash : List ℕ → List ℕ
  pub nt_password_hash_hash : List ℕ → List ℕ
  pub lm_password_hash : List ℕ → List ℕ
  -- `NTChallengeResponse` of a challenge and a hash.
  pub nt_challenge_response : List ℕ → List ℕ → List ℕ
  -- `GenerateNTResponse` of the challenge, the peer's challenge, the name and the hash.
  pub generate_nt_response : List ℕ → List ℕ → List ℕ → List ℕ → List ℕ
  -- `GenerateAuthenticatorResponse` of the hash, the response, the peer's challenge, the challenge, the name.
  pub authenticator_response : List ℕ → List ℕ → List ℕ → List ℕ → List ℕ → List ℕ

abbrev pub pap_proto : ℕ
pap_proto = 0xc023

abbrev pub chap_proto : ℕ
chap_proto = 0xc223

abbrev pub eap_proto : ℕ
eap_proto = 0xc227

abbrev pub alg_md5 : ℕ
alg_md5 = 0x05

abbrev pub alg_msoft : ℕ
alg_msoft = 0x80

abbrev pub alg_msoft_v2 : ℕ
alg_msoft_v2 = 0x81

abbrev pub auth_retries : ℕ
auth_retries = 5
