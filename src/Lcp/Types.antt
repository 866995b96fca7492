-- ===== src/Lcp/Types.antt =====
-- src/lcp.h: the state of LCP on a link, and what it reads from the link.
use mpdx.Common.{ℕ, Bool, Option, List, Mask}
use mpdx.Vars.{Options}
use mpdx.Fsm.Types.{State, FsmFail}

-- `enum lcp_phase`.
pub data Phase : Type 0 where
  dead establish authenticate network terminate : Phase

-- `struct lcpauthproto`; `conf` is the option of the link that stands for the protocol.
pub record AuthProto : Type 0 where
  pub proto : ℕ
  pub alg : ℕ
  pub conf : ℕ

-- `struct discrim`: `bytes` are the `len` bytes in use.
pub record Discrim : Type 0 where
  pub class : ℕ
  pub bytes : List ℕ

-- The control protocols of a bundle that a Protocol-Reject can stop.
pub data NetLayer : Type 0 where
  ccp ecp ipcp ipv6cp : NetLayer

-- The calls that LCP makes to the rest of the daemon. A call into its own state machine is one too:
-- the machine takes it as its next event.
pub data LinkCall : Type 0 where
  auth_start auth_stop auth_cleanup bund_leave bund_join phys_open phys_close ng_init ng_shutdown :
      LinkCall
  send_ident send_time_remaining : LinkCall
  set_accm : ℕ → ℕ → LinkCall
  shutdown_check : State → LinkCall
  down_reason : FsmFail → LinkCall
  login_failed peer_disconnected no_bundle fail_machine : LinkCall
  reset_redial : LinkCall
  fail_layer : NetLayer → LinkCall

-- What LCP reads from the link and its physical layer (src/link.h, src/phys.c), and the functions of the
-- rest of the daemon whose result it uses: the numbers that `GenerateMagic` returns one after the
-- other, and whether `BundJoin` takes the link.
pub record LinkInfo : Type 0 where
  pub options : Options
  -- `PhysGetMtu(l, 1)`, `PhysGetMru(l, 1)`, `PhysGetMru(l, 0)`, `l->type->mru`, and whether `l->type`
  -- is set, as it is on a link that gets frames.
  pub phys_mtu : ℕ
  pub phys_mru : ℕ
  pub phys_type_mru : ℕ
  pub type_mru : ℕ
  pub has_type : Bool
  pub accmap : ℕ
  pub mrru : ℕ
  pub originates : Bool
  pub is_sync : Bool
  pub self_discrim : Discrim
  pub is_repeated : Bool
  pub has_ident : Bool
  pub knows_remaining : Bool
  pub retry_timeout : ℕ
  pub has_bundle : Bool
  pub open_timer_started : Bool
  pub magics : ℕ → ℕ
  pub joins_bundle : Bool
  pub stack : List ℕ

-- `struct lcpstate` without its machine, the calls made, newest first, and whether an `assert` failed or a
-- NULL was read.
pub record Lcp : Type 0 where
  pub phase : Phase
  pub peer_protos : List (Option AuthProto)
  pub peer_accmap : ℕ
  pub peer_magic : ℕ
  pub peer_mru : ℕ
  pub peer_auth : ℕ
  pub peer_mrru : ℕ
  pub peer_alg : ℕ
  pub want_alg : ℕ
  pub want_protos : List (Option AuthProto)
  pub want_accmap : ℕ
  pub want_magic : ℕ
  pub want_mru : ℕ
  pub want_auth : ℕ
  pub want_mrru : ℕ
  pub want_protocomp : Bool
  pub want_acfcomp : Bool
  pub want_shortseq : Bool
  pub want_callback : Bool
  pub peer_protocomp : Bool
  pub peer_acfcomp : Bool
  pub peer_shortseq : Bool
  pub peer_discrim : Discrim
  pub peer_ident : List ℕ
  pub peer_reject : Mask
  pub need_reset : Bool
  pub in_bundle : Bool
  -- How many numbers were taken from `magics`.
  pub drawn : ℕ
  pub calls : List LinkCall
  pub aborted : Bool
