-- ===== src/Fsm/Types.antt =====
-- src/fsm.h: the states, codes and records of the option-negotiation state machine.
use mpdx.Common.{ℕ, Bool, Option, none, some, List}
use mpdx.Timer.{Timer}

-- `enum fsm_state`.
pub data State : Type 0 where
  initial starting closed stopped closing stopping req_sent ack_rcvd ack_sent opened : State

-- `MODE_REQ`, `MODE_NAK`, `MODE_REJ`, `MODE_NOP`.
pub data Mode : Type 0 where
  req nak rej nop : Mode

-- `enum fsmfail`.
pub data FsmFail : Type 0 where
  negot_failure recd_badmagic recd_coderej recd_protrej was_protrej echo_timedout cant_encrypt :
      FsmFail

-- The codes `CODE_VENDOR` to `CODE_RESETACK`, 0 to 15.
pub data Code : Type 0 where
  vendor config_req config_ack config_nak config_rej term_req term_ack code_rej proto_rej : Code
  echo_req echo_rep disc_req ident time_rem reset_req reset_ack : Code

-- `struct fsmconf`: the counters are `short`s, kept as their bit patterns.
pub record FsmConf : Type 0 where
  pub maxconfig : ℕ
  pub maxterminate : ℕ
  pub maxfailure : ℕ
  pub echo_int : ℕ
  pub echo_max : ℕ
  pub check_magic : Bool
  pub passive : Bool

-- `struct fsmoption`: the list holds the `len - 2` bytes behind `data`.
pub record FsmOption : Type 0 where
  pub type : ℕ
  pub len : ℕ
  pub bytes : List ℕ

-- `gAckBuf`, `gNakBuf`, `gRejBuf`: the bytes in use, whose number is `gAckSize` and so on.
pub record Buffers : Type 0 where
  pub acks : List ℕ
  pub naks : List ℕ
  pub rejs : List ℕ

-- What the machine does to the outside: the RFC 1661 layer actions, and frames written to the
-- link (`true`) or to the bundle (`false`) under a protocol number.
pub data Action : Type 0 where
  layer_up layer_down layer_start layer_finish : Action
  frame : Bool → ℕ → List ℕ → Action

-- `struct fsmtype` with the link or bundle `arg` of type `C`. A handler that may be NULL is an
-- option. The layer's own files implement these: a handler acts on the layer's state `C` alone.
pub record FsmType (C : Type 0) : Type 0 where
  pub proto : ℕ
  pub known_codes : ℕ
  pub link_layer : Bool
  pub on_new_state : Option (State → State → C → C)
  pub on_layer_up : Option (C → C)
  pub on_layer_down : Option (C → C)
  pub on_layer_start : Option (C → C)
  pub on_layer_finish : Option (C → C)
  pub build_config_req : C → List ℕ × C
  pub decode_config : List FsmOption → Mode → Buffers → C → Buffers × C
  pub configure : Option (C → C)
  pub un_configure : Option (C → C)
  pub on_send_terminate_req : Option (C → C)
  pub on_send_terminate_ack : Option (C → C)
  pub on_code_rej : Option (ℕ → List ℕ → C → Bool × C)
  pub on_proto_rej : Option (ℕ → List ℕ → C → Bool × C)
  pub on_failure : Option (FsmFail → C → C)
  pub on_reset_req : Option (ℕ → List ℕ → C → C)
  pub on_reset_ack : Option (ℕ → List ℕ → C → C)
  pub on_ident : Option (List ℕ → C → C)
  pub on_disc_req : Option (List ℕ → C → C)
  pub on_time_remain : Option (List ℕ → C → C)
  pub on_vendor : Option (List ℕ → C → C)
  -- `RecordLinkUpDownReason` with `STR_PEER_DISC`, on a link.
  pub record_peer_disc : C → C
  -- What the machine reads through `arg`: the magic numbers of LCP, the retry timeout in
  -- seconds, and whether a link belongs to a bundle.
  pub want_magic : C → ℕ
  pub peer_magic : C → ℕ
  pub retry_timeout : C → ℕ
  pub has_bundle : C → Bool
  -- The four bytes that an uninitialised `peer_magic` holds.
  pub stack : C → List ℕ

-- `struct fsm`, the global option buffers, the layer's state behind `arg`, and the actions done,
-- newest first. `aborted` is set where an `assert` fails.
pub record Machine (C : Type 0) : Type 0 where
  pub conf : FsmConf
  pub state : State
  pub reqid : ℕ
  pub rejid : ℕ
  pub echoid : ℕ
  pub restart : ℕ
  pub failure : ℕ
  pub config : ℕ
  pub quiet_count : ℕ
  pub timer : Timer
  pub echo_timer : Timer
  pub idle_frames : ℕ
  pub buffers : Buffers
  pub layer : C
  pub actions : List Action
  pub aborted : Bool

-- An operation on the machine, and operations in sequence.
abbrev pub Op : Type 0 → Type 0
Op C = Machine C → Machine C

infixl 5 ◌>>◌
abbrev pub ◌>>◌ : {C : Type 0} → Op C → Op C → Op C
◌>>◌ f g m = g (f m)

-- Runs an optional handler on the layer's state.
abbrev pub on_layer : {C : Type 0} → Option (C → C) → Op C
on_layer none m = m
on_layer (some h) m = record m { layer = h m.layer }
