-- ===== src/Fsm/Carry.antt =====
-- What the layer behind a machine of src/fsm.c keeps in step with the machine's state: the moves that
-- `FsmNewState` is asked for, and what each handler of the layer has to do.
pub mod Core
pub mod Events
pub mod Receive
pub mod Step
use mpdx.Common.{ℕ, Bool, true, false, Option, none, some, List, ◌≡◌}
use mpdx.Fsm.Types.{
  State, initial, starting, closed, stopped, closing, stopping, req_sent, ack_rcvd, ack_sent,
  opened, FsmFail, Mode, FsmOption, Buffers, FsmType, Machine,
}

-- The pairs of an old and a new state with which src/fsm.c calls `FsmNewState`.
unfoldable pub may_move : State → State → Bool
may_move initial starting = true
may_move initial closed = true
may_move starting initial = true
may_move starting req_sent = true
may_move closed initial = true
may_move closed req_sent = true
may_move stopped starting = true
may_move stopped closed = true
may_move stopped req_sent = true
may_move stopped ack_sent = true
may_move closing initial = true
may_move closing closed = true
may_move closing stopping = true
may_move stopping starting = true
may_move stopping stopped = true
may_move stopping closing = true
may_move req_sent starting = true
may_move req_sent stopped = true
may_move req_sent closing = true
may_move req_sent ack_rcvd = true
may_move req_sent ack_sent = true
may_move ack_rcvd starting = true
may_move ack_rcvd stopped = true
may_move ack_rcvd closing = true
may_move ack_rcvd req_sent = true
may_move ack_rcvd opened = true
may_move ack_sent starting = true
may_move ack_sent stopped = true
may_move ack_sent closing = true
may_move ack_sent req_sent = true
may_move ack_sent opened = true
may_move opened starting = true
may_move opened closing = true
may_move opened stopping = true
may_move opened req_sent = true
may_move opened ack_sent = true
may_move _ _ = false

module _ {C : Type 0} where
  -- A handler keeps `P`; a NULL one does.
  abbrev pub Kept : (State → C → Type 0) → Option (C → C) → Type 0
  Kept P none = Unit {0}
  Kept P (some h) = (s : State) (c : C) → P s c → P s (h c)

  abbrev pub KeptOn : {A : Type 0} → (State → C → Type 0) → Option (A → C → C) → Type 0
  KeptOn P none = Unit {0}
  KeptOn {A} P (some h) = (a : A) (s : State) (c : C) → P s c → P s (h a c)

  abbrev pub KeptOn2 : {A B : Type 0} → (State → C → Type 0) → Option (A → B → C → C) → Type 0
  KeptOn2 P none = Unit {0}
  KeptOn2 {A} {B} P (some h) = (a : A) (b : B) (s : State) (c : C) → P s c → P s (h a b c)

  abbrev pub KeptVerdict : (State → C → Type 0) → Option (ℕ → List ℕ → C → Bool × C) → Type 0
  KeptVerdict P none = Unit {0}
  KeptVerdict P (some h) = (n : ℕ) (body : List ℕ) (s : State) (c : C) → P s c → P s (h n body c).1

  abbrev pub Moved : (State → C → Type 0) → Option (State → State → C → C) → Type 0
  Moved P none = (s t : State) (c : C) → may_move s t ≡ true → P s c → P t c
  Moved P (some h) = (s t : State) (c : C) → may_move s t ≡ true → P s c → P t (h s t c)

-- The layer keeps `P` about the machine's state and its own.
pub record Carries {C : Type 0} (ty : FsmType C) (P : State → C → Type 0) : Type 0 where
  pub keeps_new_state : Moved P ty.on_new_state
  pub layer_up : Kept P ty.on_layer_up
  pub layer_down : Kept P ty.on_layer_down
  pub layer_start : Kept P ty.on_layer_start
  pub layer_finish : Kept P ty.on_layer_finish
  pub build : (s : State) (c : C) → P s c → P s (ty.build_config_req c).1
  pub decode :
      (os : List FsmOption) (mode : Mode) (b : Buffers) (s : State) (c : C)
      → P s c
      → P s (ty.decode_config os mode b c).1
  pub configure : Kept P ty.configure
  pub un_configure : Kept P ty.un_configure
  pub keeps_terminate_req : Kept P ty.on_send_terminate_req
  pub keeps_terminate_ack : Kept P ty.on_send_terminate_ack
  pub code_rej : KeptVerdict P ty.on_code_rej
  pub proto_rej : KeptVerdict P ty.on_proto_rej
  pub failure : KeptOn P ty.on_failure
  pub reset_req : KeptOn2 P ty.on_reset_req
  pub reset_ack : KeptOn2 P ty.on_reset_ack
  pub ident : KeptOn P ty.on_ident
  pub disc_req : KeptOn P ty.on_disc_req
  pub time_remain : KeptOn P ty.on_time_remain
  pub vendor : KeptOn P ty.on_vendor
  pub peer_disc : (s : State) (c : C) → P s c → P s (ty.record_peer_disc c)

-- The machine is in state `s`, and `P` holds of it and the layer.
pub record At {C : Type 0} (P : State → C → Type 0) (s : State) (m : Machine C) : Type 0 where
  pub state : m.state ≡ s
  pub kept : P s m.layer

-- `P` holds of the machine's state and the layer.
pub record InStep {C : Type 0} (P : State → C → Type 0) (m : Machine C) : Type 0 where
  pub kept : P m.state m.layer
