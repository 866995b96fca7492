-- ===== src/Fsm/Carry/Core.antt =====
-- The functions of Fsm/Core.antt, on a layer that keeps something in step with the state.
use mpdx.Common.{ℕ, true, Bool, false, Option, none, some, List, ◌≡◌, ◌∙◌, arith, if◌then◌else◌}
use mpdx.Fsm.Types.{State, Mode, FsmType, Machine, on_layer}
use mpdx.Fsm.Core.{
  start_timer, tell_new_state, new_state, fsm_output, fsm_layer_up, fsm_layer_down, fsm_layer_start,
  fsm_layer_finish, init_restart_counter, init_counters, decode_buffer, send_config_req,
  send_terminate_req, send_terminate_ack, send_config_ack, send_config_rej, send_config_nak,
}
use mpdx.Fsm.Carry.{may_move, Moved, Kept, Carries, At}

module _ {C : Type 0} {P : State → C → Type 0} where
  -- A machine with the same state and layer.
  pub At-same :
      {s : State} {m : Machine C} (n : Machine C)
      → n.state ≡ m.state
      → n.layer ≡ m.layer
      → At P s m
      → At P s n
  At-same {s} n e f h = record { state = e ∙ h.state; kept = rw f h.kept }

  At-handled :
      {s : State} {m : Machine C} (h : Option (C → C)) → Kept P h → At P s m → At P s (on_layer h m)
  At-handled none k a = a
  At-handled {s} {m} (some h) k a = record { state = a.state; kept = k s m.layer a.kept }

  pub At-start_timer : {s : State} {m : Machine C} → At P s m → At P s (start_timer m)
  unfolding start_timer
  At-start_timer {s} {m} a = At-same (start_timer m) (ground arith) (ground arith) a

  pub At-if :
      {s : State} {m n : Machine C} (b : Bool) → At P s m → At P s n → At P s (if b then m else n)
  At-if true h k = h
  At-if false h k = k

moved_choice :
    {C : Type 0} (P : State → C → Type 0) (h : Option (State → State → C → C)) (s t : State) (c : C)
    → Moved P h
    → may_move s t ≡ true
    → P s c
    → P t (tell_new_state h s t c)
moved_choice P none s t c k e p = k s t c e p
moved_choice P (some h) s t c k e p = k s t c e p

module _ {C : Type 0} (ty : FsmType C) {P : State → C → Type 0} (k : Carries ty P) where
  state-new_state : (t : State) (m : Machine C) → (new_state ty t m).state ≡ t
  unfolding new_state
  state-new_state t m = ground arith

  layer-new_state :
      (t : State) (m : Machine C)
      → (new_state ty t m).layer ≡ tell_new_state ty.on_new_state m.state t m.layer
  unfolding new_state
  layer-new_state t m = ground arith

  pub At-new_state :
      {s : State} {m : Machine C} (t : State)
      → At P s m
      → may_move s t ≡ true
      → At P t (new_state ty t m)
  At-new_state {s} {m} t a e = record {
    state = state-new_state t m;
    kept =
        rw (layer-new_state t m, a.state)
          (moved_choice P ty.on_new_state s t m.layer k.keeps_new_state e a.kept);
  }

  pub At-layer_up : {s : State} {m : Machine C} → At P s m → At P s (fsm_layer_up ty m)
  unfolding fsm_layer_up
  At-layer_up a = At-handled ty.on_layer_up k.layer_up record { state = a.state; kept = a.kept }

  pub At-layer_down : {s : State} {m : Machine C} → At P s m → At P s (fsm_layer_down ty m)
  unfolding fsm_layer_down
  At-layer_down a =
      At-handled ty.on_layer_down k.layer_down record { state = a.state; kept = a.kept }

  pub At-layer_start : {s : State} {m : Machine C} → At P s m → At P s (fsm_layer_start ty m)
  unfolding fsm_layer_start
  At-layer_start a =
      At-handled ty.on_layer_start k.layer_start record { state = a.state; kept = a.kept }

  pub At-layer_finish : {s : State} {m : Machine C} → At P s m → At P s (fsm_layer_finish ty m)
  unfolding fsm_layer_finish
  At-layer_finish a =
      At-handled ty.on_layer_finish k.layer_finish record { state = a.state; kept = a.kept }

  pub At-init_restart_counter :
      {s : State} {m : Machine C} (n : ℕ) → At P s m → At P s (init_restart_counter ty n m)
  unfolding init_restart_counter
  At-init_restart_counter n a = record { state = a.state; kept = a.kept }

  pub At-init_counters : {s : State} {m : Machine C} → At P s m → At P s (init_counters ty m)
  unfolding init_counters
  At-init_counters a = record { state = a.state; kept = a.kept }

  pub At-fsm_output :
      {s : State} {m : Machine C} (code id : ℕ) (payload : List ℕ)
      → At P s m
      → At P s (fsm_output ty code id payload m)
  unfolding fsm_output
  At-fsm_output code id payload a = record { state = a.state; kept = a.kept }

  pub At-decode_buffer :
      {s : State} {m : Machine C} (bytes : List ℕ) (mode : Mode)
      → At P s m
      → At P s (decode_buffer ty bytes mode m)
  unfolding decode_buffer
  At-decode_buffer {s} {m} bytes mode a = record {
    state = a.state;
    kept = k.decode _ mode _ s m.layer a.kept;
  }

  pub At-configure : {s : State} {m : Machine C} → At P s m → At P s (on_layer ty.configure m)
  At-configure a = At-handled ty.configure k.configure a

  pub At-un_configure : {s : State} {m : Machine C} → At P s m → At P s (on_layer ty.un_configure m)
  At-un_configure a = At-handled ty.un_configure k.un_configure a

  pub At-send_config_req : {s : State} {m : Machine C} → At P s m → At P s (send_config_req ty m)
  unfolding send_config_req
  At-send_config_req {s} {m} a =
      let built = record m { layer = (ty.build_config_req m.layer).1 } in
      let at_built : At P s built = record { state = a.state; kept = k.build s m.layer a.kept } in
      let request = (ty.build_config_req m.layer).0 in
      let at_decoded = At-decode_buffer request Mode.nop at_built in
      let timed =
        At-start_timer {P = P} (record { state = at_decoded.state; kept = at_decoded.kept }) in
      record { state = timed.state; kept = timed.kept }

  pub At-send_terminate_req :
      {s : State} {m : Machine C} → At P s m → At P s (send_terminate_req ty m)
  unfolding send_terminate_req
  At-send_terminate_req a =
      let told =
        At-handled ty.on_send_terminate_req k.keeps_terminate_req
          record { state = a.state; kept = a.kept } in
      let timed = At-start_timer told in record { state = timed.state; kept = timed.kept }

  pub At-send_terminate_ack :
      {s : State} {m : Machine C} → At P s m → At P s (send_terminate_ack ty m)
  unfolding send_terminate_ack
  At-send_terminate_ack a =
      At-handled ty.on_send_terminate_ack k.keeps_terminate_ack
        record { state = a.state; kept = a.kept }

  pub At-send_config_ack :
      {s : State} {m : Machine C} (id : ℕ) (os : List ℕ)
      → At P s m
      → At P s (send_config_ack ty id os m)
  unfolding send_config_ack
  At-send_config_ack id os a =
      let d = At-decode_buffer os Mode.nop a in record { state = d.state; kept = d.kept }

  pub At-send_config_rej :
      {s : State} {m : Machine C} (id : ℕ) (os : List ℕ)
      → At P s m
      → At P s (send_config_rej ty id os m)
  unfolding send_config_rej
  At-send_config_rej id os a =
      let d = At-decode_buffer os Mode.nop a in record { state = d.state; kept = d.kept }

  pub At-send_config_nak :
      {s : State} {m : Machine C} (id : ℕ) (os : List ℕ)
      → At P s m
      → At P s (send_config_nak ty id os m)
  unfolding send_config_nak
  At-send_config_nak id os a =
      let d = At-decode_buffer os Mode.nop a in record { state = d.state; kept = d.kept }
