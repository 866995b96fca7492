-- ===== src/Fsm/View/Core.antt =====
-- The functions of Fsm/Core.antt against the abstract machine.
use mpdx.Common.{ℕ, Option, none, some, List, ◌≡◌, refl, arith}
use mpdx.Fsm.Types.{State, Mode, FsmType, Machine, on_layer}
use mpdx.Fsm.Core.{
  start_timer, new_state, fsm_output, fsm_layer_up, fsm_layer_down, fsm_layer_start,
  fsm_layer_finish, init_restart_counter, init_counters, decode_buffer, send_config_req,
  send_terminate_req, send_terminate_ack, send_config_ack, send_config_rej, send_config_nak,
}
use mpdx.Fsm.View.{
  view, enter, arm, told_up, told_down, set_restart, set_counters, use_id, sent_request,
  sent_terminate, sent_refusal,
}

pub view-on_layer : {C : Type 0} (h : Option (C → C)) (m : Machine C) → view (on_layer h m) ≡ view m
unfolding view
view-on_layer none m = refl
view-on_layer (some h) m = refl

pub view-start_timer : {C : Type 0} (m : Machine C) → view (start_timer m) ≡ arm (view m)
unfolding view start_timer arm
view-start_timer m = ground arith

module _ {C : Type 0} (ty : FsmType C) where
  pub view-new_state : (s : State) (m : Machine C) → view (new_state ty s m) ≡ enter s (view m)
  unfolding view new_state enter
  view-new_state s m = ground arith

  pub view-fsm_output :
      (code id : ℕ) (payload : List ℕ) (m : Machine C)
      → view (fsm_output ty code id payload m) ≡ view m
  unfolding view fsm_output
  view-fsm_output code id payload m = ground arith

  pub view-layer_up : (m : Machine C) → view (fsm_layer_up ty m) ≡ told_up (view m)
  unfolding view fsm_layer_up told_up
  view-layer_up m = ground arith

  pub view-layer_down : (m : Machine C) → view (fsm_layer_down ty m) ≡ told_down (view m)
  unfolding view fsm_layer_down told_down
  view-layer_down m = ground arith

  pub view-layer_start : (m : Machine C) → view (fsm_layer_start ty m) ≡ view m
  unfolding view fsm_layer_start
  view-layer_start m = ground arith

  pub view-layer_finish : (m : Machine C) → view (fsm_layer_finish ty m) ≡ view m
  unfolding view fsm_layer_finish
  view-layer_finish m = ground arith

  pub view-init_restart_counter :
      (n : ℕ) (m : Machine C) → view (init_restart_counter ty n m) ≡ set_restart n (view m)
  unfolding view init_restart_counter set_restart
  view-init_restart_counter n m = refl

  pub view-init_counters : (m : Machine C) → view (init_counters ty m) ≡ set_counters (view m)
  unfolding view init_counters set_counters
  view-init_counters m = refl

  pub view-decode_buffer :
      (bytes : List ℕ) (mode : Mode) (m : Machine C) → view (decode_buffer ty bytes mode m) ≡ view m
  unfolding view decode_buffer
  view-decode_buffer bytes mode m = refl

  pub view-send_config_req : (m : Machine C) → view (send_config_req ty m) ≡ sent_request (view m)
  unfolding view send_config_req sent_request
  view-send_config_req m = ground arith

  pub view-send_terminate_req :
      (m : Machine C) → view (send_terminate_req ty m) ≡ sent_terminate (view m)
  unfolding view send_terminate_req sent_terminate
  view-send_terminate_req m = ground arith

  pub view-send_terminate_ack : (m : Machine C) → view (send_terminate_ack ty m) ≡ use_id (view m)
  unfolding view send_terminate_ack use_id
  view-send_terminate_ack m = ground arith

  pub view-send_config_ack :
      (id : ℕ) (os : List ℕ) (m : Machine C) → view (send_config_ack ty id os m) ≡ view m
  unfolding view send_config_ack
  view-send_config_ack id os m = ground arith

  pub view-send_config_rej :
      (id : ℕ) (os : List ℕ) (m : Machine C)
      → view (send_config_rej ty id os m) ≡ sent_refusal (view m)
  unfolding view send_config_rej sent_refusal
  view-send_config_rej id os m = ground arith

  pub view-send_config_nak :
      (id : ℕ) (os : List ℕ) (m : Machine C)
      → view (send_config_nak ty id os m) ≡ sent_refusal (view m)
  unfolding view send_config_nak sent_refusal
  view-send_config_nak id os m = ground arith
