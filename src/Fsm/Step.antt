-- ===== src/Fsm/Step.antt =====
-- The machine in its event loop: one step for each call that the rest of the daemon, the timers or
-- the peer can make, and runs of steps. A layer that calls `FsmFailure` from its `LayerUp` does so
-- as the last action of the handler, so it is the next step here.
use mpdx.Common.{ℕ, List, [], ◌∷◌}
use mpdx.Timer.{Registered, once}
use mpdx.Fsm.Types.{FsmFail, FsmType, Op}
use mpdx.Fsm.Events.{fsm_open, fsm_up, fsm_down, fsm_close, fsm_failure, fsm_timeout}
use mpdx.Fsm.Link.{send_ident, send_time_remaining, echo_timeout}
use mpdx.Fsm.Input.{fsm_input}

pub data Event : Type 0 where
  opens closes ups downs expires : Event
  fails : FsmFail → Event
  echoes : ℕ → Event
  idents : List ℕ → Event
  times : ℕ → Event
  arrives : List ℕ → Event

module _ {C : Type 0} (ty : FsmType C) where
  -- The event library calls back for a registered expiry only.
  abbrev pub expire : Registered → Op C
  expire (once n) = fsm_timeout ty
  expire _ = λ m. m

  unfoldable pub step : Event → Op C
  step opens m = fsm_open ty m
  step closes m = fsm_close ty m
  step ups m = fsm_up ty m
  step downs m = fsm_down ty m
  step expires m = expire m.timer.event m
  step (fails why) m = fsm_failure ty why m
  step (echoes frames) m = echo_timeout ty frames m
  step (idents text) m = send_ident ty text m
  step (times remaining) m = send_time_remaining ty remaining m
  step (arrives bytes) m = fsm_input ty bytes m

  unfoldable pub run : List Event → Op C
  run [] m = m
  run (e ∷ es) m = run es (step e m)
