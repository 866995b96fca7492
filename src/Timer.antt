-- ===== src/Timer.antt =====
-- src/timer.c: the one timer type of the daemon, on top of the event library (src/event.c), whose
-- registration is the field `event`. A timer that fires is unregistered first unless it recurs.
use mpdx.Common.{ℕ, Bool, true, false, Option, none, some, if◌then◌else◌}

-- What the event library holds for a timer: nothing, one expiry, or an expiry in every period.
pub data Registered : Type 0 where
  idle : Registered
  once : ℕ → Registered
  every : ℕ → Registered

-- `struct pppTimer`; `has_func` is whether `func` is not NULL, and times are in ticks.
pub record Timer : Type 0 where
  pub has_func : Bool
  pub load : ℕ
  pub event : Registered

abbrev pub zeroed : Timer
zeroed = record { has_func = false; load = 0; event = idle }

-- `TimerInit`; callers pass a period that is not negative.
unfoldable pub timer_init : ℕ → Timer
timer_init load = record { has_func = true; load = load; event = idle }

-- `TimerStart`: the `assert` fails on a timer that was never initialised (`none`).
unfoldable pub timer_start : Timer → Option Timer
timer_start t = if t.has_func then some (record t { event = once t.load }) else none

unfoldable pub timer_start_recurring : Timer → Option Timer
timer_start_recurring t = if t.has_func then some (record t { event = every t.load }) else none

unfoldable pub timer_stop : Timer → Timer
timer_stop t = record t { event = idle }

-- `TimerExpires`, as far as the timer goes: the event library drops a single expiry.
abbrev after_expiry : Registered → Registered
after_expiry (every n) = every n
after_expiry _ = idle

unfoldable pub timer_expires : Timer → Timer
timer_expires t = record t { event = after_expiry t.event }

abbrev is_registered : Registered → Bool
is_registered idle = false
is_registered _ = true

-- `TimerStarted`.
unfoldable pub timer_started : Timer → Bool
timer_started t = is_registered t.event

-- Whether one expiry is pending, as for the timers that do not recur.
abbrev pub is_once : Registered → Bool
is_once (once _) = true
is_once _ = false
