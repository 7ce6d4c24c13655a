-- ===== src/Budget.antt =====
-- The resolver time of go_backend/extension_resolution_budget.go. A time is a number of nanoseconds of the
-- monotonic clock, a duration an integer.
pub mod Watch
pub mod Tracking
pub mod Steps
pub mod Releases
pub mod Ended
pub mod Refinement
pub mod Promise
mod Tests
use musi_flac.Prelude.{
  ℕ, suc, ◌+◌, ◌-◌, Bool, true, false, not, ◌&&◌, ◌||◌, List, [], ◌∷◌, ◌++◌, Option, none, some,
  leb, ltb, ◌==◌, if◌then◌else◌, get_elem?, get_or, set, ℤ, pos, ltb_ℤ, ◌-ℤ◌,
}

-- Why the context is done: the `context.DeadlineExceeded` or `context.Canceled` of the budget itself, or an
-- end of its parent. context.Cause gives the cause of the parent for the last, also its own deadline.
pub data Cause : Type 0 where
  deadline_exceeded : Cause
  canceled : Cause
  parent_done : Cause

-- A timer that `time.AfterFunc` has made, with the generation its callback compares.
pub record Timer : Type 0 where
  pub generation : ℕ
  pub since : ℕ
  pub duration : ℤ

-- All timers are kept, since the callback of a timer that `Stop` comes too late for still runs.
pub record Budget : Type 0 where
  pub ctx : Option Cause
  pub remaining : ℤ
  pub started : ℕ
  pub timers : List Timer
  pub generation : ℕ
  pub pauses : ℕ
  pub charges : ℕ
  pub stopped : Bool

-- `b.ctx.Err() != nil`
abbrev pub has_err : Budget → Bool
has_err b = elim b.ctx [ none ↦ false | some _ ↦ true ]

-- The first cause stays.
unfoldable pub cancel : Cause → Budget → Budget
cancel cause b = record b { ctx = elim b.ctx [ none ↦ some cause | some first ↦ some first ] }

unfoldable pub arm_locked : ℕ → Budget → Budget
arm_locked now b =
    let t : Timer = record { generation = suc b.generation; since = now; duration = b.remaining } in
    record b { started = now; generation = suc b.generation; timers = b.timers ++ (t ∷ []) }

-- The parent context is not done when the budget is made.
unfoldable pub new_resolution_budget : ℕ → ℤ → Budget
new_resolution_budget now allowance = arm_locked now record {
  ctx = none;
  remaining = allowance;
  started = 0;
  timers = [];
  generation = 0;
  pauses = 0;
  charges = 0;
  stopped = false;
}

-- The callback of a timer.
unfoldable pub expire : ℕ → Budget → Budget
expire generation b =
    if b.stopped || (not (b.pauses == 0) && b.charges == 0) || not (b.generation == generation)
    then b
    else cancel deadline_exceeded (record b { remaining = pos 0 })

-- `b.remaining -= time.Since(b.started)`, with the timer stopped.
unfoldable pub settle : ℕ → Budget → Budget
settle now b = record b {
  generation = suc b.generation;
  remaining = b.remaining -ℤ pos (now - b.started);
}

-- `b.remaining <= 0`
abbrev pub is_spent : Budget → Bool
is_spent b = not (ltb_ℤ (pos 0) b.remaining)

abbrev pub exhausted : Budget → Budget
exhausted b = cancel deadline_exceeded (record b { remaining = pos 0 })

-- `pause`, and whether the function it returns does anything.
unfoldable pub pause : ℕ → Budget → Bool × Budget
pause now b =
    let settled = settle now b in
    let counts = b.pauses == 0 && b.charges == 0 in
    if b.stopped || has_err b
    then (false, b)
    else if counts && is_spent settled
    then (false, exhausted settled)
    else if counts
    then (true, record settled { pauses = suc b.pauses })
    else (true, record b { pauses = suc b.pauses })

-- What the function returned by `pause` does once.
unfoldable pub release_pause : ℕ → Budget → Budget
release_pause now before =
    let b = record before { pauses = before.pauses - 1 } in
    if b.pauses == 0 && b.charges == 0 && not b.stopped && not (has_err b)
    then arm_locked now b
    else b

unfoldable pub charge : ℕ → Budget → Bool × Budget
charge now b =
    if b.stopped || has_err b
    then (false, b)
    else if b.charges == 0 && not (b.pauses == 0)
    then (true, record (arm_locked now b) { charges = suc b.charges })
    else (true, record b { charges = suc b.charges })

-- What the function returned by `charge` does once.
unfoldable pub release_charge : ℕ → Budget → Budget
release_charge now before =
    let b = record before { charges = before.charges - 1 } in
    let settled = settle now b in
    if b.charges == 0 && not (b.pauses == 0) && not b.stopped && not (has_err b)
    then if is_spent settled then exhausted settled else settled
    else b

unfoldable pub remaining_time : ℕ → Budget → ℤ
remaining_time now b =
    let remaining =
      if (b.pauses == 0 || not (b.charges == 0)) && not b.stopped
      then b.remaining -ℤ pos (now - b.started)
      else b.remaining in
    if ltb_ℤ remaining (pos 0) || has_err b then pos 0 else remaining

unfoldable pub stop : Budget → Budget
stop b = cancel canceled (record b { stopped = true; generation = suc b.generation })

-- A budget with the functions that `pause` and `charge` returned: whether each still has its effect.
pub record World : Type 0 where
  pub budget : Budget
  pub pausing : List Bool
  pub charging : List Bool

-- What goroutines, timers and the parent context do, in the order in which they hold the mutex.
pub data Event : Type 0 where
  pause_called : Event
  pause_released : ℕ → Event
  charge_called : Event
  charge_released : ℕ → Event
  timer_expired : ℕ → Event
  stops : Event
  parent_ends : Event

unfoldable pub timer_runs : ℕ → ℕ → Budget → Budget
timer_runs now k b = elim (get_elem? b.timers k) [
  | none ↦ b
  | some t ↦ if ltb_ℤ (pos (now - t.since)) t.duration then b else expire t.generation b
]

-- A timer runs no earlier than its duration after it was made.
unfoldable pub happens : ℕ → Event → World → World
happens now pause_called w =
    let (live, b) = pause now w.budget in
    record w { budget = b; pausing = w.pausing ++ (live ∷ []) }
happens now (pause_released i) w =
    if get_or w.pausing i false
    then record w { budget = release_pause now w.budget; pausing = set w.pausing i false }
    else w
happens now charge_called w =
    let (live, b) = charge now w.budget in
    record w { budget = b; charging = w.charging ++ (live ∷ []) }
happens now (charge_released i) w =
    if get_or w.charging i false
    then record w { budget = release_charge now w.budget; charging = set w.charging i false }
    else w
happens now (timer_expired k) w = record w { budget = timer_runs now k w.budget }
happens now stops w = record w { budget = stop w.budget }
happens now parent_ends w = record w { budget = cancel parent_done w.budget }

unfoldable pub history : List (ℕ × Event) → World → World
history [] w = w
history ((now, e) ∷ rest) w = history rest (happens now e w)

unfoldable pub new_world : ℕ → ℤ → World
new_world now allowance = record {
  budget = new_resolution_budget now allowance;
  pausing = [];
  charging = [];
}
