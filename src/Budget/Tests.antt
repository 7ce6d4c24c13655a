-- ===== src/Budget/Tests.antt =====
-- A run of `resolutionBudget` of go_backend/extension_resolution_budget.go, and its theorems at it.
use musi_flac.Prelude.{ℕ, ◌≡◌, refl, List, [], ◌∷◌, some, arith, pos, ◌-ℤ◌, ◌≤ℤ◌, if◌then◌else◌}
use musi_flac.Budget.{
  Event, deadline_exceeded, pause_called, pause_released, charge_called, charge_released,
  timer_expired, history, happens, new_world, new_resolution_budget, arm_locked, settle, cancel,
  expire, pause, release_pause, charge, release_charge, timer_runs, remaining_time, has_err, World,
}
use musi_flac.Budget.Watch.{new_watch, watch, observe, open_count, is_running, spent_until}
use musi_flac.Budget.Promise.{
  Reached, left, remaining_time-refines, deadline-IsSpent, deadline-comes,
}

-- Paused from 5 to 9, and charged from 7 to 8; the timer of the start comes too late at 12.
abbrev usual : List (ℕ × Event)
usual =
    (5, pause_called)
    ∷ (7, charge_called)
    ∷ (8, charge_released 0)
    ∷ (9, pause_released 0)
    ∷ (12, timer_expired 0)
    ∷ []

abbrev used : World
used = history usual (new_world 2 (pos 10))

usual-Reached : Reached (pos 10) 2 13 usual
unfolding watch observe new_watch
usual-Reached = record { timed = omega arith; late = omega arith }

used_left : remaining_time 13 used.budget ≡ pos 2
unfolding history happens new_world new_resolution_budget arm_locked settle cancel expire pause
    release_pause charge release_charge timer_runs remaining_time ◌-ℤ◌
used_left = refl

remaining_time-refines_example : remaining_time 13 used.budget ≡ (
    if has_err used.budget
    then pos 0
    else left (pos 10) (spent_until 13 (watch usual (new_watch 2))))
remaining_time-refines_example = remaining_time-refines (pos 10) 2 13 usual usual-Reached

-- The timer that was made at 9 runs out.
abbrev late : List (ℕ × Event)
late =
    (5, pause_called)
    ∷ (7, charge_called)
    ∷ (8, charge_released 0)
    ∷ (9, pause_released 0)
    ∷ (15, timer_expired 2)
    ∷ []

deadline-IsSpent_example : pos 10 ≤ℤ pos (watch late (new_watch 2)).spent
unfolding history happens new_world new_resolution_budget arm_locked settle cancel expire pause
    release_pause charge release_charge timer_runs remaining_time ◌-ℤ◌ watch observe new_watch
deadline-IsSpent_example =
    deadline-IsSpent (pos 10) 2 16 late (record { timed = omega arith; late = omega arith }) refl

deadline-comes_example : (k : ℕ) × ((timer_runs 15 k used.budget).ctx ≡ some deadline_exceeded)
unfolding history happens new_world new_resolution_budget arm_locked settle cancel expire pause
    release_pause charge release_charge timer_runs remaining_time ◌-ℤ◌ watch observe new_watch
    open_count is_running spent_until
deadline-comes_example =
    deadline-comes (pos 10) 2 15 usual (record { timed = omega arith; late = omega arith }) refl
      refl (omega arith)
