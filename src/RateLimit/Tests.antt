-- ===== src/RateLimit/Tests.antt =====
-- Runs of the limiter of go_backend/ratelimit.go, and its theorems at concrete inputs.
use musi_flac.Prelude.{ℕ, ◌+◌, ◌≤◌, ◌≡◌, refl, ◌⊎◌, false, List, [], ◌∷◌, arith, pos}
use musi_flac.RateLimit.{
  Limiter, granted, wait, room, Call, acquiring, asking, attempting, Round, slot, new_rate_limiter,
  clean_old_timestamps, valid_start, reserved, try_acquire, available, attempt, wait_duration, call,
  calls, wait_for_slot_context,
}
use musi_flac.RateLimit.Refinement.{
  Refines, spec_call, spec_calls, calls-refine, call-Refines, new-Refines,
}
use musi_flac.RateLimit.Window.{grants, grants-apart}
use musi_flac.RateLimit.Waiting.{wait_alone}

-- Two slots in ten nanoseconds.
abbrev busy : List (ℕ × Call)
busy = (3, acquiring) ∷ (5, acquiring) ∷ (6, attempting) ∷ (7, asking) ∷ (13, acquiring) ∷ []

busy_replies :
    (calls busy (new_rate_limiter 2 10)).0
    ≡ (3, granted) ∷ (5, granted) ∷ (6, wait (pos 7)) ∷ (7, room (pos 0)) ∷ (13, granted) ∷ []
unfolding calls call try_acquire available attempt wait_duration reserved clean_old_timestamps
    valid_start new_rate_limiter
busy_replies = refl

calls-refine_example : (calls busy (new_rate_limiter 2 10)).0 ≡ (spec_calls 2 10 busy []).0
calls-refine_example = calls-refine 2 10 busy (omega arith)

grants-apart_example : 3 + 10 ≤ 13
unfolding calls call try_acquire available attempt wait_duration reserved clean_old_timestamps
    valid_start new_rate_limiter grants
grants-apart_example = grants-apart 2 10 busy 0 3 13 (omega arith) refl refl

-- One slot in ten nanoseconds, which is taken at 3.
abbrev taken : Limiter
taken = (call acquiring 3 (new_rate_limiter 1 10)).1

taken-Refines : Refines 1 10 3 taken (spec_call 1 10 acquiring 3 []).1
taken-Refines =
    (call-Refines 1 10 0 3 (new_rate_limiter 1 10) [] (new-Refines 1 10) (omega arith) acquiring).1

abbrev woken : Round
woken = record { now = 13; gives_up = false; others = [] }

abbrev two_rounds : List Round
two_rounds = record { now = 6; gives_up = false; others = [] } ∷ woken ∷ []

wait_alone_example :
    let waited = (wait_for_slot_context two_rounds taken).0 in
    (waited ≡ slot 6) ⊎ (waited ≡ slot 13)
unfolding call try_acquire attempt reserved clean_old_timestamps valid_start new_rate_limiter
    wait_duration
wait_alone_example =
    wait_alone 1 10 3 6 taken (spec_call 1 10 acquiring 3 []).1 woken [] taken-Refines (omega arith)
      (omega arith) (omega arith)
