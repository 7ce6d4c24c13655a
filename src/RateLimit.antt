-- ===== src/RateLimit.antt =====
-- The sliding-window limiter of go_backend/ratelimit.go. A time is a number of nanoseconds of the
-- monotonic clock; the limit and the window are not negative.
pub mod Cleaning
pub mod Refinement
pub mod Window
pub mod Waiting
mod Tests
use musi_flac.Prelude.{
  ℕ, suc, ◌+◌, ◌-◌, Bool, List, [], ◌∷◌, ◌++◌, length, drop, ltb, if◌then◌else◌, ◌&&◌, ℤ, pos,
  ltb_ℤ, sub_ℕ,
}

pub record Limiter : Type 0 where
  pub max_requests : ℕ
  pub window : ℕ
  pub timestamps : List ℕ

unfoldable pub new_rate_limiter : ℕ → ℕ → Limiter
new_rate_limiter max_requests window = record {
  max_requests = max_requests;
  window = window;
  timestamps = [];
}

-- `ts.After(now.Add(-window))`
abbrev pub is_after_cutoff : ℕ → ℕ → ℕ → Bool
is_after_cutoff window now ts = ltb now (ts + window)

-- The loop over the timestamps, at index `i`.
unfoldable pub valid_start : ℕ → ℕ → ℕ → List ℕ → ℕ
valid_start window now i [] = i
valid_start window now i (ts ∷ rest) =
    let later = valid_start window now (suc i) rest in
    if is_after_cutoff window now ts then i else later

unfoldable pub clean_old_timestamps : ℕ → Limiter → Limiter
clean_old_timestamps now r = record r {
  timestamps = drop (valid_start r.window now 0 r.timestamps) r.timestamps;
}

unfoldable pub reserved : ℕ → Limiter → Limiter
reserved now r = record r { timestamps = r.timestamps ++ (now ∷ []) }

-- What a caller gets: a slot, `false`, the duration to wait, an index out of range, or a number.
pub data Reply : Type 0 where
  granted : Reply
  refused : Reply
  wait : ℤ → Reply
  out_of_range : Reply
  room : ℤ → Reply

unfoldable pub try_acquire : ℕ → Limiter → Reply × Limiter
try_acquire now before =
    let r = clean_old_timestamps now before in
    if ltb (length r.timestamps) r.max_requests then (granted, reserved now r) else (refused, r)

unfoldable pub available : ℕ → Limiter → Reply × Limiter
available now before =
    let r = clean_old_timestamps now before in
    (room (sub_ℕ r.max_requests (length r.timestamps)), r)

-- `r.timestamps[0].Add(r.window).Sub(now)`
unfoldable pub wait_duration : ℕ → ℕ → List ℕ → Reply
wait_duration window now [] = out_of_range
wait_duration window now (oldest ∷ rest) = wait (sub_ℕ (oldest + window) now)

-- One round of the loop of `WaitForSlotContext`, up to `r.mu.Unlock`.
unfoldable pub attempt : ℕ → Limiter → Reply × Limiter
attempt now before =
    let r = clean_old_timestamps now before in
    if ltb (length r.timestamps) r.max_requests
    then (granted, reserved now r)
    else (wait_duration r.window now r.timestamps, r)

pub data Call : Type 0 where
  acquiring : Call
  asking : Call
  attempting : Call

unfoldable pub call : Call → ℕ → Limiter → Reply × Limiter
call acquiring now r = try_acquire now r
call asking now r = available now r
call attempting now r = attempt now r

-- The calls of all goroutines, in the order in which they hold the mutex: the replies with the times.
unfoldable pub calls : List (ℕ × Call) → Limiter → List (ℕ × Reply) × Limiter
calls [] r = ([], r)
calls ((now, c) ∷ rest) r =
    let (reply, r') = call c now r in
    let (replies, last) = calls rest r' in ((now, reply) ∷ replies, last)

-- A round of a waiting goroutine: when it holds the mutex, whether its context is done before the
-- timer that it then sets, and what the other goroutines call in the meantime.
pub record Round : Type 0 where
  pub now : ℕ
  pub gives_up : Bool
  pub others : List (ℕ × Call)

-- `nil`, `ctx.Err()`, a run-time panic, or no answer within the rounds.
pub data Waited : Type 0 where
  slot : ℕ → Waited
  context_done : Waited
  panicked : Waited
  still_waiting : Waited

-- `WaitForSlotContext`. A duration that is not positive sets no timer.
unfoldable pub wait_for_slot_context : List Round → Limiter → Waited × Limiter
wait_for_slot_context [] r = (still_waiting, r)
wait_for_slot_context (x ∷ rounds) r =
    let (reply, r') = attempt x.now r in
    let again = wait_for_slot_context rounds (calls x.others r').1 in
    elim reply [
      | wait duration ↦ if ltb_ℤ (pos 0) duration && x.gives_up then (context_done, r') else again
      | granted ↦ (slot x.now, r')
      | _ ↦ (panicked, r')
    ]
