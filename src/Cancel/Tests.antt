-- ===== src/Cancel/Tests.antt =====
-- Runs of the registry of go_backend/cancel.go, and its theorems at concrete inputs.
use musi_flac.Prelude.{ℕ, ◌≡◌, refl, true, false, List, [], ◌∷◌, some, Bytes, codes, ◌=ₛ◌}
use musi_flac.Prelude.Dict.{lookup, insert, erase}
use musi_flac.Progress.Delta.{is_listed}
use musi_flac.Cancel.{
  cancel_all_active_downloads, CancelRegistry, empty_registry, init, joined, made, request_cancel,
  cancel_context, request_cancel_active, is_cancelled, is_done, release,
}
use musi_flac.Cancel.Invariant.{IsValid, empty-IsValid}
use musi_flac.Progress.State.{Registry, initial_registry}
use musi_flac.Cancel.Downloads.{IsStopped, cancel_all_active_downloads-IsStopped}
use musi_flac.Cancel.Sweeping.{in_use}
use musi_flac.Cancel.Runs.{CancelOp, join, cancel, leave, call, calls, calls-IsValid}
use musi_flac.Cancel.Automaton.{used, steps, step, joins, cuts, leaves, standing_of}
use musi_flac.Cancel.Standing.{IsSeen, calls-IsSeen}
use musi_flac.Cancel.Effect.{IsJoined, init-IsJoined, IsCut, request_cancel_active-IsCut}

abbrev song : Bytes
song = codes "song"

abbrev other : Bytes
other = codes "other"

-- `song` is cancelled before it starts, and `other` runs twice.
abbrev started : List CancelOp
started = cancel song ∷ join other ∷ join other ∷ []

abbrev running : CancelRegistry
running = calls started empty_registry

calls-IsValid_example : IsValid (calls started empty_registry)
calls-IsValid_example = calls-IsValid started empty_registry empty-IsValid

running-IsValid : IsValid running
running-IsValid = calls-IsValid started empty_registry empty-IsValid

init-IsJoined_example : IsJoined song running
unfolding ◌=ₛ◌
init-IsJoined_example = init-IsJoined song running refl running-IsValid

request_cancel_active-IsCut_example :
    let (ids, r) = request_cancel_active running in
    (is_listed other ids ≡ in_use (lookup other running.entries))
    × IsCut other (is_listed other ids) running r
unfolding ◌=ₛ◌
request_cancel_active-IsCut_example = request_cancel_active-IsCut other running refl running-IsValid

-- The context that `song` gets is cancelled from the start.
abbrev joined_song : CancelRegistry
joined_song = call (join song) running

joined_cancelled : is_done (some 1) joined_song.contexts ≡ true
unfolding is_done call calls init joined made request_cancel cancel_context lookup insert ◌=ₛ◌
joined_cancelled = refl

-- `song` is cancelled, starts twice, is left once, and `other` runs all along.
abbrev shared : List CancelOp
shared = join other ∷ cancel song ∷ join song ∷ join song ∷ leave song ∷ []

calls-IsSeen_example : IsSeen song (used 1 true) (calls shared empty_registry)
unfolding ◌=ₛ◌ steps step joins cuts leaves standing_of lookup
calls-IsSeen_example = calls-IsSeen shared song empty_registry refl empty-IsValid

-- After the release, the next request of `song` is not cancelled.
retried : is_cancelled song (calls (leave song ∷ join song ∷ []) joined_song) ≡ false
unfolding is_cancelled call calls init joined made request_cancel cancel_context release lookup
    insert erase ◌=ₛ◌
retried = refl

abbrev shown : Registry ℕ
shown = initial_registry ℕ

cancel_all_active_downloads-IsStopped_example :
    let (ids, r, st) = cancel_all_active_downloads running shown in
    (is_listed other ids ≡ in_use (lookup other running.entries))
    × IsStopped other (is_listed other ids) running r shown st
unfolding ◌=ₛ◌
cancel_all_active_downloads-IsStopped_example =
    cancel_all_active_downloads-IsStopped other running shown refl running-IsValid
