-- ===== src/Progress/Tests.antt =====
-- Runs of the registry of go_backend/progress.go, and its theorems at concrete inputs.
use musi_flac.Prelude.{
  Option, none, some, ◌++◌, ◌⊎◌, ◌*◌, ◌/◌, ◌≤◌, ◌≡◌, refl, Bool, true, false, List, [], ◌∷◌, none,
  arith, length, Bytes, codes, ℤ, pos, pos_part, ltb_ℤ, not, ◌=ₛ◌,
}
use musi_flac.Prelude.Dict.{lookup, insert, erase}
use musi_flac.Progress.State.{
  empty_json, ItemProgress, Floats, Registry, bridge_of, initial_registry, quot, same_bridge,
  same_bool, ◌==ℤ◌, clamp_progress, clamp_speed,
}
use musi_flac.Progress.Items.{
  remove_item_progress, max_removed_progress_entries, start_item_progress, with_item, store_item,
  set_item_bytes_total, fresh_item,
}
use musi_flac.Progress.Cache.{IsRendering, IsCached, get_multi_progress-IsRendering}
use musi_flac.Progress.Delta.{
  get_multi_progress, Delta, get_multi_progress_delta, view_of, apply_delta,
}
use musi_flac.Progress.Invariant.{IsValid, initial-IsValid}
use musi_flac.Progress.Prune.{remove-bounded}
use musi_flac.Progress.Runs.{Op, start, remove, total, received, step, run, run-IsValid}
use musi_flac.Progress.Polling.{apply_delta-run}

-- A float64 in hundredths.
abbrev hundredths : Floats
hundredths = record {
  Float = ℤ;
  zero_float = pos 0;
  one_float = pos 100;
  is_nan = λ x. false;
  at_most = λ x y. not (ltb_ℤ y x);
  ratio = λ a b. pos (pos_part a * 100 / pos_part b);
  rounded = λ x k. pos (pos_part x * k / 100);
}

abbrev song : Bytes
song = codes "song"

abbrev other : Bytes
other = codes "other"

abbrev before : List (Op ℤ)
before = start song ∷ total song (pos 1000000) ∷ start other ∷ []

abbrev after : List (Op ℤ)
after = received song (pos 500000) ∷ remove other ∷ []

abbrev at_poll : Registry ℤ
at_poll = run hundredths before (initial_registry ℤ)

at_poll-IsValid : IsValid at_poll
at_poll-IsValid = run-IsValid hundredths before (initial_registry ℤ) (initial-IsValid ℤ)

run-IsValid_example : IsValid (run hundredths before (initial_registry ℤ))
run-IsValid_example = run-IsValid hundredths before (initial_registry ℤ) (initial-IsValid ℤ)

accept : Delta ℤ → Bool
accept d = true

apply_delta-run_example :
    apply_delta hundredths
      (get_multi_progress_delta accept (pos at_poll.seq) (run hundredths after at_poll))
      (view_of hundredths at_poll.items)
      song
    ≡ view_of hundredths (run hundredths after at_poll).items song
unfolding accept
apply_delta-run_example = apply_delta-run hundredths accept after at_poll song at_poll-IsValid refl

at_poll_removed : at_poll.removed ≡ []
unfolding run step start_item_progress set_item_bytes_total with_item store_item fresh_item insert
    erase lookup bridge_of quot same_bridge same_bool ◌==ℤ◌ ◌=ₛ◌ clamp_progress clamp_speed
at_poll_removed = refl

remove-bounded_example :
    length (remove_item_progress other at_poll).removed ≤ max_removed_progress_entries
remove-bounded_example = remove-bounded other at_poll (rw at_poll_removed (omega arith))

-- A rendering that lists the ids.
names : List (Bytes × ItemProgress ℤ) → Bytes
names [] = []
names ((id, item) ∷ m) = id ++ (b',' ∷ names m)

list_ids : List (Bytes × ItemProgress ℤ) → Option Bytes
list_ids items = some (names items)

get_multi_progress-IsRendering_example :
    let (text, st) = get_multi_progress list_ids (run hundredths before (initial_registry ℤ)) in
    (IsRendering hundredths list_ids text (run hundredths before (initial_registry ℤ))
      ⊎ ((text ≡ empty_json)
          × (list_ids (run hundredths before (initial_registry ℤ)).items ≡ none)))
    × IsCached hundredths list_ids st
get_multi_progress-IsRendering_example =
    get_multi_progress-IsRendering hundredths list_ids before (initial_registry ℤ) (λ clean. cc)
