-- ===== src/Progress/Runs.antt =====
-- Any sequence of the operations of go_backend/progress.go.
use musi_flac.Prelude.{refl, List, [], ◌∷◌, arith, Bytes, ℤ}
use musi_flac.Progress.State.{Floats, ItemProgress, Registry}
use musi_flac.Progress.Items.{
  remove_item_progress, clear_all_item_progress, start_item_progress, with_item,
  set_item_preparing_stage, set_item_preparing, set_item_downloading, set_item_bytes_total,
  received_bytes, set_item_bytes_received, set_item_bytes_received_with_speed,
  complete_item_progress, reported_progress, set_item_progress, set_item_finalizing,
}
use musi_flac.Progress.Invariant.{
  IsValid, KeepsRevision, start-IsValid, with_item-IsValid, clear-IsValid,
}
use musi_flac.Progress.Prune.{remove-IsValid}
use musi_flac.Progress.Sync.{
  IsSince, refl-IsSince, start-IsSince, with_item-IsSince, remove-IsSince, clear-IsSince,
}

-- A call of one of the operations.
pub data Op (F : Type 0) : Type 0 where
  start remove prepare download finalize complete : Bytes → Op F
  prepare_stage : Bytes → Bytes → Op F
  total : Bytes → ℤ → Op F
  received : Bytes → ℤ → Op F
  received_with_speed : Bytes → ℤ → F → Op F
  report : Bytes → F → ℤ → ℤ → Op F
  clear_all : Op F

module _ (fl : Floats) where
  open fl use {Float}

  unfoldable pub step : Op Float → Registry Float → Registry Float
  step (start id) = start_item_progress fl id
  step (remove id) = remove_item_progress id
  step (prepare id) = set_item_preparing fl id
  step (download id) = set_item_downloading fl id
  step (finalize id) = set_item_finalizing fl id
  step (complete id) = complete_item_progress fl id
  step (prepare_stage id stage) = set_item_preparing_stage fl id stage
  step (total id n) = set_item_bytes_total fl id n
  step (received id n) = set_item_bytes_received fl id n
  step (received_with_speed id n speed) = set_item_bytes_received_with_speed fl id n speed
  step (report id p n t) = set_item_progress fl id p n t
  step clear_all = clear_all_item_progress

  unfoldable pub run : List (Op Float) → Registry Float → Registry Float
  run [] st = st
  run (op ∷ ops) st = run ops (step op st)

  -- What one operation keeps.
  pub record IsKept (old now st : Registry Float) : Type 0 where
    pub valid : IsValid st
    pub since : IsSince fl old st

  with_item-IsKept :
      (old now : Registry Float) (id : Bytes) (f : ItemProgress Float → ItemProgress Float)
      → KeepsRevision f
      → IsValid now
      → IsSince fl old now
      → IsKept old now (with_item fl id f now)
  with_item-IsKept old now id f keeps v s = record {
    valid = with_item-IsValid fl id f now keeps v;
    since = with_item-IsSince fl old now id f keeps s;
  }

  step-IsKept :
      (op : Op Float) (old now : Registry Float)
      → IsValid now
      → IsSince fl old now
      → IsKept old now (step op now)
  unfolding step set_item_preparing set_item_preparing_stage set_item_downloading
      set_item_finalizing complete_item_progress set_item_bytes_total set_item_bytes_received
      received_bytes set_item_bytes_received_with_speed set_item_progress reported_progress
  step-IsKept (start id) old now v s = record {
    valid = start-IsValid fl id now v;
    since = start-IsSince fl old now id s;
  }
  step-IsKept (remove id) old now v s = record {
    valid = remove-IsValid id now v;
    since = remove-IsSince fl old now id v s;
  }
  step-IsKept clear_all old now v s = record {
    valid = clear-IsValid now;
    since = clear-IsSince fl old now s;
  }
  step-IsKept (prepare id) old now v s = with_item-IsKept old now id _ (λ item. refl) v s
  step-IsKept (download id) old now v s = with_item-IsKept old now id _ (λ item. refl) v s
  step-IsKept (finalize id) old now v s = with_item-IsKept old now id _ (λ item. refl) v s
  step-IsKept (complete id) old now v s = with_item-IsKept old now id _ (λ item. refl) v s
  step-IsKept (prepare_stage id stage) old now v s =
      with_item-IsKept old now id _ (λ item. refl) v s
  step-IsKept (total id n) old now v s = with_item-IsKept old now id _ (λ item. refl) v s
  step-IsKept (received id n) old now v s = with_item-IsKept old now id _ (λ item. ground arith) v s
  step-IsKept (received_with_speed id n speed) old now v s =
      with_item-IsKept old now id _ (λ item. ground arith) v s
  step-IsKept (report id p n t) old now v s =
      with_item-IsKept old now id _ (λ item. ground arith) v s

  pub run-IsKept :
      (ops : List (Op Float)) (old now : Registry Float)
      → IsValid now
      → IsSince fl old now
      → IsKept old now (run ops now)
  unfolding run
  run-IsKept [] old now v s = record { valid = v; since = s }
  run-IsKept (op ∷ ops) old now v s =
      let k = step-IsKept op old now v s in
      let rest = run-IsKept ops old (step op now) k.valid k.since in
      record { valid = rest.valid; since = rest.since }

  -- Any sequence of operations keeps the invariant of the registry: each id once in either map, no
  -- revision above the sequence number, and no id both present and deleted.
  pub run-IsValid :
      (ops : List (Op Float)) (st : Registry Float) → IsValid st → IsValid (run ops st)
  run-IsValid ops st v = (run-IsKept ops st st v (refl-IsSince fl st)).valid
