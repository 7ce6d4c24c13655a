-- ===== src/Progress/Items.antt =====
-- The operations of go_backend/progress.go on items.
use musi_flac.Prelude.{
  ℕ, ◌+◌, ◌/◌, Bool, true, false, not, ◌||◌, List, [], ◌∷◌, none, some, leb, ltb, if◌then◌else◌,
  length, get_or, Bytes, ◌=ₛ◌, ℤ, pos, ltb_ℤ,
}
use musi_flac.Prelude.Dict.{lookup, insert, erase, filter_dict}
use musi_flac.Progress.State.{
  Floats, ItemProgress, Registry, bridge_of, same_bridge, preparing, downloading, completed,
  finalizing,
}

-- `removedProgressSeq`'s values, as `sort.Slice` orders them.
unfoldable pub insert_sorted : ℕ → List ℕ → List ℕ
insert_sorted r [] = r ∷ []
insert_sorted r (s ∷ ss) = if leb r s then r ∷ s ∷ ss else s ∷ insert_sorted r ss

unfoldable pub sorted_revisions : List (Bytes × ℕ) → List ℕ
unfolding insert_sorted
sorted_revisions [] = []
sorted_revisions ((id, r) ∷ m) = insert_sorted r (sorted_revisions m)

abbrev pub max_removed_progress_entries : ℕ
max_removed_progress_entries = 512

unfoldable pub cutoff_of : List (Bytes × ℕ) → ℕ
cutoff_of removed = get_or (sorted_revisions removed) (length (sorted_revisions removed) / 2) 0

unfoldable pub prune_removed_progress_locked : {F : Type 0} → Registry F → Registry F
prune_removed_progress_locked st =
    let cutoff = cutoff_of st.removed in
    record st {
      removed = filter_dict (λ revision. ltb cutoff revision) st.removed;
      reset = if ltb st.reset cutoff then cutoff else st.reset;
    }

unfoldable pub remove_item_progress : {F : Type 0} → Bytes → Registry F → Registry F
remove_item_progress id st = elim (lookup id st.items) [
  | none ↦ record st { dirty = true }
  | some item ↦
      let st' = record st {
        items = erase id st.items;
        removed = insert id (st.seq + 1) st.removed;
        seq = st.seq + 1;
        dirty = true;
      } in
      if ltb max_removed_progress_entries (length st'.removed)
      then prune_removed_progress_locked st'
      else st'
]

unfoldable pub clear_all_item_progress : {F : Type 0} → Registry F → Registry F
clear_all_item_progress st = record st {
  items = [];
  removed = [];
  seq = st.seq + 1;
  reset = st.seq + 1;
  dirty = true;
}

-- `x > 0`
abbrev is_positive : ℤ → Bool
is_positive = ltb_ℤ (pos 0)

module _ (fl : Floats) where
  open fl use {Float, zero_float, one_float, at_most, ratio}

  unfoldable pub fresh_item : Bytes → ℕ → ItemProgress Float
  fresh_item id revision = record {
    item_id = id;
    bytes_total = pos 0;
    bytes_received = pos 0;
    progress = zero_float;
    speed_mbps = zero_float;
    is_downloading = false;
    status = preparing;
    stage = [];
    revision = revision;
  }

  unfoldable pub start_item_progress : Bytes → Registry Float → Registry Float
  start_item_progress id st = record st {
    items = insert id (fresh_item id (st.seq + 1)) st.items;
    removed = erase id st.removed;
    seq = st.seq + 1;
    dirty = true;
  }

  -- What every setter does with an item that is there: `before`, its assignments, and
  -- `markMultiProgressDirtyIfChangedLocked`.
  unfoldable pub store_item :
      Bytes → ItemProgress Float → ItemProgress Float → Registry Float → Registry Float
  store_item id before item st =
      if same_bridge (bridge_of fl item) (bridge_of fl before)
      then record st { items = insert id item st.items }
      else record st {
        items = insert id (record item { revision = st.seq + 1 }) st.items;
        seq = st.seq + 1;
        dirty = true;
      }

  unfoldable pub with_item :
      Bytes → (ItemProgress Float → ItemProgress Float) → Registry Float → Registry Float
  with_item id assign st = elim (lookup id st.items) [
    | none ↦ st
    | some item ↦ store_item id item (assign item) st
  ]

  unfoldable pub set_item_preparing_stage : Bytes → Bytes → Registry Float → Registry Float
  set_item_preparing_stage id stage = with_item id (λ item. record item {
    progress = zero_float;
    bytes_received = pos 0;
    bytes_total = pos 0;
    speed_mbps = zero_float;
    is_downloading = true;
    status = preparing;
    stage = stage;
  })

  unfoldable pub set_item_preparing : Bytes → Registry Float → Registry Float
  set_item_preparing id = set_item_preparing_stage id []

  abbrev as_downloading : ItemProgress Float → ItemProgress Float
  as_downloading item = record item { is_downloading = true; status = downloading; stage = [] }

  unfoldable pub set_item_downloading : Bytes → Registry Float → Registry Float
  set_item_downloading id = with_item id as_downloading

  unfoldable pub set_item_bytes_total : Bytes → ℤ → Registry Float → Registry Float
  set_item_bytes_total id total = with_item id (λ item. record item { bytes_total = total })

  -- The assignments of `SetItemBytesReceived`.
  unfoldable pub received_bytes : ℤ → ItemProgress Float → ItemProgress Float
  received_bytes received item =
      let item' = record item {
        bytes_received = received;
        progress =
            if is_positive item.bytes_total then ratio received item.bytes_total else item.progress;
      } in
      if is_positive received then as_downloading item' else item'

  unfoldable pub set_item_bytes_received : Bytes → ℤ → Registry Float → Registry Float
  set_item_bytes_received id received = with_item id (received_bytes received)

  unfoldable pub set_item_bytes_received_with_speed :
      Bytes → ℤ → Float → Registry Float → Registry Float
  set_item_bytes_received_with_speed id received speed =
      with_item id (λ item. received_bytes received (record item { speed_mbps = speed }))

  unfoldable pub complete_item_progress : Bytes → Registry Float → Registry Float
  complete_item_progress id = with_item id (λ item. record item {
    progress = one_float;
    is_downloading = false;
    status = completed;
    stage = [];
  })

  -- The assignments of `SetItemProgress`.
  unfoldable pub reported_progress : Float → ℤ → ℤ → ItemProgress Float → ItemProgress Float
  reported_progress progress received total item =
      let has_byte_progress = is_positive received || is_positive total in
      let whole = at_most one_float progress in
      let item' = record item {
        progress =
            if not (item.status =ₛ preparing) || has_byte_progress || whole
            then progress
            else zero_float;
        bytes_received = if is_positive received then received else item.bytes_received;
        bytes_total = if is_positive total then total else item.bytes_total;
      } in
      if has_byte_progress || whole || item.status =ₛ downloading
      then as_downloading item'
      else item'

  unfoldable pub set_item_progress : Bytes → Float → ℤ → ℤ → Registry Float → Registry Float
  set_item_progress id progress received total =
      with_item id (reported_progress progress received total)

  unfoldable pub set_item_finalizing : Bytes → Registry Float → Registry Float
  set_item_finalizing id =
      with_item id (λ item. record item { progress = one_float; status = finalizing; stage = [] })
