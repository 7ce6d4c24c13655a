-- ===== src/Progress/Delta.antt =====
-- `GetMultiProgressDelta` and `GetMultiProgress` of go_backend/progress.go, and what the app makes of
-- their answers.
use musi_flac.Prelude.{
  ℕ, Bool, true, false, not, ◌||◌, List, [], ◌∷◌, Option, none, some, leb, ltb, ◌==◌, if◌then◌else◌,
  Bytes, ◌=ₛ◌, ℤ, pos, negsuc,
}
use musi_flac.Prelude.Dict.{lookup, filter_dict}
use musi_flac.Progress.State.{Floats, ItemProgress, Registry, Bridge, bridge_of, empty_json}

-- `MultiProgressDelta`; `none` is the empty answer of `GetMultiProgressDelta`.
pub record Delta (F : Type 0) : Type 0 where
  pub seq : ℕ
  pub reset : Bool
  pub items : List (Bytes × ItemProgress F)
  pub removed : List Bytes

unfoldable pub keys : List (Bytes × ℕ) → List Bytes
keys [] = []
keys ((id, r) ∷ m) = id ∷ keys m

module _ {F : Type 0} where
  -- The copies that go into the delta.
  unfoldable pub copied : List (Bytes × ItemProgress F) → List (Bytes × ItemProgress F)
  copied [] = []
  copied ((id, item) ∷ m) = (id, record item { revision = 0 }) ∷ copied m

  unfoldable pub delta_from : ℕ → Registry F → Delta F
  delta_from since st =
      if since == 0 || ltb since st.reset
      then record { seq = st.seq; reset = true; items = copied st.items; removed = [] }
      else record {
        seq = st.seq;
        reset = false;
        items = copied (filter_dict (λ (item : ItemProgress F). ltb since item.revision) st.items);
        removed = keys (filter_dict (λ (revision : ℕ). ltb since revision) st.removed);
      }

  -- `marshals` is whether json.Marshal accepts a delta: it refuses a float that is NaN or infinite,
  -- and the answer is empty then.
  unfoldable pub marshalled : (Delta F → Bool) → Delta F → Option (Delta F)
  marshalled marshals d = if marshals d then some d else none

  -- A negative `sinceSeq` is below every sequence number and asks for a reset, as 0 does.
  unfoldable pub get_multi_progress_delta : (Delta F → Bool) → ℤ → Registry F → Option (Delta F)
  get_multi_progress_delta marshals (pos since) st =
      if leb st.seq since then none else marshalled marshals (delta_from since st)
  get_multi_progress_delta marshals (negsuc n) st = marshalled marshals (delta_from 0 st)

  -- `render` is json.Marshal of the items: `none` where it fails, as on a NaN.
  unfoldable pub get_multi_progress :
      (List (Bytes × ItemProgress F) → Option Bytes) → Registry F → Bytes × Registry F
  get_multi_progress render st = if not st.dirty then (st.cached, st) else elim (render st.items) [
    | none ↦ (empty_json, st)
    | some json ↦ (json, record st { cached = json; dirty = false })
  ]

-- Whether a deletion is among those of a delta.
unfoldable pub is_listed : Bytes → List Bytes → Bool
is_listed id [] = false
is_listed id (j ∷ js) = j =ₛ id || is_listed id js

module _ (fl : Floats) where
  open fl use {Float}

  -- What the app knows of an item: its bridge state, if the item is there.
  abbrev pub View : Type 0
  View = Bytes → Option Bridge

  unfoldable pub bridged : Option (ItemProgress Float) → Option Bridge
  bridged none = none
  bridged (some item) = some (bridge_of fl item)

  unfoldable pub view_of : List (Bytes × ItemProgress Float) → View
  view_of items id = bridged (lookup id items)

  -- The app applies a delta: the items in it replace its own, those listed as removed go, and after
  -- a reset only the items of the delta are left.
  unfoldable pub apply_delta : Option (Delta Float) → View → View
  apply_delta none view id = view id
  apply_delta (some d) view id = elim (bridged (lookup id d.items)) [
    | some b ↦ some b
    | none ↦ if d.reset || is_listed id d.removed then none else view id
  ]
