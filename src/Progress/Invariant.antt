-- ===== src/Progress/Invariant.antt =====
-- The invariant of the registry of go_backend/progress.go, kept by the setters; and what a delta holds.
use musi_flac.Prelude.{
  ℕ, ◌+◌, ◌≤◌, ◌≡◌, refl, inl, inr, true, false, List, [], ◌∷◌, none, some, Option-cases,
  Bool-cases, arith, Bytes, =ₛ_iff,
}
use musi_flac.Prelude.Dict.{
  lookup, IsDict, lookup-insert, lookup-erase, insert-IsDict, erase-IsDict,
}
use musi_flac.Progress.State.{
  Floats, ItemProgress, Registry, bridge_of, same_bridge, initial_registry,
}
use musi_flac.Progress.Items.{
  clear_all_item_progress, fresh_item, start_item_progress, store_item, with_item,
}
use musi_flac.Progress.Delta.{copied, keys, is_listed, bridged}

-- The two maps have each key once, and no item and no deletion is newer than the sequence number.
pub record IsValid {F : Type 0} (st : Registry F) : Type 0 where
  pub items_dict : IsDict st.items
  pub removed_dict : IsDict st.removed
  pub item_le :
      (id : Bytes) (item : ItemProgress F) → lookup id st.items ≡ some item → item.revision ≤ st.seq
  pub removed_le : (id : Bytes) (r : ℕ) → lookup id st.removed ≡ some r → r ≤ st.seq
  pub reset_le : st.reset ≤ st.seq
  pub apart : (id : Bytes) (r : ℕ) → lookup id st.removed ≡ some r → lookup id st.items ≡ none

pub lookup-copied :
    (fl : Floats) (id : Bytes) (m : List (Bytes × ItemProgress fl.Float))
    → bridged fl (lookup id (copied m)) ≡ bridged fl (lookup id m)
unfolding lookup copied bridged bridge_of
lookup-copied fl id [] = refl
lookup-copied fl id ((j, item) ∷ m) = ground (arith, lookup-copied fl id m)

pub is_listed-keys :
    (id : Bytes) (m : List (Bytes × ℕ)) (r : ℕ)
    → lookup id m ≡ some r
    → is_listed id (keys m) ≡ true
unfolding lookup keys is_listed
is_listed-keys id [] r h = cc
is_listed-keys id ((j, s) ∷ m) r h = ground (arith, is_listed-keys id m r)

pub is_listed-none :
    (id : Bytes) (m : List (Bytes × ℕ)) → lookup id m ≡ none → is_listed id (keys m) ≡ false
unfolding lookup keys is_listed
is_listed-none id [] h = refl
is_listed-none id ((j, s) ∷ m) h = ground (arith, is_listed-none id m)

-- An assignment to an item leaves its revision alone.
abbrev pub KeepsRevision : {F : Type 0} → (ItemProgress F → ItemProgress F) → Type 0
KeepsRevision {F} f = (item : ItemProgress F) → (f item).revision ≡ item.revision

pub initial-IsValid : (F : Type 0) → IsValid (initial_registry F)
unfolding IsDict lookup
initial-IsValid F = record {
  items_dict = tt;
  removed_dict = tt;
  item_le = λ id item h. cc;
  removed_le = λ id r h. cc;
  reset_le = omega arith;
  apart = λ id r h. cc;
}

pub clear-IsValid : {F : Type 0} (st : Registry F) → IsValid (clear_all_item_progress st)
unfolding clear_all_item_progress IsDict lookup
clear-IsValid st = record {
  items_dict = tt;
  removed_dict = tt;
  item_le = λ id item h. cc;
  removed_le = λ id r h. cc;
  reset_le = omega arith;
  apart = λ id r h. cc;
}

module _ (fl : Floats) where
  open fl use {Float}

  pub start-IsValid :
      (id : Bytes) (st : Registry Float) → IsValid st → IsValid (start_item_progress fl id st)
  unfolding start_item_progress fresh_item
  start-IsValid id st v = record {
    items_dict = insert-IsDict id _ st.items v.items_dict;
    removed_dict = erase-IsDict id st.removed v.removed_dict;
    item_le = λ j item h.
        ground
          (arith, lookup-insert id j (fresh_item fl id (st.seq + 1)) st.items, v.item_le j item);
    removed_le = λ j r h. ground (arith, lookup-erase id j st.removed, v.removed_le j r);
    reset_le = omega (arith, v.reset_le);
    apart = λ j r h. ground (
      arith,
      lookup-erase id j st.removed,
      lookup-insert id j (fresh_item fl id (st.seq + 1)) st.items,
      v.apart j r,
    );
  }

  store-IsValid :
      (id : Bytes) (before item : ItemProgress Float) (st : Registry Float)
      → IsValid st
      → lookup id st.items ≡ some before
      → item.revision ≡ before.revision
      → IsValid (store_item fl id before item st)
  unfolding store_item
  store-IsValid id before item st v here same =
      elim (Bool-cases (same_bridge (bridge_of fl item) (bridge_of fl before))) [
        | inl quiet ↦ rw quiet (record {
          items_dict = insert-IsDict id _ st.items v.items_dict;
          removed_dict = v.removed_dict;
          item_le = λ j it h.
              ground
                (arith, lookup-insert id j item st.items, v.item_le j it, v.item_le id before here);
          removed_le = v.removed_le;
          reset_le = v.reset_le;
          apart =
              λ j r h. ground (arith, lookup-insert id j item st.items, =ₛ_iff id j, v.apart j r h);
        })
        | inr changed ↦ rw changed (record {
          items_dict = insert-IsDict id _ st.items v.items_dict;
          removed_dict = v.removed_dict;
          item_le = λ j it h. ground (
            arith,
            lookup-insert id j (record item { revision = st.seq + 1 }) st.items,
            v.item_le j it,
          );
          removed_le = λ j r h. omega (arith, v.removed_le j r h);
          reset_le = omega (arith, v.reset_le);
          apart = λ j r h. ground (
            arith,
            lookup-insert id j (record item { revision = st.seq + 1 }) st.items,
            =ₛ_iff id j,
            v.apart j r h,
          );
        })
      ]

  pub with_item-IsValid :
      (id : Bytes) (f : ItemProgress Float → ItemProgress Float) (st : Registry Float)
      → KeepsRevision f
      → IsValid st
      → IsValid (with_item fl id f st)
  unfolding with_item
  with_item-IsValid id f st keeps v = elim (Option-cases (lookup id st.items)) [
    | inl missing ↦ rw (missing, with_item) v
    | inr (item, here) ↦
        rw (here, with_item) (store-IsValid id item (f item) st v here (keeps item))
  ]
