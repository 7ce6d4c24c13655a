-- ===== src/Progress/Prune.antt =====
-- `RemoveItemProgress` and `pruneRemovedProgressLocked` of go_backend/progress.go.
use musi_flac.Prelude.{
  ℕ, zero, suc, ◌+◌, ◌≤◌, ◌≡◌, sym, ◌∙◌, inl, inr, Bool, true, List, [], ◌∷◌, Option, none, some,
  arith, ltb, length, get_or, All, Bytes, =ₛ_iff, =ₛ_self, ◌⊎◌,
}
use musi_flac.Prelude.Dict.{
  lookup, insert, erase, filter_dict, IsDict, keep_if, lookup-insert, lookup-erase, lookup-filter,
  insert-IsDict, erase-IsDict, filter_dict-IsDict, length-insert,
}
use musi_flac.Progress.State.{Registry}
use musi_flac.Progress.Items.{
  sorted_revisions, cutoff_of, max_removed_progress_entries, prune_removed_progress_locked,
  remove_item_progress,
}
use musi_flac.Progress.Invariant.{IsValid}
use musi_flac.Progress.Median.{All-insert_sorted, prune_halves}

-- Where at most 512 deletions are remembered, at most 512 are after any removal.
pub remove-bounded :
    {F : Type 0} (id : Bytes) (st : Registry F)
    → length st.removed ≤ max_removed_progress_entries
    → length (remove_item_progress id st).removed ≤ max_removed_progress_entries
unfolding remove_item_progress prune_removed_progress_locked
remove-bounded id st h =
    let m = insert id (st.seq + 1) st.removed in
    ground (arith, length-insert id (st.seq + 1) st.removed, prune_halves m)

All-revisions :
    (n : ℕ) (m : List (Bytes × ℕ))
    → IsDict m
    → ((id : Bytes) (r : ℕ) → lookup id m ≡ some r → r ≤ n)
    → All (λ r. r ≤ n) (sorted_revisions m)
unfolding sorted_revisions IsDict lookup
All-revisions n [] d h = tt
All-revisions n ((j, r) ∷ m) d h =
    All-insert_sorted (λ s. s ≤ n) r (sorted_revisions m) (h j r (rw =ₛ_self))
      (All-revisions n m d.1 (λ id s e. h id s (ground (arith, =ₛ_iff j id, d.0))))

All-get_or_le : (n : ℕ) (rs : List ℕ) (i : ℕ) → All (λ r. r ≤ n) rs → get_or rs i 0 ≤ n
All-get_or_le n [] i h = omega arith
All-get_or_le n (r ∷ rs) zero h = h.0
All-get_or_le n (r ∷ rs) (suc i) h = All-get_or_le n rs i h.1

-- No deletion is newer than the sequence number, so the bound of pruning is not.
pub cutoff_of-le :
    (n : ℕ) (m : List (Bytes × ℕ))
    → IsDict m
    → ((id : Bytes) (r : ℕ) → lookup id m ≡ some r → r ≤ n)
    → cutoff_of m ≤ n
unfolding cutoff_of
cutoff_of-le n m d h = All-get_or_le n (sorted_revisions m) _ (All-revisions n m d h)

keep_if-some :
    {V : Type 0} (p : V → Bool) (o : Option V) (v : V) → keep_if p o ≡ some v → o ≡ some v
unfolding keep_if
keep_if-some p none v h = h
keep_if-some p (some w) v h = ground arith

pub prune-IsValid :
    {F : Type 0} (st : Registry F) → IsValid st → IsValid (prune_removed_progress_locked st)
unfolding prune_removed_progress_locked
prune-IsValid st v =
    let above = λ (r : ℕ). ltb (cutoff_of st.removed) r in
    let kept = λ (id : Bytes) (r : ℕ) (h : lookup id (filter_dict above st.removed) ≡ some r).
      keep_if-some above (lookup id st.removed) r
        (sym (lookup-filter above id st.removed v.removed_dict) ∙ h) in
    record {
      items_dict = v.items_dict;
      removed_dict = filter_dict-IsDict above st.removed v.removed_dict;
      item_le = v.item_le;
      removed_le = λ id r h. v.removed_le id r (kept id r h);
      reset_le =
          ground (arith, v.reset_le, cutoff_of-le st.seq st.removed v.removed_dict v.removed_le);
      apart = λ id r h. v.apart id r (kept id r h);
    }

-- The registry of a removal, before pruning.
unfoldable pub without : {F : Type 0} → Bytes → Registry F → Registry F
without id st = record st {
  items = erase id st.items;
  removed = insert id (st.seq + 1) st.removed;
  seq = st.seq + 1;
  dirty = true;
}

pub without-IsValid :
    {F : Type 0} (id : Bytes) (st : Registry F) → IsValid st → IsValid (without id st)
unfolding without
without-IsValid id st v = record {
  items_dict = erase-IsDict id st.items v.items_dict;
  removed_dict = insert-IsDict id (st.seq + 1) st.removed v.removed_dict;
  item_le = λ j item h. ground (arith, lookup-erase id j st.items, v.item_le j item);
  removed_le =
      λ j r h. ground (arith, lookup-insert id j (st.seq + 1) st.removed, v.removed_le j r);
  reset_le = omega (arith, v.reset_le);
  apart = λ j r h.
      ground (
        arith,
        lookup-insert id j (st.seq + 1) st.removed,
        lookup-erase id j st.items,
        v.apart j r,
      );
}

-- A removal does nothing but mark the cache, or removes, or removes and prunes.
pub remove_item_progress-cases :
    {F : Type 0} (id : Bytes) (st : Registry F)
    → (remove_item_progress id st ≡ record st { dirty = true })
      ⊎ (remove_item_progress id st ≡ without id st)
      ⊎ (remove_item_progress id st ≡ prune_removed_progress_locked (without id st))
unfolding remove_item_progress without
remove_item_progress-cases id st = ground arith

pub remove-IsValid :
    {F : Type 0} (id : Bytes) (st : Registry F) → IsValid st → IsValid (remove_item_progress id st)
remove-IsValid id st v = elim (remove_item_progress-cases id st) [
  | inl e ↦ rw e (record {
    items_dict = v.items_dict;
    removed_dict = v.removed_dict;
    item_le = v.item_le;
    removed_le = v.removed_le;
    reset_le = v.reset_le;
    apart = v.apart;
  })
  | inr (inl e) ↦ rw e (without-IsValid id st v)
  | inr (inr e) ↦ rw e (prune-IsValid (without id st) (without-IsValid id st v))
]
