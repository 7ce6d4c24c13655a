-- ===== src/Progress/Sync.antt =====
-- What has changed in the registry of go_backend/progress.go since an earlier state of it: whatever
-- the app saw then and is not the same now is newer than the sequence number of that state.
use musi_flac.Prelude.{
  ℕ, ◌+◌, ◌≤◌, ◌<◌, ◌≡◌, ◌⊎◌, ap, inl, inr, none, some, Option-cases, Bool-cases, arith, ltb, Bytes,
  ◌=ₛ◌, =ₛ_iff,
}
use musi_flac.Prelude.Dict.{lookup, keep_if, lookup-insert, lookup-erase, lookup-filter}
use musi_flac.Progress.State.{
  Floats, ItemProgress, Registry, bridge_of, same_bridge, same_bridge→eq,
}
use musi_flac.Progress.Items.{
  cutoff_of, prune_removed_progress_locked, remove_item_progress, clear_all_item_progress,
  fresh_item, start_item_progress, store_item, with_item,
}
use musi_flac.Progress.Delta.{bridged, view_of}
use musi_flac.Progress.Invariant.{IsValid, KeepsRevision}
use musi_flac.Progress.Prune.{without, without-IsValid, remove_item_progress-cases}

module _ (fl : Floats) where
  open fl use {Float}

  pub record IsSince (old now : Registry Float) : Type 0 where
    pub seq_le : old.seq ≤ now.seq
    pub kept :
        now.reset ≤ old.seq
        → (id : Bytes) (item : ItemProgress Float) → lookup id now.items ≡ some item
        → item.revision ≤ old.seq
        → view_of fl old.items id ≡ some (bridge_of fl item)
    pub gone :
        now.reset ≤ old.seq
        → (id : Bytes) → lookup id now.items ≡ none
        → (view_of fl old.items id ≡ none)
          ⊎ ((r : ℕ) × (lookup id now.removed ≡ some r) × (old.seq < r))

  pub refl-IsSince : (st : Registry Float) → IsSince st st
  unfolding view_of bridged
  refl-IsSince st = record {
    seq_le = omega arith;
    kept = λ _ id item h le. ap (bridged fl) h;
    gone = λ _ id h. inl (ap (bridged fl) h);
  }

  pub start-IsSince :
      (old now : Registry Float) (id : Bytes)
      → IsSince old now
      → IsSince old (start_item_progress fl id now)
  unfolding start_item_progress fresh_item
  start-IsSince old now id s =
      let item' = fresh_item fl id (now.seq + 1) in
      record {
        seq_le = omega (arith, s.seq_le);
        kept = λ r j item h le.
            ground (arith, lookup-insert id j item' now.items, s.seq_le, s.kept r j item);
        gone = λ r j h.
            ground (
              arith,
              lookup-insert id j item' now.items,
              lookup-erase id j now.removed,
              s.gone r j,
            );
      }

  store-IsSince :
      (old now : Registry Float) (id : Bytes) (before item : ItemProgress Float)
      → lookup id now.items ≡ some before
      → item.revision ≡ before.revision
      → IsSince old now
      → IsSince old (store_item fl id before item now)
  unfolding store_item
  store-IsSince old now id before item here same s =
      elim (Bool-cases (same_bridge (bridge_of fl item) (bridge_of fl before))) [
        | inl quiet ↦ rw quiet (record {
          seq_le = s.seq_le;
          kept = λ r j it h le. ground (
            arith,
            lookup-insert id j item now.items,
            =ₛ_iff id j,
            same_bridge→eq (bridge_of fl item) (bridge_of fl before) quiet,
            s.kept r j it,
            s.kept r id before here,
          );
          gone = λ r j h. ground (arith, lookup-insert id j item now.items, s.gone r j);
        })
        | inr changed ↦
            let item' : ItemProgress Float = record item { revision = now.seq + 1 } in
            rw changed (record {
              seq_le = omega (arith, s.seq_le);
              kept = λ r j it h le.
                  ground (arith, lookup-insert id j item' now.items, s.seq_le, s.kept r j it);
              gone = λ r j h. ground (arith, lookup-insert id j item' now.items, s.gone r j);
            })
      ]

  pub with_item-IsSince :
      (old now : Registry Float) (id : Bytes) (f : ItemProgress Float → ItemProgress Float)
      → KeepsRevision f
      → IsSince old now
      → IsSince old (with_item fl id f now)
  unfolding with_item
  with_item-IsSince old now id f keeps s = elim (Option-cases (lookup id now.items)) [
    | inl missing ↦ rw (missing, with_item) s
    | inr (item, here) ↦
        rw (here, with_item) (store-IsSince old now id item (f item) here (keeps item) s)
  ]

  without-IsSince :
      (old now : Registry Float) (id : Bytes) → IsSince old now → IsSince old (without id now)
  unfolding without
  without-IsSince old now id s = record {
    seq_le = omega (arith, s.seq_le);
    kept = λ r j item h le. ground (arith, lookup-erase id j now.items, s.kept r j item);
    gone = λ r j h. elim (Bool-cases (id =ₛ j)) [
      | inl same ↦ inr (
        now.seq + 1,
        ground (arith, lookup-insert id j (now.seq + 1) now.removed),
        omega (arith, s.seq_le),
      )
      | inr other ↦
          rw (lookup-insert id j (now.seq + 1) now.removed, other)
            (s.gone r j (ground (arith, lookup-erase id j now.items)))
    ];
  }

  -- Pruning forgets old deletions only for those who are sent everything anew.
  prune-IsSince :
      (old now : Registry Float)
      → IsValid now
      → IsSince old now
      → IsSince old (prune_removed_progress_locked now)
  unfolding prune_removed_progress_locked keep_if
  prune-IsSince old now v s =
      let cutoff = cutoff_of now.removed in
      let above = λ (r : ℕ). ltb cutoff r in
      record {
        seq_le = s.seq_le;
        kept = λ r j item h le. s.kept (ground arith) j item h le;
        gone = λ r j h. elim (s.gone (ground arith) j h) [
          | inl never ↦ inl never
          | inr (revision, listed, newer) ↦
              inr
                (revision, ground (arith, lookup-filter above j now.removed v.removed_dict), newer)
        ];
      }

  pub remove-IsSince :
      (old now : Registry Float) (id : Bytes)
      → IsValid now
      → IsSince old now
      → IsSince old (remove_item_progress id now)
  remove-IsSince old now id v s = elim (remove_item_progress-cases id now) [
    | inl e ↦ rw e (record { seq_le = s.seq_le; kept = s.kept; gone = s.gone })
    | inr (inl e) ↦ rw e (without-IsSince old now id s)
    | inr (inr e) ↦ rw e (
        prune-IsSince old (without id now) (without-IsValid id now v)
          (without-IsSince old now id s))
  ]

  pub clear-IsSince :
      (old now : Registry Float) → IsSince old now → IsSince old (clear_all_item_progress now)
  unfolding clear_all_item_progress
  clear-IsSince old now s = record {
    seq_le = omega (arith, s.seq_le);
    kept = λ r. absurd (omega (arith, s.seq_le));
    gone = λ r. absurd (omega (arith, s.seq_le));
  }
