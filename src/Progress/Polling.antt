-- ===== src/Progress/Polling.antt =====
-- A client that polls the registry of go_backend/progress.go for deltas.
use musi_flac.Prelude.{
  ℕ, ◌≤◌, ◌<◌, ◌≡◌, ◌⊎◌, refl, ap, ◌∙◌, inl, inr, Bool, true, false, List, none, some, Option-cases,
  Bool-cases, arith, ltb, ◌==◌, ◌||◌, Bytes, ℤ, pos, negsuc, pos_part, ltb_ℤ, le→leb, ltb→leb,
}
use native.Mathlib.Decide.{dec_le}
use musi_flac.Prelude.Dict.{lookup, filter_dict, keep_if, lookup-filter}
use musi_flac.Progress.State.{Floats, ItemProgress, Registry}
use musi_flac.Progress.Delta.{
  marshalled, Delta, copied, keys, delta_from, get_multi_progress_delta, is_listed, View, bridged,
  view_of, apply_delta,
}
use musi_flac.Progress.Invariant.{IsValid, lookup-copied, is_listed-keys, is_listed-none}
use musi_flac.Progress.Sync.{IsSince, refl-IsSince}
use musi_flac.Progress.Runs.{Op, run, run-IsKept}

module _ (fl : Floats) where
  open fl use {Float}

  -- An answer with everything, whatever the client knew.
  apply-reset :
      (since : ℕ) (st : Registry Float) (view : View fl) (id : Bytes)
      → (since == 0 || ltb since st.reset) ≡ true
      → apply_delta fl (some (delta_from since st)) view id ≡ view_of fl st.items id
  unfolding apply_delta delta_from view_of
  apply-reset since st view id h = ground (arith, lookup-copied fl id st.items)

  -- The items and the deletions of an answer with what is new.
  lookup-fresh :
      (since : ℕ) (st : Registry Float) (id : Bytes)
      → IsValid st
      → bridged fl (
          lookup id (
            copied (filter_dict (λ (item : ItemProgress Float). ltb since item.revision) st.items)))
        ≡ bridged fl
            (keep_if (λ (item : ItemProgress Float). ltb since item.revision) (lookup id st.items))
  lookup-fresh since st id v =
      let fresh = λ (item : ItemProgress Float). ltb since item.revision in
      lookup-copied fl id (filter_dict fresh st.items)
      ∙ ap (bridged fl) (lookup-filter fresh id st.items v.items_dict)

  listed_fresh :
      (since : ℕ) (st : Registry Float) (id : Bytes) (r : ℕ)
      → IsValid st
      → lookup id st.removed ≡ some r
      → since < r
      → is_listed id (keys (filter_dict (λ (revision : ℕ). ltb since revision) st.removed)) ≡ true
  listed_fresh since st id r v h newer =
      let fresh = λ (revision : ℕ). ltb since revision in
      is_listed-keys id (filter_dict fresh st.removed) r
        (lookup-filter fresh id st.removed v.removed_dict ∙ unfold keep_if in ground arith)

  not_listed :
      (since : ℕ) (st : Registry Float) (id : Bytes) (item : ItemProgress Float)
      → IsValid st
      → lookup id st.items ≡ some item
      → is_listed id (keys (filter_dict (λ (revision : ℕ). ltb since revision) st.removed)) ≡ false
  not_listed since st id item v h =
      let fresh = λ (revision : ℕ). ltb since revision in
      let absent : lookup id st.removed ≡ none = elim (Option-cases (lookup id st.removed)) [
        | inl e ↦ e
        | inr (r, e) ↦ absurd (ground (arith, v.apart id r e))
      ] in
      is_listed-none id (filter_dict fresh st.removed)
        (lookup-filter fresh id st.removed v.removed_dict ∙ unfold keep_if in ground arith)

  -- An answer with what is new, to a client that knew `old`.
  apply-changes :
      (old now : Registry Float) (id : Bytes)
      → IsValid now
      → IsSince fl old now
      → (old.seq == 0 || ltb old.seq now.reset) ≡ false
      → apply_delta fl (some (delta_from old.seq now)) (view_of fl old.items) id
        ≡ view_of fl now.items id
  unfolding apply_delta delta_from view_of bridged keep_if
  apply-changes old now id v s h =
      let current : now.reset ≤ old.seq = ground arith in
      elim (Option-cases (lookup id now.items)) [
        | inr (item, here) ↦ ground (
          arith,
          lookup-fresh old.seq now id v,
          not_listed old.seq now id item v here,
          s.kept current id item here,
        )
        | inl missing ↦ elim (s.gone current id missing) [
          | inl never ↦ ground (arith, lookup-fresh old.seq now id v)
          | inr (r, listed, newer) ↦
              ground
                (arith, lookup-fresh old.seq now id v, listed_fresh old.seq now id r v listed newer)
        ]
      ]

  -- No answer: nothing that the client sees has changed.
  apply-none :
      (old now : Registry Float) (id : Bytes)
      → IsValid now
      → IsSince fl old now
      → now.seq ≤ old.seq
      → view_of fl old.items id ≡ view_of fl now.items id
  unfolding view_of bridged
  apply-none old now id v s same =
      let current : now.reset ≤ old.seq = omega (arith, v.reset_le) in
      elim (Option-cases (lookup id now.items)) [
        | inr (item, here) ↦ ground (arith, v.item_le id item here, s.kept current id item here)
        | inl missing ↦ elim (s.gone current id missing) [
          | inl never ↦ ground arith
          | inr (r, listed, newer) ↦ absurd (omega (arith, v.removed_le id r listed))
        ]
      ]

  -- A client that saw the registry in a valid state, and asks for a delta with the sequence number of
  -- that state after any operations, is in step again when it has applied the answer, provided that
  -- json.Marshal accepts the delta: it has the bridge state of every item that is there, and of no
  -- other. This holds for the empty answer, for an answer with the changes, and for a reset after
  -- `ClearAllItemProgress` or after pruning.
  pub apply_delta-run :
      (marshals : Delta Float → Bool) (ops : List (Op Float)) (old : Registry Float) (id : Bytes)
      → IsValid old
      → marshals (delta_from old.seq (run fl ops old)) ≡ true
      → apply_delta fl
          (get_multi_progress_delta marshals (pos old.seq) (run fl ops old))
          (view_of fl old.items)
          id
        ≡ view_of fl (run fl ops old).items id
  unfolding get_multi_progress_delta marshalled
  apply_delta-run marshals ops old id v accepted =
      let now = run fl ops old in
      let k = run-IsKept fl ops old old v (refl-IsSince fl old) in
      elim (dec_le now.seq old.seq) [
        | yes same ↦
            rw (le→leb now.seq old.seq same)
              (unfold apply_delta in apply-none old now id k.valid k.since same)
        | no news ↦
            rw (ltb→leb old.seq now.seq (omega arith), accepted)
              (elim (Bool-cases (old.seq == 0 || ltb old.seq now.reset)) [
                | inl reset ↦ apply-reset old.seq now (view_of fl old.items) id reset
                | inr changes ↦ apply-changes old now id k.valid k.since changes
              ])
      ]

  -- A client that asks with 0, with a negative number, or with a number from before the last reset,
  -- and below the sequence number where it is not negative, is sent everything, provided that
  -- json.Marshal accepts the delta: whatever it knew, it is in step when it has applied the answer.
  pub apply_delta-reset :
      (marshals : Delta Float → Bool) (since : ℤ) (st : Registry Float) (view : View fl)
      (id : Bytes)
      → ltb_ℤ since (pos st.seq) ≡ true
      → (pos_part since ≡ 0) ⊎ (pos_part since < st.reset)
      → marshals (delta_from (pos_part since) st) ≡ true
      → apply_delta fl (get_multi_progress_delta marshals since st) view id ≡ view_of fl st.items id
  unfolding get_multi_progress_delta marshalled
  apply_delta-reset marshals (negsuc n) st view id below h accepted =
      rw accepted (apply-reset 0 st view id refl)
  apply_delta-reset marshals (pos since) st view id below h accepted =
      rw (ltb→leb since st.seq (ground arith), accepted)
        (apply-reset since st view id (ground arith))
