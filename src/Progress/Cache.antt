-- ===== src/Progress/Cache.antt =====
-- The JSON that `GetMultiProgress` of go_backend/progress.go keeps.
use musi_flac.Prelude.{
  ◌≡◌, ◌⊎◌, refl, sym, ◌∙◌, inl, inr, false, List, [], ◌∷◌, Option, none, some, Option-cases,
  Bool-cases, arith, Bytes, =ₛ_iff,
}
use musi_flac.Prelude.Dict.{lookup, insert, lookup-insert}
use musi_flac.Progress.State.{
  Floats, ItemProgress, Registry, bridge_of, same_bridge, same_bridge→eq, empty_json,
}
use musi_flac.Progress.Items.{
  prune_removed_progress_locked, remove_item_progress, clear_all_item_progress, start_item_progress,
  store_item, with_item, set_item_preparing_stage, set_item_preparing, set_item_downloading,
  set_item_bytes_total, set_item_bytes_received, set_item_bytes_received_with_speed,
  complete_item_progress, set_item_progress, set_item_finalizing,
}
use musi_flac.Progress.Delta.{get_multi_progress, bridged, view_of}
use musi_flac.Progress.Runs.{
  Op, start, remove, prepare, download, finalize, complete, prepare_stage, total, received,
  received_with_speed, report, clear_all, step, run,
}

module _ (fl : Floats) (render : List (Bytes × ItemProgress fl.Float) → Option Bytes) where
  open fl use {Float}

  -- A text is the rendering of items that the application would see as it sees those of the registry.
  pub record IsRendering (text : Bytes) (st : Registry Float) : Type 0 where
    pub items : List (Bytes × ItemProgress Float)
    pub rendered : render items ≡ some text
    pub seen : (id : Bytes) → view_of fl items id ≡ view_of fl st.items id

  -- The text kept is one, unless it is marked as out of date.
  abbrev pub IsCached : Registry Float → Type 0
  IsCached st = st.dirty ≡ false → IsRendering st.cached st

  -- An item whose bridge state does not change.
  view_of-insert :
      (id j : Bytes) (before item : ItemProgress Float) (m : List (Bytes × ItemProgress Float))
      → lookup id m ≡ some before
      → bridge_of fl item ≡ bridge_of fl before
      → view_of fl (insert id item m) j ≡ view_of fl m j
  unfolding view_of bridged
  view_of-insert id j before item m here same =
      ground (arith, here, same, lookup-insert id j item m, =ₛ_iff id j)

  with_item-IsCached :
      (id : Bytes) (f : ItemProgress Float → ItemProgress Float) (st : Registry Float)
      → IsCached st
      → IsCached (with_item fl id f st)
  unfolding with_item store_item
  with_item-IsCached id f st c = elim (Option-cases (lookup id st.items)) [
    | inl missing ↦ rw (missing, with_item) c
    | inr (before, here) ↦
        rw (here, with_item)
          (elim (Bool-cases (same_bridge (bridge_of fl (f before)) (bridge_of fl before))) [
            | inl quiet ↦
                rw (quiet, store_item)
                  (λ clean.
                    let r = c clean in
                    record {
                      items = r.items;
                      rendered = r.rendered;
                      seen = λ j.
                          r.seen j
                          ∙ sym (
                              view_of-insert id j before (f before) st.items here
                                (same_bridge→eq _ _ quiet));
                    })
            | inr changed ↦ rw (changed, store_item) (λ clean. cc)
          ])
  ]

  step-IsCached : (op : Op Float) (st : Registry Float) → IsCached st → IsCached (step fl op st)
  unfolding step start_item_progress remove_item_progress prune_removed_progress_locked
      clear_all_item_progress set_item_preparing set_item_preparing_stage set_item_downloading
      set_item_finalizing complete_item_progress set_item_bytes_total set_item_bytes_received
      set_item_bytes_received_with_speed set_item_progress
  step-IsCached (start id) st c = λ clean. cc
  step-IsCached (remove id) st c = λ clean. absurd (ground (arith, clean))
  step-IsCached clear_all st c = λ clean. cc
  step-IsCached (prepare id) st c = with_item-IsCached id _ st c
  step-IsCached (download id) st c = with_item-IsCached id _ st c
  step-IsCached (finalize id) st c = with_item-IsCached id _ st c
  step-IsCached (complete id) st c = with_item-IsCached id _ st c
  step-IsCached (prepare_stage id stage) st c = with_item-IsCached id _ st c
  step-IsCached (total id n) st c = with_item-IsCached id _ st c
  step-IsCached (received id n) st c = with_item-IsCached id _ st c
  step-IsCached (received_with_speed id n speed) st c = with_item-IsCached id _ st c
  step-IsCached (report id p n t) st c = with_item-IsCached id _ st c

  run-IsCached :
      (ops : List (Op Float)) (st : Registry Float) → IsCached st → IsCached (run fl ops st)
  unfolding run
  run-IsCached [] st c = c
  run-IsCached (op ∷ ops) st c = run-IsCached ops (step fl op st) (step-IsCached op st c)

  -- One call, on any registry.
  get-IsRendering :
      (now : Registry Float)
      → IsCached now
      → let (text, after) = get_multi_progress render now in
        (IsRendering text now ⊎ ((text ≡ empty_json) × (render now.items ≡ none))) × IsCached after
  unfolding get_multi_progress
  get-IsRendering now fresh = elim (Bool-cases now.dirty) [
    | inr clean ↦ simp clean (inl (fresh clean), λ same. fresh clean)
    | inl stale ↦ simp stale (elim (Option-cases (render now.items)) [
      | inl refused ↦ simp refused (inr (refl, refl), λ same. cc)
      | inr (json, rendered) ↦ simp rendered (
        inl (record { items = now.items; rendered = rendered; seen = λ id. refl }),
        λ clean. record { items = now.items; rendered = rendered; seen = λ id. refl },
      )
    ])
  ]

  -- What `GetMultiProgress` answers after any operations, on a registry whose kept text is up to date
  -- or marked: a rendering of items that the application sees as it sees those of the registry, also
  -- where the text was kept from before the operations; or the text without items, only where
  -- json.Marshal refuses the items. The registry it leaves is such a registry again.
  pub get_multi_progress-IsRendering :
      (ops : List (Op Float)) (st : Registry Float)
      → IsCached st
      → let (text, after) = get_multi_progress render (run fl ops st) in
        (IsRendering text (run fl ops st)
          ⊎ ((text ≡ empty_json) × (render (run fl ops st).items ≡ none)))
        × IsCached after
  get_multi_progress-IsRendering ops st c = get-IsRendering (run fl ops st) (run-IsCached ops st c)
