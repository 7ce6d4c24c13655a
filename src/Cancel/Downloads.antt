-- ===== src/Cancel/Downloads.antt =====
-- `cancelDownload` and `cancelAllActiveDownloads` of go_backend/cancel.go: cancellation and progress.
use musi_flac.Prelude.{
  ◌≡◌, refl, inl, inr, Bool, false, List, [], ◌∷◌, none, Option-cases, arith, if◌then◌else◌, Bytes,
  ◌=ₛ◌, =ₛ_iff,
}
use musi_flac.Prelude.Dict.{lookup, lookup-erase}
use musi_flac.Progress.State.{Registry}
use musi_flac.Progress.Items.{remove_item_progress, prune_removed_progress_locked}
use musi_flac.Progress.Delta.{is_listed}
use musi_flac.Cancel.{
  CancelRegistry, request_cancel_active, cancel_download, remove_all, cancel_all_active_downloads,
}
use musi_flac.Cancel.Invariant.{IsValid}
use musi_flac.Cancel.Sweeping.{in_use}
use musi_flac.Cancel.Effect.{IsCut, request_cancel_active-IsCut, request_cancel-IsCut}

module _ {F : Type 0} where
  lookup-remove :
      (id j : Bytes) (st : Registry F)
      → lookup j (remove_item_progress id st).items ≡ (if id =ₛ j then none else lookup j st.items)
  unfolding remove_item_progress prune_removed_progress_locked
  lookup-remove id j st = elim (Option-cases (lookup id st.items)) [
    | inl missing ↦ ground (arith, missing, =ₛ_iff id j)
    | inr (item, here) ↦ ground (arith, here, lookup-erase id j st.items)
  ]

  lookup-remove_all :
      (ids : List Bytes) (j : Bytes) (st : Registry F)
      → lookup j (remove_all ids st).items ≡ (if is_listed j ids then none else lookup j st.items)
  unfolding remove_all is_listed
  lookup-remove_all [] j st = refl
  lookup-remove_all (id ∷ ids) j st =
      ground (arith, lookup-remove_all ids j (remove_item_progress id st), lookup-remove id j st)

  -- What a cancellation of downloads does to an id: `hit` is whether the id is meant.
  pub record IsStopped (id : Bytes) (hit : Bool) (before after : CancelRegistry)
      (progress progress' : Registry F) : Type 0 where
    pub cut : IsCut id hit before after
    pub shown : lookup id progress'.items ≡ (if hit then none else lookup id progress.items)

  -- `cancelAllActiveDownloads` on a valid registry returns the ids that downloads run under, marks just
  -- those, cancels their contexts, and takes just their progress away: no other item is touched.
  pub cancel_all_active_downloads-IsStopped :
      (id : Bytes) (r : CancelRegistry) (st : Registry F)
      → (id =ₛ []) ≡ false
      → IsValid r
      → let (ids, r', st') = cancel_all_active_downloads r st in
        (is_listed id ids ≡ in_use (lookup id r.entries))
        × IsStopped id (is_listed id ids) r r' st st'
  unfolding cancel_all_active_downloads
  cancel_all_active_downloads-IsStopped id r st named v =
      let exact = request_cancel_active-IsCut id r named v in
      (
        exact.0,
        record { cut = exact.1; shown = lookup-remove_all (request_cancel_active r).0 id st },
      )

  -- `cancelDownload` of an id that is not empty marks that id, cancels its context and takes its
  -- progress away, whether a download runs under it or not; any other id stays as it was.
  pub cancel_download-IsStopped :
      (id j : Bytes) (r : CancelRegistry) (st : Registry F)
      → (id =ₛ []) ≡ false
      → (j =ₛ []) ≡ false
      → IsValid r
      → let (r', st') = cancel_download id r st in IsStopped j (id =ₛ j) r r' st st'
  unfolding cancel_download
  cancel_download-IsStopped id j r st named named' v =
      rw named
        (record { cut = request_cancel-IsCut id j r named named' v; shown = lookup-remove id j st })
