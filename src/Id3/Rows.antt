-- ===== src/Id3/Rows.antt =====
-- The rows of `simpleKeys` in go_backend/mp3_id3_write.go: what each does to the frames of one id.
use musi_flac.Prelude.{
  ◌≡◌, refl, ap, ◌∙◌, true, false, ◌||◌, List, [], ◌∷◌, ◌++◌, none, some, Bool-cases, Option-cases,
  inl, inr, arith, if◌then◌else◌, Bytes, ◌=ₛ◌, =ₛ_iff, =ₛ_self, append-nil,
}
use musi_flac.Prelude.Dict.{lookup}
use musi_flac.Progress.Delta.{is_listed}
use musi_flac.Id3.Text.{Packages}
use musi_flac.Id3.Edit.{
  Change, no_change, id3_text_payload, all_ids, all_frames, added_frame, set_or_clear, on_field,
  simple_changes,
}
use musi_flac.Id3.Plan.{of_id, of_id-append, is_listed-append, has_no_row, has_row}

module _ (go : Packages) (fields : List (Bytes × Bytes)) where
  pub of_id-added :
      (id i value payload : Bytes)
      → of_id id (added_frame go i value payload)
        ≡ (if i =ₛ id then added_frame go i value payload else [])
  unfolding of_id added_frame
  of_id-added id i value payload = ground arith

  pub on_field_found :
      (key v : Bytes) (change : Bytes → Change)
      → lookup key fields ≡ some v
      → on_field go fields key change ≡ change v
  unfolding on_field
  on_field_found key v change there = ground (arith, there)

  pub on_field_missing :
      (key : Bytes) (change : Bytes → Change)
      → lookup key fields ≡ none
      → on_field go fields key change ≡ no_change
  unfolding on_field
  on_field_missing key change missing = ground (arith, missing)

  pub of_id-on_field :
      (id key : Bytes) (change : Bytes → Change)
      → ((v : Bytes) → of_id id (change v).frames ≡ [])
      → of_id id (on_field go fields key change).frames ≡ []
  of_id-on_field id key change none_of = elim (Option-cases (lookup key fields)) [
    | inl missing ↦
        ap (λ (c : Change). of_id id c.frames) (on_field_missing key change missing)
        ∙ unfold of_id in refl
    | inr (v, there) ↦
        ap (λ (c : Change). of_id id c.frames) (on_field_found key v change there) ∙ none_of v
  ]

  pub set_or_clear_other :
      (id i : Bytes) (aliases : List Bytes) (v : Bytes)
      → (i =ₛ id) ≡ false
      → of_id id (set_or_clear go i aliases v).frames ≡ []
  unfolding set_or_clear
  set_or_clear_other id i aliases v other =
      ground (arith, other, of_id-added id i v (id3_text_payload v))

  of_id-simple_none :
      (id : Bytes) (rows : List (Bytes × Bytes × List Bytes))
      → has_no_row id rows ≡ true
      → of_id id (all_frames (simple_changes go fields rows)) ≡ []
  unfolding simple_changes all_frames has_no_row
  of_id-simple_none id [] h = unfold of_id in refl
  of_id-simple_none id ((k, i, aliases) ∷ rows) h =
      let first = on_field go fields k (set_or_clear go i aliases) in
      let later = all_frames (simple_changes go fields rows) in
      let mine =
        of_id-on_field id k (set_or_clear go i aliases)
          (λ v. set_or_clear_other id i aliases v (ground (arith, h))) in
      of_id-append id first.frames later
      ∙ ap (λ fs. fs ++ of_id id later) mine
      ∙ of_id-simple_none id rows (ground (arith, h))

  set_or_clear_own :
      (id : Bytes) (aliases : List Bytes) (v : Bytes)
      → of_id id (set_or_clear go id aliases v).frames ≡ added_frame go id v (id3_text_payload v)
  unfolding set_or_clear
  set_or_clear_own id aliases v =
      ground (arith, =ₛ_self id, of_id-added id id v (id3_text_payload v))

  set_or_clear_ids :
      (id : Bytes) (aliases : List Bytes) (v : Bytes)
      → is_listed id (set_or_clear go id aliases v).ids ≡ true
  unfolding set_or_clear is_listed
  set_or_clear_ids id aliases v = ground (arith, =ₛ_self id)

  -- The row of a field that the edit has: its frame, and the id that is dropped.
  pub simple_row :
      (key id v : Bytes) (rows : List (Bytes × Bytes × List Bytes))
      → has_row key id rows ≡ true
      → lookup key fields ≡ some v
      → (of_id id (all_frames (simple_changes go fields rows))
          ≡ added_frame go id v (id3_text_payload v))
        × (is_listed id (all_ids (simple_changes go fields rows)) ≡ true)
  unfolding simple_changes all_frames has_row all_ids
  simple_row key id v [] row there = cc
  simple_row key id v ((k, i, aliases) ∷ rows) row there =
      let first = on_field go fields k (set_or_clear go i aliases) in
      let later = all_frames (simple_changes go fields rows) in
      let ids = all_ids (simple_changes go fields rows) in
      elim (Bool-cases (i =ₛ id)) [
        | inl same ↦
            let none_later = of_id-simple_none id rows (ground (arith, same, row)) in
            let this : k ≡ key = (=ₛ_iff k key).0 (ground (arith, same, row)) in
            let i_id = (=ₛ_iff i id).0 same in
            let found : first ≡ set_or_clear go id aliases v =
              ap (λ j. on_field go fields j (set_or_clear go i aliases)) this
              ∙ ap (λ j. on_field go fields key (set_or_clear go j aliases)) i_id
              ∙ on_field_found key v (set_or_clear go id aliases) there in
            (
              of_id-append id first.frames later
                  ∙ ap (λ fs. of_id id first.frames ++ fs) none_later
                  ∙ append-nil (of_id id first.frames)
                  ∙ ap (λ (c : Change). of_id id c.frames) found
                  ∙ set_or_clear_own id aliases v,
              is_listed-append id first.ids ids
                  ∙ ap (λ (c : Change). is_listed id c.ids || is_listed id ids) found
                  ∙ ground (arith, set_or_clear_ids id aliases v),
            )
        | inr other ↦
            let ih = simple_row key id v rows (ground (arith, other, row)) there in
            let mine =
              of_id-on_field id k (set_or_clear go i aliases)
                (λ v. set_or_clear_other id i aliases v other) in
            (
              of_id-append id first.frames later ∙ ap (λ fs. fs ++ of_id id later) mine ∙ ih.0,
              is_listed-append id first.ids ids ∙ ground (arith, ih.1),
            )
      ]
