-- ===== src/Id3/Spares.antt =====
-- Which frames the parts of `EditMP3Fields` of go_backend/mp3_id3_write.go leave alone.
use musi_flac.Prelude.{
  ◌≡◌, refl, sym, ◌∙◌, subst, false, ◌||◌, List, [], ◌∷◌, ◌++◌, Option, none, some, Bool-cases,
  Option-cases, inl, inr, arith, All, All-append, Bytes, codes, ◌=ₛ◌,
}
use musi_flac.Prelude.Dict.{lookup}
use musi_flac.Progress.Delta.{is_listed}
use musi_flac.Id3.{Frame}
use musi_flac.Id3.Text.{Packages}
use musi_flac.Id3.Edit.{
  Change, no_change, id3_text_payload, id3_lang_text_payload, id3_txxx_payload, all_ids, all_frames,
  simple_keys, replay_gain_keys, set_or_clear, lang_change, txxx_change, on_field, simple_changes,
  txxx_changes, index_change, cover_change, picture_change, cover_path, rest_changes, has_field,
}
use musi_flac.Id3.Plan.{of_id, of_id-append, is_listed-append, other_ids}
use musi_flac.Id3.Rows.{of_id-added, on_field_found, on_field_missing}

-- A part of the edit leaves the frames of an id alone.
pub record Spares (id : Bytes) (change : Change) : Type 0 where
  pub frames : of_id id change.frames ≡ []
  pub ids : is_listed id change.ids ≡ false

no_change-Spares : (id : Bytes) → Spares id no_change
no_change-Spares id = record { frames = unfold of_id in refl; ids = unfold is_listed in refl }

pub Spares-all :
    (id : Bytes) (cs : List Change)
    → All (Spares id) cs
    → (of_id id (all_frames cs) ≡ []) × (is_listed id (all_ids cs) ≡ false)
unfolding all_frames all_ids
Spares-all id [] h = (unfold of_id in refl, unfold is_listed in refl)
Spares-all id (c ∷ cs) h =
    let ih = Spares-all id cs h.1 in
    (
      of_id-append id c.frames (all_frames cs) ∙ ground (arith, h.0.frames, ih.0),
      is_listed-append id c.ids (all_ids cs) ∙ ground (arith, h.0.ids, ih.1),
    )

-- The ids that the rows drop.
unfoldable pub row_ids : List (Bytes × Bytes × List Bytes) → List Bytes
row_ids [] = []
row_ids ((key, i, aliases) ∷ rows) = (i ∷ aliases) ++ row_ids rows

-- The ids of all frames that the editor controls.
unfoldable pub known_ids : List Bytes
known_ids = row_ids simple_keys ++ other_ids

module _ (go : Packages) (fields : List (Bytes × Bytes)) (id : Bytes) where
  on_field-Spares :
      (key : Bytes) (change : Bytes → Change)
      → ((v : Bytes) → Spares id (change v))
      → Spares id (on_field go fields key change)
  on_field-Spares key change each = elim (Option-cases (lookup key fields)) [
    | inl missing ↦
        subst (Spares id) (sym (on_field_missing go fields key change missing))
          (no_change-Spares id)
    | inr (v, there) ↦
        subst (Spares id) (sym (on_field_found go fields key v change there)) (each v)
  ]

  set_or_clear-Spares :
      (i : Bytes) (aliases : List Bytes) (v : Bytes)
      → is_listed id (i ∷ aliases) ≡ false
      → Spares id (set_or_clear go i aliases v)
  unfolding set_or_clear is_listed
  set_or_clear-Spares i aliases v other = record {
    frames = ground (arith, other, of_id-added go fields id i v (id3_text_payload v));
    ids = other;
  }

  lang_change-Spares : (i v : Bytes) → (i =ₛ id) ≡ false → Spares id (lang_change go i v)
  unfolding lang_change is_listed
  lang_change-Spares i v other = record {
    frames = ground (arith, other, of_id-added go fields id i v (id3_lang_text_payload v));
    ids = ground (arith, other);
  }

  txxx_changes-Spares :
      (rows : List (Bytes × Bytes))
      → (codes "TXXX" =ₛ id) ≡ false
      → All (Spares id) (txxx_changes go fields rows)
  unfolding txxx_changes txxx_change is_listed
  txxx_changes-Spares [] other = tt
  txxx_changes-Spares ((key, desc) ∷ rows) other = (
    on_field-Spares key (txxx_change go desc) (λ v. record {
      frames =
          ground
            (arith, other, of_id-added go fields id (codes "TXXX") v (id3_txxx_payload desc v));
      ids = refl;
    }),
    txxx_changes-Spares rows other,
  )

  index_change-Spares :
      (number_key total_key i : Bytes) (frames : List Frame)
      → is_listed id (i ∷ []) ≡ false
      → Spares id (index_change go fields number_key total_key i frames)
  unfolding index_change
  index_change-Spares number_key total_key i frames other =
      elim (Bool-cases (has_field go fields number_key || has_field go fields total_key)) [
        | inl edited ↦ rw edited (set_or_clear-Spares i [] _ other)
        | inr kept ↦ rw kept (no_change-Spares id)
      ]

  picture_change-Spares :
      (cover : Option Bytes) → (codes "APIC" =ₛ id) ≡ false → Spares id (picture_change go cover)
  unfolding picture_change is_listed of_id
  picture_change-Spares none other = no_change-Spares id
  picture_change-Spares (some cover) other = elim (Bool-cases (cover =ₛ [])) [
    | inl missing ↦ rw missing (no_change-Spares id)
    | inr found ↦ rw found record { frames = ground (arith, other); ids = ground (arith, other) }
  ]

  cover_change-Spares :
      (read_file : Bytes → Option Bytes)
      → (codes "APIC" =ₛ id) ≡ false
      → Spares id (cover_change go fields read_file)
  unfolding cover_change
  cover_change-Spares read_file other = elim (Bool-cases (cover_path go fields =ₛ [])) [
    | inl absent ↦ rw absent (no_change-Spares id)
    | inr there ↦ rw there (picture_change-Spares (read_file (cover_path go fields)) other)
  ]

  -- The parts of an edit behind `simpleKeys`.
  pub rest_changes-Spares :
      (descriptions : List (Bytes × Bytes)) (read_file : Bytes → Option Bytes) (frames : List Frame)
      → is_listed id other_ids ≡ false
      → All (Spares id) (rest_changes go fields descriptions read_file frames)
  unfolding rest_changes is_listed
  rest_changes-Spares descriptions read_file frames other =
      let h_txxx : (codes "TXXX" =ₛ id) ≡ false = ground (arith, other) in
      let gain = txxx_changes go fields replay_gain_keys in
      let identity = txxx_changes go fields descriptions in
      let tail : All (Spares id) (
          on_field go fields (codes "compilation") (set_or_clear go (codes "TCMP") [])
          ∷ cover_change go fields read_file
          ∷ []) =
        (
          on_field-Spares (codes "compilation") (set_or_clear go (codes "TCMP") [])
              (λ v. set_or_clear-Spares (codes "TCMP") [] v (ground (arith, other))),
          (cover_change-Spares read_file (ground (arith, other)), tt),
        ) in
      let comment =
        on_field-Spares (codes "comment") (lang_change go (codes "COMM"))
          (λ v. lang_change-Spares (codes "COMM") v (ground (arith, other))) in
      let lyrics =
        on_field-Spares (codes "lyrics") (lang_change go (codes "USLT"))
          (λ v. lang_change-Spares (codes "USLT") v (ground (arith, other))) in
      let track =
        index_change-Spares (codes "track_number") (codes "track_total") (codes "TRCK") frames
          (ground (arith, other)) in
      let disc =
        index_change-Spares (codes "disc_number") (codes "disc_total") (codes "TPOS") frames
          (ground (arith, other)) in
      let texts =
        All-append (Spares id) gain _ (txxx_changes-Spares replay_gain_keys h_txxx)
          (All-append (Spares id) identity _ (txxx_changes-Spares descriptions h_txxx) tail) in
      (comment, (lyrics, (track, (disc, texts))))

  pub simple_changes-Spares :
      (rows : List (Bytes × Bytes × List Bytes))
      → is_listed id (row_ids rows) ≡ false
      → All (Spares id) (simple_changes go fields rows)
  unfolding simple_changes row_ids
  simple_changes-Spares [] other = tt
  simple_changes-Spares ((key, i, aliases) ∷ rows) other =
      let split = is_listed-append id (i ∷ aliases) (row_ids rows) in
      (
        on_field-Spares key (set_or_clear go i aliases)
            (λ v. set_or_clear-Spares i aliases v (ground (arith, other, split))),
        simple_changes-Spares rows (ground (arith, other, split)),
      )
