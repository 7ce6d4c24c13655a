-- ===== src/Ogg/FieldEdit.antt =====
-- What the edit of the comments in go_backend/ogg_edit.go leaves of a plain field.
use musi_flac.Prelude.{
  KeepsCapitals, is_capital, ◌≡◌, refl, sym, ap, ◌∙◌, inl, inr, ◌⊎◌, Bool, true, false, not, ◌&&◌,
  List, [], ◌∷◌, ◌++◌, Option, none, some, arith, if◌then◌else◌, Bool-cases, Option-cases, Bytes,
  codes, ◌=ₛ◌, All, ok, ◌>>=◌, chain_value, ok-injective, ℤ,
}
use musi_flac.Prelude.Dict.{lookup}
use musi_flac.Id3.Text.{Packages}
use musi_flac.Vorbis.{comment_of, has_key}
use musi_flac.Vorbis.Set.{IsKey, own, has_key-comment_of}
use musi_flac.Vorbis.Fields.{apply_vorbis_field_edits}
use musi_flac.Vorbis.Untouched.{literal-IsKey}
use musi_flac.Vorbis.Filtered.{
  filtered, Spared, filtered-remove, filtered-put, filtered-set_or_clear,
}
use musi_flac.Vorbis.Edited.{is_last, apply_vorbis_field_edits-last}
use musi_flac.Vorbis.Keys.{AreRows, are, are_All, Spared-all, own-filtered}
use musi_flac.Ogg.Fields.{
  set_gain, gain_value, gain_edit, apply_opus_replay_gain_edits, put_picture, put_cover, cover_edit,
  edit_comments,
}
use musi_flac.Ogg.Listed.{
  PlainField, title, album, genre, isrc, composer, copyright, field_of, key_of, key_of-capital,
}

-- The keys that the edit touches behind `applyVorbisFieldEdits`.
abbrev ogg_keys : List Bytes
ogg_keys =
    codes "R128_TRACK_GAIN"
    ∷ codes "REPLAYGAIN_TRACK_GAIN"
    ∷ codes "REPLAYGAIN_TRACK_PEAK"
    ∷ codes "R128_ALBUM_GAIN"
    ∷ codes "REPLAYGAIN_ALBUM_GAIN"
    ∷ codes "REPLAYGAIN_ALBUM_PEAK"
    ∷ codes "METADATA_BLOCK_PICTURE"
    ∷ []

ogg_keys_apart : (f : PlainField) → are (λ k. is_capital k && not (k =ₛ key_of f)) ogg_keys ≡ true
unfolding ◌=ₛ◌
ogg_keys_apart title = refl
ogg_keys_apart album = refl
ogg_keys_apart genre = refl
ogg_keys_apart isrc = refl
ogg_keys_apart composer = refl
ogg_keys_apart copyright = refl

module _ (go : Packages) (pieces : Bytes → List Bytes) (quantized : Bytes → Option ℤ)
    (read_file picture : Bytes → Option Bytes) (fields rows : List (Bytes × Bytes))
    (p : Bytes → Bool) where
  set_gain-filtered :
      (scope value : Bytes) (cs : List Bytes)
      → IsKey (codes "R128_" ++ (scope ++ codes "_GAIN"))
      → Spared go p (codes "R128_" ++ (scope ++ codes "_GAIN"))
      → Spared go p (codes "REPLAYGAIN_" ++ (scope ++ codes "_GAIN"))
      → Spared go p (codes "REPLAYGAIN_" ++ (scope ++ codes "_PEAK"))
      → filtered p (set_gain go pieces quantized read_file picture fields rows scope value cs)
        ≡ filtered p cs
  unfolding set_gain
  set_gain-filtered scope value cs k s₁ s₂ s₃ =
      filtered-remove go p (codes "REPLAYGAIN_" ++ (scope ++ codes "_PEAK")) _ s₃
      ∙ filtered-remove go p (codes "REPLAYGAIN_" ++ (scope ++ codes "_GAIN")) _ s₂
      ∙ filtered-set_or_clear go p (codes "R128_" ++ (scope ++ codes "_GAIN")) value cs k s₁

  gain_edit-cases :
      (field scope : Bytes) (cs cs' : List Bytes)
      → gain_edit go pieces quantized read_file picture fields rows field scope cs ≡ ok cs'
      → (cs' ≡ cs)
        ⊎ ((value : Bytes) × (cs'
              ≡ set_gain go pieces quantized read_file picture fields rows scope value cs))
  unfolding gain_edit
  gain_edit-cases field scope cs cs' gives = elim (Option-cases (lookup field fields)) [
    | inl missing ↦ inl (ground (arith, missing, gives))
    | inr (raw, there) ↦
        let opened : (gain_value go pieces quantized read_file picture fields rows raw >>= λ value.
        ok (set_gain go pieces quantized read_file picture fields rows scope value cs))
            ≡ ok cs' =
          ground (arith, there, gives) in
        let (value, valued, put) =
          chain_value (gain_value go pieces quantized read_file picture fields rows raw) _ opened in
        inr (value, sym (ok-injective put))
  ]

  gain_edit-filtered :
      (field scope : Bytes) (cs cs' : List Bytes)
      → IsKey (codes "R128_" ++ (scope ++ codes "_GAIN"))
      → Spared go p (codes "R128_" ++ (scope ++ codes "_GAIN"))
      → Spared go p (codes "REPLAYGAIN_" ++ (scope ++ codes "_GAIN"))
      → Spared go p (codes "REPLAYGAIN_" ++ (scope ++ codes "_PEAK"))
      → gain_edit go pieces quantized read_file picture fields rows field scope cs ≡ ok cs'
      → filtered p cs' ≡ filtered p cs
  gain_edit-filtered field scope cs cs' k s₁ s₂ s₃ gives =
      elim (gain_edit-cases field scope cs cs' gives) [
        | inl same ↦ ap (filtered p) same
        | inr (value, put) ↦ ap (filtered p) put ∙ set_gain-filtered scope value cs k s₁ s₂ s₃
      ]

  put_picture-filtered :
      (encoded : Option Bytes) (cs : List Bytes)
      → IsKey (codes "METADATA_BLOCK_PICTURE")
      → Spared go p (codes "METADATA_BLOCK_PICTURE")
      → filtered p (put_picture go pieces quantized read_file picture fields rows encoded cs)
        ≡ filtered p cs
  unfolding put_picture
  put_picture-filtered none cs k s = refl
  put_picture-filtered (some encoded) cs k s =
      filtered-put go p (codes "METADATA_BLOCK_PICTURE") cs _ s
        (has_key-comment_of go.to_upper (codes "METADATA_BLOCK_PICTURE") encoded k, tt)

  put_cover-filtered :
      (cover : Option Bytes) (cs : List Bytes)
      → IsKey (codes "METADATA_BLOCK_PICTURE")
      → Spared go p (codes "METADATA_BLOCK_PICTURE")
      → filtered p (put_cover go pieces quantized read_file picture fields rows cover cs)
        ≡ filtered p cs
  unfolding put_cover
  put_cover-filtered none cs k s = refl
  put_cover-filtered (some cover) cs k s = elim (Bool-cases (cover =ₛ [])) [
    | inl empty ↦ rw empty refl
    | inr there ↦ rw there (put_picture-filtered (picture cover) cs k s)
  ]

  cover_edit-filtered :
      (cs : List Bytes)
      → IsKey (codes "METADATA_BLOCK_PICTURE")
      → Spared go p (codes "METADATA_BLOCK_PICTURE")
      → filtered p (cover_edit go pieces quantized read_file picture fields rows cs) ≡ filtered p cs
  unfolding cover_edit
  cover_edit-filtered cs k s = ground (
    arith,
    put_cover-filtered
        (read_file
          (go.trim_space (elim (lookup (codes "cover_path") fields) [ none ↦ [] | some v ↦ v ])))
        cs k s,
  )

  gains-filtered :
      (is_opus : Bool) (edited before : List Bytes)
      → All (Spared go p) ogg_keys
      → (if is_opus
          then apply_opus_replay_gain_edits go pieces quantized read_file picture fields rows edited
          else ok edited)
        ≡ ok before
      → filtered p before ≡ filtered p edited
  unfolding apply_opus_replay_gain_edits ◌=ₛ◌
  gains-filtered false edited before s gives = ap (filtered p) (sym (ok-injective gives))
  gains-filtered true edited before s gives =
      let k₁ = literal-IsKey (codes "R128_TRACK_GAIN") refl refl in
      let k₂ = literal-IsKey (codes "R128_ALBUM_GAIN") refl refl in
      let (first, first_is, second_is) =
        chain_value
          (gain_edit go pieces quantized read_file picture fields rows
            (codes "replaygain_track_gain") (codes "TRACK") edited)
          _ gives in
      gain_edit-filtered (codes "replaygain_album_gain") (codes "ALBUM") first before k₂ s.1.1.1.0
        s.1.1.1.1.0 s.1.1.1.1.1.0 second_is
      ∙ gain_edit-filtered (codes "replaygain_track_gain") (codes "TRACK") edited first k₁ s.0 s.1.0
          s.1.1.0 first_is

  -- What the edit does behind `applyVorbisFieldEdits`.
  edit_comments-filtered :
      (is_opus : Bool) (vendor vendor' : Bytes) (cs cs' : List Bytes)
      → All (Spared go p) ogg_keys
      → edit_comments go pieces quantized read_file picture fields rows is_opus vendor cs
        ≡ ok (vendor', cs')
      → (vendor' ≡ vendor)
        × (filtered p cs' ≡ filtered p (apply_vorbis_field_edits go pieces fields rows cs))
  unfolding edit_comments ◌=ₛ◌
  edit_comments-filtered is_opus vendor vendor' cs cs' s gives =
      let k₃ = literal-IsKey (codes "METADATA_BLOCK_PICTURE") refl refl in
      let edited = apply_vorbis_field_edits go pieces fields rows cs in
      let (before, gained, put) =
        chain_value
          (if is_opus
            then apply_opus_replay_gain_edits go pieces quantized read_file picture fields rows
                edited
            else ok edited)
          _ gives in
      let same : filtered p before ≡ filtered p edited =
        gains-filtered is_opus edited before s gained in
      (
        ap (λ (r : Bytes × List Bytes). r.0) (sym (ok-injective put)),
        ap (λ (r : Bytes × List Bytes). filtered p r.1) (sym (ok-injective put))
            ∙ cover_edit-filtered before k₃ s.1.1.1.1.1.1.0
            ∙ same,
      )

-- The visit of a row of `simpleKeys` for a plain field, with no later row for its key that the edit has.
pub record IsVisited (go : Packages) (pieces : Bytes → List Bytes)
    (fields rows : List (Bytes × Bytes)) (f : PlainField) : Type 0 where
  pub front : List (Bytes × Bytes)
  pub back : List (Bytes × Bytes)
  pub rows_are : rows ≡ front ++ ((field_of f, key_of f) ∷ back)
  pub in_table : AreRows (front ++ ((field_of f, key_of f) ∷ back))
  pub last : is_last go pieces fields (key_of f) back ≡ true

module _ (go : Packages) (pieces : Bytes → List Bytes) (quantized : Bytes → Option ℤ)
    (read_file picture : Bytes → Option Bytes) (fields rows : List (Bytes × Bytes)) where
  -- The comments that `EditOggFields` writes: the key of a plain field has the one comment of its new
  -- value, or none where it is empty.
  pub edit_comments-own :
      (f : PlainField) (v : Bytes) (is_opus : Bool) (vendor vendor' : Bytes) (cs cs' : List Bytes)
      → KeepsCapitals go.to_upper
      → IsVisited go pieces fields rows f
      → lookup (field_of f) fields ≡ some v
      → edit_comments go pieces quantized read_file picture fields rows is_opus vendor cs
        ≡ ok (vendor', cs')
      → own go.to_upper (key_of f) cs' ≡ (if v =ₛ [] then [] else comment_of (key_of f) v ∷ [])
  edit_comments-own f v is_opus vendor vendor' cs cs' keeps visited there gives =
      let p = has_key go.to_upper (key_of f) in
      let spared =
        Spared-all go (key_of f) keeps (key_of-capital f) ogg_keys
          (are_All (λ k. is_capital k && not (k =ₛ key_of f)) ogg_keys (ogg_keys_apart f)) in
      let edited = apply_vorbis_field_edits go pieces fields rows cs in
      own-filtered go (key_of f) cs'
      ∙ (edit_comments-filtered go pieces quantized read_file picture fields rows p is_opus vendor
          vendor' cs cs' spared gives).1
      ∙ sym (own-filtered go (key_of f) edited)
      ∙ ap (λ rs. own go.to_upper (key_of f) (apply_vorbis_field_edits go pieces fields rs cs))
          visited.rows_are
      ∙ apply_vorbis_field_edits-last go pieces fields visited.front visited.back (field_of f)
          (key_of f) v cs keeps visited.in_table there visited.last
