-- ===== src/Vorbis/Untouched.antt =====
-- What `applyVorbisFieldEdits` of go_backend/metadata.go leaves alone.
use musi_flac.Prelude.{
  ◌≡◌, refl, ap, ◌∙◌, subst, inl, inr, Bool, true, false, not, ◌||◌, List, [], ◌∷◌, ◌++◌, none,
  some, arith, ◌&&◌, ◌==◌, if◌then◌else◌, Bool-cases, Option-cases, Bytes, codes, ◌=ₛ◌, All,
  All-left, All-right, pos, ltb_ℤ,
}
use musi_flac.Prelude.Dict.{lookup}
use musi_flac.Id3.Text.{Packages, format_index_value}
use musi_flac.Vorbis.{remove_comment_key, set_or_clear_comment}
use musi_flac.Vorbis.Set.{IsKey}
use musi_flac.Vorbis.Fields.{
  alias_cleanup, remove_keys, on_field, simple_edits, cleanup_edits, splits_artists, artist_edit,
  current_index, has_field, or_field, index_edit, lyrics_edit, rest_edits, apply_vorbis_field_edits,
}
use musi_flac.Vorbis.Filtered.{
  filtered, Spared, filtered-remove, filtered-remove_keys, filtered-set_or_clear, filtered-artists,
}

module _ (go : Packages) (pieces : Bytes → List Bytes) (fields : List (Bytes × Bytes)) where
  -- These keys, where the edit has the field.
  unfoldable pub touched_by : Bytes → List Bytes → List Bytes
  touched_by field keys = elim (lookup field fields) [ none ↦ [] | some _ ↦ keys ]

  pub touched_by_found :
      (field v : Bytes) (keys : List Bytes)
      → lookup field fields ≡ some v
      → touched_by field keys ≡ keys
  unfolding touched_by
  touched_by_found field v keys there = ground (arith, there)

  pub touched_by_missing :
      (field : Bytes) (keys : List Bytes) → lookup field fields ≡ none → touched_by field keys ≡ []
  unfolding touched_by
  touched_by_missing field keys missing = ground (arith, missing)

  unfoldable pub touched_rows : List (Bytes × Bytes) → List Bytes
  touched_rows [] = []
  touched_rows ((field, key) ∷ rows) = touched_by field (key ∷ []) ++ touched_rows rows

  unfoldable pub touched_aliases : List (Bytes × List Bytes) → List Bytes
  touched_aliases [] = []
  touched_aliases ((field, aliases) ∷ rows) = touched_by field aliases ++ touched_aliases rows

  unfoldable pub touched_index : Bytes → Bytes → List Bytes → List Bytes
  touched_index number_field total_field keys =
      if has_field go pieces fields number_field || has_field go pieces fields total_field
      then keys
      else []

  unfoldable pub touched_rest : List Bytes
  touched_rest =
      touched_aliases alias_cleanup
      ++ (touched_by (codes "artist") (codes "ARTIST" ∷ [])
          ++ (touched_by (codes "album_artist")
                (codes "ALBUMARTIST" ∷ codes "ALBUM ARTIST" ∷ codes "ALBUM_ARTIST" ∷ [])
              ++ (touched_index (codes "track_number") (codes "track_total")
                    (codes "TRACKNUMBER" ∷ codes "TRACK" ∷ [])
                  ++ (touched_index (codes "disc_number") (codes "disc_total")
                        (codes "DISCNUMBER" ∷ codes "DISC" ∷ [])
                      ++ touched_by (codes "lyrics")
                          (codes "SYNCEDLYRICS" ∷ codes "LYRICS" ∷ codes "UNSYNCEDLYRICS" ∷ [])))))

  -- The keys of the fields that the edit has, with those that it clears along with them.
  unfoldable pub touched : List (Bytes × Bytes) → List Bytes
  touched rows = touched_rows rows ++ touched_rest

module _ (go : Packages) (pieces : Bytes → List Bytes) (fields : List (Bytes × Bytes))
    (p : Bytes → Bool) where
  pub on_field_found :
      (field v : Bytes) (change : Bytes → List Bytes → List Bytes) (cs : List Bytes)
      → lookup field fields ≡ some v
      → on_field go pieces fields field change cs ≡ change v cs
  unfolding on_field
  on_field_found field v change cs there = ground (arith, there)

  on_field_missing :
      (field : Bytes) (change : Bytes → List Bytes → List Bytes) (cs : List Bytes)
      → lookup field fields ≡ none
      → on_field go pieces fields field change cs ≡ cs
  unfolding on_field
  on_field_missing field change cs missing = ground (arith, missing)

  -- A change that spares what it is told to.
  on_field-filtered :
      (field : Bytes) (keys : List Bytes) (change : Bytes → List Bytes → List Bytes)
      (cs : List Bytes)
      → All (Spared go p) (touched_by go pieces fields field keys)
      → (All (Spared go p) keys → (v : Bytes) → filtered p (change v cs) ≡ filtered p cs)
      → filtered p (on_field go pieces fields field change cs) ≡ filtered p cs
  on_field-filtered field keys change cs s each = elim (Option-cases (lookup field fields)) [
    | inl missing ↦ ap (filtered p) (on_field_missing field change cs missing)
    | inr (v, there) ↦
        ap (filtered p) (on_field_found field v change cs there)
        ∙ each (subst (All (Spared go p)) (touched_by_found go pieces fields field v keys there) s)
            v
  ]

  pub simple_edits-filtered :
      (rows : List (Bytes × Bytes)) (cs : List Bytes)
      → All (λ row. IsKey row.1) rows
      → All (Spared go p) (touched_rows go pieces fields rows)
      → filtered p (simple_edits go pieces fields rows cs) ≡ filtered p cs
  unfolding simple_edits touched_rows
  simple_edits-filtered [] cs k s = refl
  simple_edits-filtered ((field, key) ∷ rows) cs k s =
      let mine = touched_by go pieces fields field (key ∷ []) in
      let later = touched_rows go pieces fields rows in
      simple_edits-filtered rows _ k.1 (All-right (Spared go p) mine later s)
      ∙ on_field-filtered field (key ∷ []) (set_or_clear_comment go.to_upper key) cs
          (All-left (Spared go p) mine later s) (λ h v. filtered-set_or_clear go p key v cs k.0 h.0)

  cleanup_edits-filtered :
      (rows : List (Bytes × List Bytes)) (cs : List Bytes)
      → All (Spared go p) (touched_aliases go pieces fields rows)
      → filtered p (cleanup_edits go pieces fields rows cs) ≡ filtered p cs
  unfolding cleanup_edits touched_aliases
  cleanup_edits-filtered [] cs s = refl
  cleanup_edits-filtered ((field, aliases) ∷ rows) cs s =
      let mine = touched_by go pieces fields field aliases in
      let later = touched_aliases go pieces fields rows in
      cleanup_edits-filtered rows _ (All-right (Spared go p) mine later s)
      ∙ on_field-filtered field aliases (λ _. remove_keys go aliases) cs
          (All-left (Spared go p) mine later s) (λ h v. filtered-remove_keys go p aliases cs h)

  artist_edit-filtered :
      (field key : Bytes) (aliases cs : List Bytes)
      → IsKey key
      → All (Spared go p) (touched_by go pieces fields field (key ∷ aliases))
      → filtered p (artist_edit go pieces fields field key aliases cs) ≡ filtered p cs
  unfolding artist_edit
  artist_edit-filtered field key aliases cs k s =
      on_field-filtered field (key ∷ aliases) _ cs s (λ h v.
        filtered-remove_keys go p aliases _ h.1
        ∙ filtered-artists go pieces p (splits_artists go pieces fields) key v cs k h.0)

  index_edit-filtered :
      (number_field total_field key alias : Bytes) (cs : List Bytes)
      → IsKey key
      → All
          (Spared go p)
          (touched_index go pieces fields number_field total_field (key ∷ alias ∷ []))
      → filtered p (index_edit go pieces fields number_field total_field key alias cs)
        ≡ filtered p cs
  unfolding index_edit touched_index
  index_edit-filtered number_field total_field key alias cs k s =
      let current = current_index go pieces fields key alias cs in
      let number = or_field go pieces fields number_field current.0 in
      let total = or_field go pieces fields total_field current.1 in
      elim (Bool-cases
        (has_field go pieces fields number_field || has_field go pieces fields total_field)) [
          | inr kept ↦ rw kept refl
          | inl edited ↦
              let h = rw edited at s in
              rw edited (
                filtered-remove go p alias _ h.1.0 ∙ elim (Bool-cases (ltb_ℤ (pos 0) number)) [
                  | inl written ↦
                      rw written (
                        filtered-set_or_clear go p key (format_index_value go number total) cs k
                          h.0)
                  | inr removed ↦ rw removed (filtered-remove go p key cs h.0)
                ])
        ]

  lyrics_edit-filtered :
      (cs : List Bytes)
      → IsKey (codes "LYRICS")
      → IsKey (codes "UNSYNCEDLYRICS")
      → All (Spared go p) (
          touched_by go pieces fields
            (codes "lyrics")
            (codes "SYNCEDLYRICS" ∷ codes "LYRICS" ∷ codes "UNSYNCEDLYRICS" ∷ []))
      → filtered p (lyrics_edit go pieces fields cs) ≡ filtered p cs
  unfolding lyrics_edit
  lyrics_edit-filtered cs k₁ k₂ s = on_field-filtered (codes "lyrics") _ _ cs s (λ h v.
      let rest = remove_comment_key go.to_upper (codes "SYNCEDLYRICS") cs in
      let first = filtered-remove go p (codes "SYNCEDLYRICS") cs h.0 in
      elim (Bool-cases (v =ₛ [])) [
        | inl empty ↦ rw empty (
            filtered-remove go p (codes "UNSYNCEDLYRICS") _ h.1.1.0
            ∙ filtered-remove go p (codes "LYRICS") rest h.1.0
            ∙ first)
        | inr new ↦ rw new (
            filtered-set_or_clear go p (codes "UNSYNCEDLYRICS") v _ k₂ h.1.1.0
            ∙ filtered-set_or_clear go p (codes "LYRICS") v rest k₁ h.1.0
            ∙ first)
      ])

abbrev pub is_plain : (key : Bytes) → Bool
is_plain [] = true
is_plain (c ∷ key) = not (c == b'=') && is_plain key

plain_all : (key : Bytes) → is_plain key ≡ true → All (λ c. (c == b'=') ≡ false) key
plain_all [] h = tt
plain_all (c ∷ key) h = (ground (arith, h), plain_all key (ground (arith, h)))

-- A key as a literal.
pub literal-IsKey : (key : Bytes) → (key =ₛ []) ≡ false → is_plain key ≡ true → IsKey key
literal-IsKey key filled plain = record { filled = filled; plain = plain_all key plain }

module _ (go : Packages) (pieces : Bytes → List Bytes) (fields : List (Bytes × Bytes))
    (p : Bytes → Bool) where
  pub rest_edits-filtered :
      (cs : List Bytes)
      → All (Spared go p) (touched_rest go pieces fields)
      → filtered p (rest_edits go pieces fields cs) ≡ filtered p cs
  unfolding rest_edits touched_rest ◌=ₛ◌
  rest_edits-filtered cs s =
      let artist = touched_by go pieces fields (codes "artist") (codes "ARTIST" ∷ []) in
      let key = λ (k : Bytes) (filled : (k =ₛ []) ≡ false) (plain : is_plain k ≡ true).
        literal-IsKey k filled plain in
      let s₁ = All-right (Spared go p) (touched_aliases go pieces fields alias_cleanup) _ s in
      let s₂ = All-right (Spared go p) artist _ s₁ in
      let s₃ =
        All-right (Spared go p)
          (touched_by go pieces fields (codes "album_artist")
            (codes "ALBUMARTIST" ∷ codes "ALBUM ARTIST" ∷ codes "ALBUM_ARTIST" ∷ []))
          _ s₂ in
      let track =
        touched_index go pieces fields (codes "track_number") (codes "track_total")
          (codes "TRACKNUMBER" ∷ codes "TRACK" ∷ []) in
      let s₄ = All-right (Spared go p) track _ s₃ in
      let disc =
        touched_index go pieces fields (codes "disc_number") (codes "disc_total")
          (codes "DISCNUMBER" ∷ codes "DISC" ∷ []) in
      lyrics_edit-filtered go pieces fields p _ (key (codes "LYRICS") refl refl)
        (key (codes "UNSYNCEDLYRICS") refl refl) (All-right (Spared go p) disc _ s₄)
      ∙ index_edit-filtered go pieces fields p (codes "disc_number") (codes "disc_total")
          (codes "DISCNUMBER") (codes "DISC") _ (key (codes "DISCNUMBER") refl refl)
          (All-left (Spared go p) disc _ s₄)
      ∙ index_edit-filtered go pieces fields p (codes "track_number") (codes "track_total")
          (codes "TRACKNUMBER") (codes "TRACK") _ (key (codes "TRACKNUMBER") refl refl)
          (All-left (Spared go p) track _ s₃)
      ∙ artist_edit-filtered go pieces fields p (codes "album_artist") (codes "ALBUMARTIST") _ _
          (key (codes "ALBUMARTIST") refl refl) (All-left (Spared go p) _ _ s₂)
      ∙ artist_edit-filtered go pieces fields p (codes "artist") (codes "ARTIST") [] _
          (key (codes "ARTIST") refl refl) (All-left (Spared go p) artist _ s₁)
      ∙ cleanup_edits-filtered go pieces fields p alias_cleanup cs
          (All-left (Spared go p) (touched_aliases go pieces fields alias_cleanup) _ s)

  -- The comments that pass a test stay as they are, in their order, where the test fails for every comment
  -- under a key that the edit touches.
  pub apply_vorbis_field_edits-filtered :
      (rows : List (Bytes × Bytes)) (cs : List Bytes)
      → All (λ row. IsKey row.1) rows
      → All (Spared go p) (touched go pieces fields rows)
      → filtered p (apply_vorbis_field_edits go pieces fields rows cs) ≡ filtered p cs
  unfolding apply_vorbis_field_edits touched
  apply_vorbis_field_edits-filtered rows cs k s =
      let front = touched_rows go pieces fields rows in
      rest_edits-filtered _ (All-right (Spared go p) front (touched_rest go pieces fields) s)
      ∙ simple_edits-filtered go pieces fields p rows cs k
          (All-left (Spared go p) front (touched_rest go pieces fields) s)
