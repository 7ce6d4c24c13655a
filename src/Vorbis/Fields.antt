-- ===== src/Vorbis/Fields.antt =====
-- `applyVorbisFieldEdits` and `getCommentValues` of go_backend/metadata.go: the edit of the comments of a
-- FLAC or Ogg file by a map of fields. `pieces` is `artistTagSplitPattern.Split` of package regexp.
use musi_flac.Prelude.{
  ◌+◌, Bool, true, false, not, ◌&&◌, ◌||◌, List, [], ◌∷◌, ◌++◌, none, some, ltb, if◌then◌else◌,
  length, take, drop, Bytes, codes, ◌=ₛ◌, ℤ, pos, ltb_ℤ,
}
use musi_flac.Prelude.Dict.{lookup}
use musi_flac.Id3.Text.{Packages, parse_index_pair, parse_positive_int, format_index_value}
use musi_flac.Vorbis.{remove_comment_key, set_or_clear_comment, set_or_clear_artist_comments}

-- `simpleKeys`
abbrev pub simple_keys : List (Bytes × Bytes)
simple_keys =
    (codes "title", codes "TITLE")
    ∷ (codes "album", codes "ALBUM")
    ∷ (codes "date", codes "DATE")
    ∷ (codes "isrc", codes "ISRC")
    ∷ (codes "genre", codes "GENRE")
    ∷ (codes "label", codes "ORGANIZATION")
    ∷ (codes "copyright", codes "COPYRIGHT")
    ∷ (codes "composer", codes "COMPOSER")
    ∷ (codes "comment", codes "COMMENT")
    ∷ (codes "explicit", codes "ITUNESADVISORY")
    ∷ (codes "album_type", codes "RELEASETYPE")
    ∷ (codes "upc", codes "BARCODE")
    ∷ (codes "barcode", codes "BARCODE")
    ∷ (codes "compilation", codes "COMPILATION")
    ∷ (codes "replaygain_track_gain", codes "REPLAYGAIN_TRACK_GAIN")
    ∷ (codes "replaygain_track_peak", codes "REPLAYGAIN_TRACK_PEAK")
    ∷ (codes "replaygain_album_gain", codes "REPLAYGAIN_ALBUM_GAIN")
    ∷ (codes "replaygain_album_peak", codes "REPLAYGAIN_ALBUM_PEAK")
    ∷ []

-- `aliasCleanup`. It only removes, so that the order in which Go visits the map is nothing.
abbrev pub alias_cleanup : List (Bytes × List Bytes)
alias_cleanup =
    (codes "label", codes "LABEL" ∷ codes "PUBLISHER" ∷ [])
    ∷ (codes "date", codes "YEAR" ∷ [])
    ∷ (codes "genre", [])
    ∷ (codes "copyright", [])
    ∷ []

module _ (go : Packages) where
  unfoldable pub get_comment_values : Bytes → List Bytes → List Bytes
  get_comment_values key [] = []
  get_comment_values key (c ∷ cs) =
      let rest = get_comment_values key cs in
      let n = length key in
      if ltb n (length c) && (go.to_upper (take (n + 1) c) =ₛ go.to_upper key ++ (b'=' ∷ []))
      then drop (n + 1) c ∷ rest
      else rest

  unfoldable pub get_comment : Bytes → List Bytes → Bytes
  get_comment key cs = elim (get_comment_values key cs) [ [] ↦ [] | v ∷ _ ↦ v ]

  unfoldable pub remove_keys : List Bytes → List Bytes → List Bytes
  remove_keys [] cs = cs
  remove_keys (key ∷ keys) cs = remove_keys keys (remove_comment_key go.to_upper key cs)

module _ (go : Packages) (pieces : Bytes → List Bytes) (fields : List (Bytes × Bytes)) where
  -- `if v, ok := fields[field]; ok`
  unfoldable pub on_field : Bytes → (Bytes → List Bytes → List Bytes) → List Bytes → List Bytes
  on_field field change cs = elim (lookup field fields) [ none ↦ cs | some v ↦ change v cs ]

  -- The loop over `simpleKeys`, in the order in which Go visits that map.
  unfoldable pub simple_edits : List (Bytes × Bytes) → List Bytes → List Bytes
  simple_edits [] cs = cs
  simple_edits ((field, key) ∷ rows) cs =
      simple_edits rows (on_field field (set_or_clear_comment go.to_upper key) cs)

  unfoldable pub cleanup_edits : List (Bytes × List Bytes) → List Bytes → List Bytes
  cleanup_edits [] cs = cs
  cleanup_edits ((field, aliases) ∷ rows) cs =
      cleanup_edits rows (on_field field (λ _. remove_keys go aliases) cs)

  -- `shouldSplitVorbisArtistTags(fields["artist_tag_mode"])`
  unfoldable pub splits_artists : Bool
  splits_artists =
      let mode : Bytes = elim (lookup (codes "artist_tag_mode") fields) [
        | none ↦ []
        | some v ↦ v
      ] in
      go.equal_fold (go.trim_space mode) (codes "split_vorbis")

  unfoldable pub artist_edit : Bytes → Bytes → List Bytes → List Bytes → List Bytes
  artist_edit field key aliases cs =
      on_field field
        (λ v cs'. remove_keys go aliases (
          set_or_clear_artist_comments go.to_upper go.trim_space go.to_lower pieces splits_artists
            key v cs'))
        cs

  -- The number and the total that stand in the comments, also under the alias.
  unfoldable pub current_index : Bytes → Bytes → List Bytes → ℤ × ℤ
  current_index key alias cs =
      let (number, total) = parse_index_pair go (get_comment go key cs) in
      let is_zero = λ (n : ℤ). not (ltb_ℤ n (pos 0)) && not (ltb_ℤ (pos 0) n) in
      if is_zero number && is_zero total
      then parse_index_pair go (get_comment go alias cs)
      else (number, total)

  unfoldable pub has_field : Bytes → Bool
  has_field field = elim (lookup field fields) [ none ↦ false | some _ ↦ true ]

  unfoldable pub or_field : Bytes → ℤ → ℤ
  or_field field current = elim (lookup field fields) as (λ _. ℤ) [
    | none ↦ current
    | some v ↦ parse_positive_int go v
  ]

  -- The numbers of tracks and of discs. That a total is not empty says that the field is there.
  unfoldable pub index_edit : Bytes → Bytes → Bytes → Bytes → List Bytes → List Bytes
  index_edit number_field total_field key alias cs =
      let (current, current_total) = current_index key alias cs in
      let number = or_field number_field current in
      let total = or_field total_field current_total in
      let written =
        if ltb_ℤ (pos 0) number
        then set_or_clear_comment go.to_upper key (format_index_value go number total) cs
        else remove_comment_key go.to_upper key cs in
      if has_field number_field || has_field total_field
      then remove_comment_key go.to_upper alias written
      else cs

  unfoldable pub lyrics_edit : List Bytes → List Bytes
  lyrics_edit cs =
      on_field (codes "lyrics")
        (λ v cs'.
          let rest = remove_comment_key go.to_upper (codes "SYNCEDLYRICS") cs' in
          if not (v =ₛ [])
          then set_or_clear_comment go.to_upper (codes "UNSYNCEDLYRICS") v
              (set_or_clear_comment go.to_upper (codes "LYRICS") v rest)
          else remove_comment_key go.to_upper (codes "UNSYNCEDLYRICS")
              (remove_comment_key go.to_upper (codes "LYRICS") rest))
        cs

  -- What comes behind `simpleKeys`.
  unfoldable pub rest_edits : List Bytes → List Bytes
  rest_edits cs =
      let cleaned = cleanup_edits alias_cleanup cs in
      let artist = artist_edit (codes "artist") (codes "ARTIST") [] cleaned in
      let album_artist =
        artist_edit (codes "album_artist") (codes "ALBUMARTIST")
          (codes "ALBUM ARTIST" ∷ codes "ALBUM_ARTIST" ∷ []) artist in
      let track =
        index_edit (codes "track_number") (codes "track_total") (codes "TRACKNUMBER")
          (codes "TRACK") album_artist in
      let disc =
        index_edit (codes "disc_number") (codes "disc_total") (codes "DISCNUMBER") (codes "DISC")
          track in
      lyrics_edit disc

  unfoldable pub apply_vorbis_field_edits : List (Bytes × Bytes) → List Bytes → List Bytes
  apply_vorbis_field_edits rows cs = rest_edits (simple_edits rows cs)
