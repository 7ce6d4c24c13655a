-- ===== src/Id3/Edit.antt =====
-- `EditMP3Fields` of go_backend/mp3_id3_write.go, from the bytes of the old file to those of the new one.
use musi_flac.Prelude.{
  ℕ, Bool, true, false, not, ◌&&◌, ◌||◌, List, [], ◌∷◌, ◌++◌, Option, none, some, if◌then◌else◌,
  drop, Bytes, codes, ◌=ₛ◌, Result, ok, ◌>>=◌, ℤ,
}
use musi_flac.Prelude.Dict.{lookup}
use musi_flac.Progress.Delta.{is_listed}
use musi_flac.Id3.{Frame, Id3Error, read_mp3_id3v2_frames, serialize_id3v24_tag}
use musi_flac.Id3.Text.{
  Packages, extract_text_frame, first_text_value, extract_user_text_frame, parse_index_pair,
  parse_positive_int, format_index_value,
}

abbrev pub id3_text_payload : Bytes → Bytes
id3_text_payload value = 3 ∷ value

abbrev pub id3_lang_text_payload : Bytes → Bytes
id3_lang_text_payload text = 3 ∷ (codes "eng" ++ (0 ∷ text))

abbrev pub id3_txxx_payload : Bytes → Bytes → Bytes
id3_txxx_payload desc value = 3 ∷ (desc ++ (0 ∷ value))

unfoldable pub first_frame_text : Bytes → List Frame → Bytes
first_frame_text id [] = []
first_frame_text id (frame ∷ frames) =
    let later = first_frame_text id frames in
    if frame.id =ₛ id then first_text_value (extract_text_frame frame.payload) else later

-- What one part of the edit adds to `drop`, to `dropTXXXDesc` and to `added`.
pub record Change : Type 0 where
  pub ids : List Bytes
  pub descriptions : List Bytes
  pub frames : List Frame

abbrev pub is_empty : List Bytes → Bool
is_empty [] = true
is_empty (_ ∷ _) = false

abbrev pub no_change : Change
no_change = record { ids = []; descriptions = []; frames = [] }

unfoldable pub all_ids : List Change → List Bytes
all_ids [] = []
all_ids (c ∷ cs) = c.ids ++ all_ids cs

unfoldable pub all_descriptions : List Change → List Bytes
all_descriptions [] = []
all_descriptions (c ∷ cs) = c.descriptions ++ all_descriptions cs

unfoldable pub all_frames : List Change → List Frame
all_frames [] = []
all_frames (c ∷ cs) = c.frames ++ all_frames cs

-- `simpleKeys`: a field, its frame, and the frames that go with it.
abbrev pub simple_keys : List (Bytes × Bytes × List Bytes)
simple_keys =
    (codes "title", codes "TIT2", [])
    ∷ (codes "artist", codes "TPE1", [])
    ∷ (codes "album", codes "TALB", [])
    ∷ (codes "album_artist", codes "TPE2", [])
    ∷ (codes "date", codes "TDRC", codes "TYER" ∷ codes "TDAT" ∷ codes "TIME" ∷ [])
    ∷ (codes "genre", codes "TCON", [])
    ∷ (codes "label", codes "TPUB", [])
    ∷ (codes "copyright", codes "TCOP", [])
    ∷ (codes "composer", codes "TCOM", [])
    ∷ (codes "isrc", codes "TSRC", [])
    ∷ []

-- The fields of ReplayGain; ToUpper of one, which is plain ASCII, is its description.
abbrev pub replay_gain_keys : List (Bytes × Bytes)
replay_gain_keys =
    (codes "replaygain_track_gain", codes "REPLAYGAIN_TRACK_GAIN")
    ∷ (codes "replaygain_track_peak", codes "REPLAYGAIN_TRACK_PEAK")
    ∷ (codes "replaygain_album_gain", codes "REPLAYGAIN_ALBUM_GAIN")
    ∷ (codes "replaygain_album_peak", codes "REPLAYGAIN_ALBUM_PEAK")
    ∷ []

-- `txxxDescriptions`
abbrev pub txxx_descriptions : List (Bytes × Bytes)
txxx_descriptions =
    (codes "explicit", codes "ITUNESADVISORY")
    ∷ (codes "album_type", codes "RELEASETYPE")
    ∷ (codes "upc", codes "BARCODE")
    ∷ []

module _ (go : Packages) where
  -- The frame that a value is added as, unless it is blank.
  unfoldable pub added_frame : Bytes → Bytes → Bytes → List Frame
  added_frame id value payload =
      if go.trim_space value =ₛ [] then [] else record { id = id; payload = payload } ∷ []

  unfoldable pub set_or_clear : Bytes → List Bytes → Bytes → Change
  set_or_clear id aliases value = record {
    ids = id ∷ aliases;
    descriptions = [];
    frames = added_frame id value (id3_text_payload value);
  }

  unfoldable pub lang_change : Bytes → Bytes → Change
  lang_change id value = record {
    ids = id ∷ [];
    descriptions = [];
    frames = added_frame id value (id3_lang_text_payload value);
  }

  unfoldable pub txxx_change : Bytes → Bytes → Change
  txxx_change desc value = record {
    ids = [];
    descriptions = desc ∷ [];
    frames = added_frame (codes "TXXX") value (id3_txxx_payload desc value);
  }

  -- The cover, where its file can be read and is not empty.
  unfoldable pub picture_change : Option Bytes → Change
  picture_change none = no_change
  picture_change (some cover) =
      let payload = 3 ∷ (go.detect_content_type cover ++ (0 ∷ 3 ∷ 0 ∷ cover)) in
      let frame : Frame = record { id = codes "APIC"; payload = payload } in
      if cover =ₛ []
      then no_change
      else record { ids = codes "APIC" ∷ []; descriptions = []; frames = frame ∷ [] }

  module _ (fields : List (Bytes × Bytes)) where
    -- `if v, ok := fields[key]; ok`
    unfoldable pub on_field : Bytes → (Bytes → Change) → Change
    on_field key change = elim (lookup key fields) [ none ↦ no_change | some v ↦ change v ]

    unfoldable pub simple_changes : List (Bytes × Bytes × List Bytes) → List Change
    simple_changes [] = []
    simple_changes ((key, id, aliases) ∷ rows) =
        on_field key (set_or_clear id aliases) ∷ simple_changes rows

    unfoldable pub txxx_changes : List (Bytes × Bytes) → List Change
    txxx_changes [] = []
    txxx_changes ((key, desc) ∷ rows) = on_field key (txxx_change desc) ∷ txxx_changes rows

    -- `hasMapKey`
    unfoldable pub has_field : Bytes → Bool
    has_field key = elim (lookup key fields) [ none ↦ false | some _ ↦ true ]

    -- Numbers of tracks and discs: the half that is not edited stays as it was.
    unfoldable pub index_change : Bytes → Bytes → Bytes → List Frame → Change
    index_change number_key total_key id frames =
        let (number, total) = parse_index_pair go (first_frame_text id frames) in
        let number' = elim (lookup number_key fields) as (λ _. ℤ) [
          | none ↦ number
          | some v ↦ parse_positive_int go v
        ] in
        let total' = elim (lookup total_key fields) as (λ _. ℤ) [
          | none ↦ total
          | some v ↦ parse_positive_int go v
        ] in
        let change = set_or_clear id [] (format_index_value go number' total') in
        if has_field number_key || has_field total_key then change else no_change

    -- `strings.TrimSpace(fields["cover_path"])`
    unfoldable pub cover_path : Bytes
    cover_path = elim (lookup (codes "cover_path") fields) [
      | none ↦ go.trim_space []
      | some v ↦ go.trim_space v
    ]

    unfoldable pub cover_change : (Bytes → Option Bytes) → Change
    cover_change read_file =
        if cover_path =ₛ [] then no_change else picture_change (read_file cover_path)

    -- The parts behind `simpleKeys`. `descriptions` is `txxxDescriptions` in the order in which Go visits
    -- that map.
    unfoldable pub rest_changes :
        List (Bytes × Bytes) → (Bytes → Option Bytes) → List Frame → List Change
    rest_changes descriptions read_file frames =
        on_field (codes "comment") (lang_change (codes "COMM"))
        ∷ on_field (codes "lyrics") (lang_change (codes "USLT"))
        ∷ index_change (codes "track_number") (codes "track_total") (codes "TRCK") frames
        ∷ index_change (codes "disc_number") (codes "disc_total") (codes "TPOS") frames
        ∷ (txxx_changes replay_gain_keys
            ++ (txxx_changes descriptions
                ++ (on_field (codes "compilation") (set_or_clear (codes "TCMP") [])
                    ∷ cover_change read_file
                    ∷ [])))

    unfoldable pub changes :
        List (Bytes × Bytes) → (Bytes → Option Bytes) → List Frame → List Change
    changes descriptions read_file frames =
        simple_changes simple_keys ++ rest_changes descriptions read_file frames

  -- The test of the last loop: the frame is left out.
  unfoldable pub is_dropped : List Bytes → List Bytes → Frame → Bool
  is_dropped ids descriptions frame =
      is_listed frame.id ids
      || (frame.id =ₛ codes "TXXX")
        && not (is_empty descriptions)
        && is_listed (go.to_upper (go.trim_space (extract_user_text_frame go frame.payload).0))
            descriptions

  unfoldable pub kept_frames : List Bytes → List Bytes → List Frame → List Frame
  kept_frames ids descriptions [] = []
  kept_frames ids descriptions (frame ∷ frames) =
      let rest = kept_frames ids descriptions frames in
      if is_dropped ids descriptions frame then rest else frame ∷ rest

  unfoldable pub edited_frames : List Change → List Frame → List Frame
  edited_frames cs frames = kept_frames (all_ids cs) (all_descriptions cs) frames ++ all_frames cs

  -- `spliceFileAtomic`: the head, and the bytes of the old file from `tail_start` on.
  unfoldable pub splice_file : Bytes → Bytes → ℕ → Bytes
  splice_file file head tail_start = head ++ drop tail_start file

  unfoldable pub edit_mp3_fields :
      List (Bytes × Bytes)
      → List (Bytes × Bytes)
      → (Bytes → Option Bytes)
      → Bytes
      → Result Id3Error Bytes
  edit_mp3_fields fields descriptions read_file file =
      read_mp3_id3v2_frames file >>= λ (frames, audio_start).
      let tag =
        serialize_id3v24_tag
          (edited_frames (changes fields descriptions read_file frames) frames) in
      ok (splice_file file tag audio_start)
