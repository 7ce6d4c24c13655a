-- ===== src/Id3/Apply.antt =====
-- `applyID3Frame` of go_backend/audio_metadata.go: what a frame means to the application.
use musi_flac.Prelude.{
  ℕ, Bool, false, not, ◌&&◌, ◌||◌, [], Option, none, some, leb, ◌==◌, if◌then◌else◌, length, Bytes,
  codes, ◌=ₛ◌, ℤ, pos,
}
use musi_flac.Id3.Text.{
  Packages, extract_text_frame, extract_lang_text_frame, extract_user_text_frame, first_text_value,
  parse_index_pair, is_truthy_tag_value, is_lyrics_description,
}
use musi_flac.Id3.Genres.{clean_genre}

pub record AudioMetadata : Type 0 where
  pub title : Bytes
  pub artist : Bytes
  pub album : Bytes
  pub album_artist : Bytes
  pub genre : Bytes
  pub year : Bytes
  pub date : Bytes
  pub track_number : ℤ
  pub total_tracks : ℤ
  pub disc_number : ℤ
  pub total_discs : ℤ
  pub isrc : Bytes
  pub lyrics : Bytes
  pub label : Bytes
  pub copyright : Bytes
  pub composer : Bytes
  pub comment : Bytes
  pub album_type : Bytes
  pub explicit : Bool
  pub upc : Bytes
  pub replay_gain_track_gain : Bytes
  pub replay_gain_track_peak : Bytes
  pub replay_gain_album_gain : Bytes
  pub replay_gain_album_peak : Bytes

abbrev pub zero_metadata : AudioMetadata
zero_metadata = record {
  title = [];
  artist = [];
  album = [];
  album_artist = [];
  genre = [];
  year = [];
  date = [];
  track_number = pos 0;
  total_tracks = pos 0;
  disc_number = pos 0;
  total_discs = pos 0;
  isrc = [];
  lyrics = [];
  label = [];
  copyright = [];
  composer = [];
  comment = [];
  album_type = [];
  explicit = false;
  upc = [];
  replay_gain_track_gain = [];
  replay_gain_track_peak = [];
  replay_gain_album_gain = [];
  replay_gain_album_peak = [];
}

module _ (go : Packages) where
  -- The genre, or nothing where `cleanGenre` panics.
  unfoldable pub with_genre : Bytes → AudioMetadata → Option AudioMetadata
  with_genre value m = elim (clean_genre go value) [
    | none ↦ none
    | some genre ↦ some (record m { genre = genre })
  ]

  abbrev pub with_lyrics : Bytes → AudioMetadata → AudioMetadata
  with_lyrics v m = if not (v =ₛ []) && (m.lyrics =ₛ []) then record m { lyrics = v } else m

  unfoldable pub with_track : Bytes → AudioMetadata → AudioMetadata
  with_track value m =
      let (number, total) = parse_index_pair go value in
      record m { track_number = number; total_tracks = total }

  unfoldable pub with_disc : Bytes → AudioMetadata → AudioMetadata
  with_disc value m =
      let (number, total) = parse_index_pair go value in
      record m { disc_number = number; total_discs = total }

  -- The tests of descriptions that versions 2.2 and later share.
  unfoldable pub with_identity : Bytes → Bytes → AudioMetadata → AudioMetadata
  with_identity desc value m =
      if desc =ₛ codes "ITUNESADVISORY"
      then record m { explicit = is_truthy_tag_value go value }
      else if desc =ₛ codes "RELEASETYPE"
      then record m { album_type = value }
      else if (desc =ₛ codes "BARCODE") || (desc =ₛ codes "UPC")
      then record m { upc = value }
      else m

  unfoldable pub with_replay_gain : Bytes → Bytes → AudioMetadata → AudioMetadata
  with_replay_gain desc value m =
      if desc =ₛ codes "REPLAYGAIN_TRACK_GAIN"
      then record m { replay_gain_track_gain = value }
      else if desc =ₛ codes "REPLAYGAIN_TRACK_PEAK"
      then record m { replay_gain_track_peak = value }
      else if desc =ₛ codes "REPLAYGAIN_ALBUM_GAIN"
      then record m { replay_gain_album_gain = value }
      else if desc =ₛ codes "REPLAYGAIN_ALBUM_PEAK"
      then record m { replay_gain_album_peak = value }
      else with_identity desc value m

  unfoldable pub with_user_lyrics : Bytes → Bytes → AudioMetadata → AudioMetadata
  with_user_lyrics desc value m = if is_lyrics_description go desc then with_lyrics value m else m

  -- A frame of version 2.2.
  unfoldable pub apply_v22 : Bytes → Bytes → AudioMetadata → Option AudioMetadata
  apply_v22 id bytes m =
      let value = first_text_value (extract_text_frame bytes) in
      let (desc, user_value) = extract_user_text_frame go bytes in
      if id =ₛ codes "TT2"
      then some (record m { title = value })
      else if id =ₛ codes "TP1"
      then some (record m { artist = value })
      else if id =ₛ codes "TP2"
      then some (record m { album_artist = value })
      else if id =ₛ codes "TAL"
      then some (record m { album = value })
      else if id =ₛ codes "TYE"
      then some (record m { year = value })
      else if id =ₛ codes "TCO"
      then with_genre value m
      else if id =ₛ codes "TRK"
      then some (with_track value m)
      else if id =ₛ codes "TPA"
      then some (with_disc value m)
      else if id =ₛ codes "TCM"
      then some (record m { composer = value })
      else if id =ₛ codes "TPB"
      then some (record m { label = value })
      else if id =ₛ codes "TCR"
      then some (record m { copyright = value })
      else if id =ₛ codes "ULT"
      then some (with_lyrics (extract_lang_text_frame bytes) m)
      else if id =ₛ codes "TXX"
      then some (
          with_identity (go.to_upper (go.trim_space desc)) user_value
            (with_user_lyrics desc user_value m))
      else some m

  -- The frames of versions 2.3 and 2.4 that are not plain texts.
  unfoldable pub apply_other : Bytes → Bytes → Bytes → AudioMetadata → Option AudioMetadata
  apply_other id value bytes m =
      let (desc, user_value) = extract_user_text_frame go bytes in
      let comment = extract_lang_text_frame bytes in
      if id =ₛ codes "TCON"
      then with_genre value m
      else if id =ₛ codes "TRCK"
      then some (with_track value m)
      else if id =ₛ codes "TPOS"
      then some (with_disc value m)
      else if id =ₛ codes "TCMP"
      then some (
          if is_truthy_tag_value go value && (m.album_type =ₛ [])
          then record m { album_type = codes "compilation" }
          else m)
      else if id =ₛ codes "COMM"
      then some (if comment =ₛ [] then m else record m { comment = comment })
      else if id =ₛ codes "USLT"
      then some (with_lyrics (extract_lang_text_frame bytes) m)
      else if id =ₛ codes "TXXX"
      then some
          (with_replay_gain (go.to_upper desc) user_value (with_user_lyrics desc user_value m))
      else some m

  unfoldable pub apply_id3_frame : ℕ → Bytes → Bytes → AudioMetadata → Option AudioMetadata
  apply_id3_frame version id bytes m =
      let value = first_text_value (extract_text_frame bytes) in
      let dated =
        if leb 4 (length value)
        then record m { year = value; date = value }
        else record m { year = value } in
      if version == 2
      then apply_v22 id bytes m
      else if id =ₛ codes "TIT2"
      then some (record m { title = value })
      else if id =ₛ codes "TPE1"
      then some (record m { artist = value })
      else if id =ₛ codes "TPE2"
      then some (record m { album_artist = value })
      else if id =ₛ codes "TALB"
      then some (record m { album = value })
      else if (id =ₛ codes "TYER") || (id =ₛ codes "TDRC")
      then some dated
      else if id =ₛ codes "TSRC"
      then some (record m { isrc = value })
      else if id =ₛ codes "TCOM"
      then some (record m { composer = value })
      else if id =ₛ codes "TPUB"
      then some (record m { label = value })
      else if id =ₛ codes "TCOP"
      then some (record m { copyright = value })
      else apply_other id value bytes m
