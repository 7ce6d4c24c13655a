-- ===== src/Ogg/Reader.antt =====
-- `ReadOggVorbisComments` of go_backend/audio_metadata_ogg.go and the functions under it: the reader of tags
-- that the application uses, which shares no code with the editor of go_backend/ogg_edit.go.
use musi_flac.Prelude.{
  ℕ, zero, suc, ◌*◌, Bool, ◌&&◌, ◌||◌, List, [], ◌∷◌, ◌++◌, Option, none, some, ltb, leb, ◌==◌,
  if◌then◌else◌, length, take, drop, slice, get_or, Bytes, le, codes, ◌=ₛ◌, Result, ok, err, ℤ,
}
use musi_flac.Id3.Text.{Packages, split_byte, parse_index_pair, is_truthy_tag_value}
use musi_flac.Id3.Apply.{AudioMetadata, zero_metadata}
use musi_flac.Ape.Merge.{has}
use musi_flac.Ogg.Page.{OggError, no_comments}
use musi_flac.Ogg.Gathering.{collect_ogg_packets}

pub data OggStreamType : Type 0 where
  unknown_stream opus_stream vorbis_stream : OggStreamType

unfoldable pub detect_ogg_stream_type : List Bytes → OggStreamType
detect_ogg_stream_type [] = unknown_stream
detect_ogg_stream_type (p ∷ packets) =
    let later = detect_ogg_stream_type packets in
    if leb 8 (length p) && (take 8 p =ₛ codes "OpusHead")
    then opus_stream
    else if ltb 7 (length p) && get_or p 0 0 == 1 && (slice p 1 7 =ₛ codes "vorbis")
    then vorbis_stream
    else later

abbrev pub is_opus_tags : Bytes → Bool
is_opus_tags p = ltb 8 (length p) && (take 8 p =ₛ codes "OpusTags")

abbrev pub is_vorbis_comment : Bytes → Bool
is_vorbis_comment p = ltb 7 (length p) && get_or p 0 0 == 3 && (slice p 1 7 =ₛ codes "vorbis")

-- The comment block of the first packet that the loop over the packets takes for one.
unfoldable pub comment_data : OggStreamType → List Bytes → Option Bytes
comment_data stream [] = none
comment_data opus_stream (p ∷ packets) =
    let later = comment_data opus_stream packets in
    if is_opus_tags p then some (drop 8 p) else later
comment_data vorbis_stream (p ∷ packets) =
    let later = comment_data vorbis_stream packets in
    if is_vorbis_comment p then some (drop 7 p) else later
comment_data unknown_stream (p ∷ packets) =
    let later = comment_data unknown_stream packets in
    if is_vorbis_comment p
    then some (drop 7 p)
    else if is_opus_tags p
    then some (drop 8 p)
    else later

-- The metadata, and the values of artists and album artists seen so far.
pub record Reading : Type 0 where
  pub metadata : AudioMetadata
  pub artists : List Bytes
  pub album_artists : List Bytes

abbrev pub max_comment : ℕ
max_comment = 512 * 1024

-- `strings.Join(joined, ", ")`
abbrev pub join_comma : List Bytes → Bytes
join_comma [] = []
join_comma (v ∷ []) = v
join_comma (v ∷ w ∷ values) = v ++ (codes ", " ++ join_comma (w ∷ values))

abbrev pub has_no_text : AudioMetadata → Bool
has_no_text m =
    (m.title =ₛ [])
    && (m.artist =ₛ [])
    && (m.replay_gain_track_gain =ₛ [])
    && (m.replay_gain_album_gain =ₛ [])

unfoldable pub shown_metadata : AudioMetadata → Result OggError AudioMetadata
shown_metadata m = if has_no_text m then err no_comments else ok m

-- `parse_int16` is ParseInt of package strconv with 16 bits, `gain_text` the text that Sprintf makes with
-- two decimals of the number over 256 plus 5.
module _ (go : Packages) (parse_int16 : Bytes → Option ℤ) (gain_text : ℤ → Bytes) where
  -- The loop of `joinVorbisCommentValues`, with the values seen so far in small letters.
  unfoldable pub unique_values : List Bytes → List Bytes → List Bytes
  unique_values seen [] = []
  unique_values seen (value ∷ values) =
      let trimmed = go.trim_space value in
      let key = go.to_lower trimmed in
      let skipped = unique_values seen values in
      let taken = trimmed ∷ unique_values (key ∷ seen) values in
      if trimmed =ₛ [] || has key seen then skipped else taken

  unfoldable pub join_vorbis_comment_values : List Bytes → Bytes
  join_vorbis_comment_values values = join_comma (unique_values [] values)

  unfoldable pub r128_to_replay_gain_db : Bytes → Option Bytes
  r128_to_replay_gain_db raw = elim (parse_int16 (go.trim_space raw)) [
    | none ↦ none
    | some q ↦ some (gain_text q)
  ]

  unfoldable pub with_track : Bytes → AudioMetadata → AudioMetadata
  with_track value m =
      let (number, total) = parse_index_pair go value in
      record m { track_number = number; total_tracks = total }

  unfoldable pub with_disc : Bytes → AudioMetadata → AudioMetadata
  with_disc value m =
      let (number, total) = parse_index_pair go value in
      record m { disc_number = number; total_discs = total }

  -- Gains of Opus count where there is no other.
  unfoldable pub with_opus_gain : Bytes → Bytes → AudioMetadata → AudioMetadata
  with_opus_gain key value m =
      if (key =ₛ codes "R128_TRACK_GAIN") && (m.replay_gain_track_gain =ₛ [])
      then elim (r128_to_replay_gain_db value) [
        | none ↦ m
        | some db ↦ record m { replay_gain_track_gain = db }
      ]
      else if (key =ₛ codes "R128_ALBUM_GAIN") && (m.replay_gain_album_gain =ₛ [])
      then elim (r128_to_replay_gain_db value) [
        | none ↦ m
        | some db ↦ record m { replay_gain_album_gain = db }
      ]
      else m

  unfoldable pub with_gain : Bytes → Bytes → AudioMetadata → AudioMetadata
  with_gain key value m =
      if key =ₛ codes "REPLAYGAIN_TRACK_GAIN"
      then record m { replay_gain_track_gain = value }
      else if key =ₛ codes "REPLAYGAIN_TRACK_PEAK"
      then record m { replay_gain_track_peak = value }
      else if key =ₛ codes "REPLAYGAIN_ALBUM_GAIN"
      then record m { replay_gain_album_gain = value }
      else if key =ₛ codes "REPLAYGAIN_ALBUM_PEAK"
      then record m { replay_gain_album_peak = value }
      else with_opus_gain key value m

  -- The cases that more than one key has, or that look at the value.
  unfoldable pub with_shared : Bytes → Bytes → AudioMetadata → AudioMetadata
  with_shared key value m =
      if (key =ₛ codes "DATE") || (key =ₛ codes "YEAR")
      then if leb 4 (length value)
        then record m { date = value; year = take 4 value }
        else record m { date = value }
      else if (key =ₛ codes "TRACKNUMBER") || (key =ₛ codes "TRACK")
      then with_track value m
      else if (key =ₛ codes "DISCNUMBER") || (key =ₛ codes "DISC")
      then with_disc value m
      else if (key =ₛ codes "COMMENT") || (key =ₛ codes "DESCRIPTION")
      then record m { comment = value }
      else if (key =ₛ codes "LYRICS")
          || (key =ₛ codes "UNSYNCEDLYRICS")
          || (key =ₛ codes "SYNCEDLYRICS")
      then if m.lyrics =ₛ [] then record m { lyrics = value } else m
      else if (key =ₛ codes "ORGANIZATION") || (key =ₛ codes "LABEL") || (key =ₛ codes "PUBLISHER")
      then record m { label = value }
      else if key =ₛ codes "ITUNESADVISORY"
      then record m { explicit = is_truthy_tag_value go value }
      else if key =ₛ codes "RELEASETYPE"
      then record m { album_type = value }
      else if (key =ₛ codes "BARCODE") || (key =ₛ codes "UPC")
      then record m { upc = value }
      else if key =ₛ codes "COMPILATION"
      then if is_truthy_tag_value go value && (m.album_type =ₛ [])
        then record m { album_type = codes "compilation" }
        else m
      else with_gain key value m

  -- The switch over the keys, but for the artists.
  unfoldable pub with_comment : Bytes → Bytes → AudioMetadata → AudioMetadata
  with_comment key value m =
      if key =ₛ codes "TITLE"
      then record m { title = value }
      else if key =ₛ codes "ALBUM"
      then record m { album = value }
      else if key =ₛ codes "GENRE"
      then record m { genre = value }
      else if key =ₛ codes "ISRC"
      then record m { isrc = value }
      else if key =ₛ codes "COMPOSER"
      then record m { composer = value }
      else if key =ₛ codes "COPYRIGHT"
      then record m { copyright = value }
      else with_shared key value m

  unfoldable pub apply_pair : Bytes → Bytes → Reading → Reading
  apply_pair key value r =
      if key =ₛ codes "ARTIST"
      then record r { artists = r.artists ++ (value ∷ []) }
      else if (key =ₛ codes "ALBUMARTIST")
          || (key =ₛ codes "ALBUM_ARTIST")
          || (key =ₛ codes "ALBUM ARTIST")
      then record r { album_artists = r.album_artists ++ (value ∷ []) }
      else record r { metadata = with_comment key value r.metadata }

  -- A comment without `=` is skipped.
  unfoldable pub apply_comment : Bytes → Reading → Reading
  apply_comment comment r = elim (split_byte b'=' comment) [
    | none ↦ r
    | some (key, value) ↦ apply_pair (go.to_upper key) value r
  ]

  -- The loop over the comments, for as many as it still takes.
  unfoldable pub comments_loop : ℕ → Bytes → Reading → Reading
  comments_loop zero bytes r = r
  comments_loop (suc n) bytes r =
      let size = le (take 4 bytes) in
      let body = drop 4 bytes in
      let skipped = comments_loop n (drop size body) r in
      let applied = comments_loop n (drop size body) (apply_comment (take size body) r) in
      if ltb (length bytes) 4 || ltb (length body) size
      then r
      else if ltb max_comment size
      then skipped
      else if length body == 0
      then r
      else applied

  unfoldable pub joined : List Bytes → Bytes → Bytes
  joined [] before = before
  joined (v ∷ values) before = join_vorbis_comment_values (v ∷ values)

  unfoldable pub finished : Reading → AudioMetadata
  finished r = record r.metadata {
    artist = joined r.artists r.metadata.artist;
    album_artist = joined r.album_artists r.metadata.album_artist;
  }

  -- At most 100 comments are read.
  unfoldable pub parse_vorbis_comments : Bytes → AudioMetadata → AudioMetadata
  parse_vorbis_comments block m =
      let vendor_size = le (take 4 block) in
      let body = drop 4 block in
      let list = drop vendor_size body in
      let count = le (take 4 list) in
      let start : Reading = record { metadata = m; artists = []; album_artists = [] } in
      if ltb (length block) 4
        || ltb (length body) vendor_size
        || length body == 0
        || ltb (length list) 4
      then m
      else finished (comments_loop (if ltb count 100 then count else 100) (drop 4 list) start)

  unfoldable pub parse_packets : List Bytes → AudioMetadata
  parse_packets packets = elim (comment_data (detect_ogg_stream_type packets) packets) [
    | none ↦ zero_metadata
    | some block ↦ parse_vorbis_comments block zero_metadata
  ]

  unfoldable pub read_ogg_vorbis_comments : Bytes → Result OggError AudioMetadata
  read_ogg_vorbis_comments file =
      let found = collect_ogg_packets 30 80 file in
      let metadata = shown_metadata (parse_packets found.packets) in
      elim found.failure [
        | none ↦ metadata
        | some e ↦ if length found.packets == 0 then err e else metadata
      ]
