-- ===== src/Id3/Walk.antt =====
-- `readID3v2WithCover` and `walkID3Frames` of go_backend/id3_reader.go, for callers that want no cover.
use musi_flac.Prelude.{
  ℕ, zero, suc, ◌+◌, ◌-◌, ◌*◌, Bool, true, false, not, ◌&&◌, ◌||◌, [], ◌∷◌, Option, none, some, ltb,
  leb, ◌==◌, if◌then◌else◌, length, get_or, take, drop, slice, Bytes, be, codes, ◌=ₛ◌,
}
use musi_flac.Id3.{has_flag, synchsafe_decode, remove_unsync}
use musi_flac.Id3.Text.{Packages}
use musi_flac.Id3.Apply.{AudioMetadata, zero_metadata, apply_id3_frame}

-- The errors, named for their texts.
pub data ReadError : Type 0 where
  eof : ReadError
  unexpected_eof : ReadError
  no_header : ReadError
  invalid_version_or_size : ReadError
  compressed_tag : ReadError
  invalid_extended_header : ReadError
  invalid_frame_size : ReadError
  invalid_frame_bounds : ReadError

-- What is read so far when there is no error, when there is one, or a run-time panic.
pub data Walked : Type 0 where
  finished : AudioMetadata → Walked
  failed : ReadError → AudioMetadata → Walked
  panicked : Walked

-- A reader: the bytes to come, and whether it can seek.
pub record Reader : Type 0 where
  pub bytes : Bytes
  pub seeks : Bool

abbrev pub max_id3_frame_bytes : ℕ
max_id3_frame_bytes = 32 * 1048576

-- Whether all bytes are 0.
unfoldable pub is_zeros : Bytes → Bool
is_zeros [] = true
is_zeros (b ∷ bytes) = b == 0 && is_zeros bytes

-- A byte of the list is 128 or more: the test on the `|` of all.
unfoldable pub has_high_bit : Bytes → Bool
has_high_bit [] = false
has_high_bit (b ∷ bytes) = leb 128 b || has_high_bit bytes

abbrev pub header_length : ℕ → ℕ
header_length version = if version == 2 then 6 else 10

abbrev pub id_length : ℕ → ℕ
id_length version = if version == 2 then 3 else 4

unfoldable pub walk_size : ℕ → Bytes → ℕ
walk_size version header =
    if version == 2
    then be (slice header 3 6)
    else if version == 4
    then synchsafe_decode (slice header 4 8)
    else be (slice header 4 8)

-- `wanted`, where no cover is.
unfoldable pub is_wanted : Bytes → Bool
is_wanted id =
    not ((id =ₛ codes "APIC") || (id =ₛ codes "PIC"))
    && ((get_or id 0 0 == b'T')
        || (id =ₛ codes "COMM")
        || (id =ₛ codes "USLT")
        || (id =ₛ codes "ULT"))

-- The frame's flags, which version 2.2 does not have.
abbrev pub walk_flags : ℕ → Bytes → ℕ
walk_flags version header = if version == 2 then 0 else get_or header 9 0

unfoldable pub is_unsupported : ℕ → ℕ → Bool
is_unsupported version flags =
    version == 3 && has_flag flags 0xc0 || version == 4 && has_flag flags 0x0c

-- The payload that is visited, or nothing for the next frame.
unfoldable pub visited_payload : ℕ → Bool → ℕ → Bytes → Option Bytes
visited_payload version tag_unsync flags payload =
    let grouped = version == 3 && has_flag flags 0x20 || version == 4 && has_flag flags 0x40 in
    let measured = version == 4 && has_flag flags 0x01 in
    let first = if grouped then drop 1 payload else payload in
    let second = if measured then drop 4 first else first in
    if grouped && ltb (length payload) 1 || measured && ltb (length first) 4
    then none
    else some
        (if tag_unsync || version == 4 && has_flag flags 0x02 then remove_unsync second else second)

-- After a visit that may have panicked.
unfoldable pub go_on : (AudioMetadata → Walked) → Option AudioMetadata → Walked
go_on later none = panicked
go_on later (some m) = later m

module _ (go : Packages) where
  -- `visit`
  unfoldable pub visit : ℕ → Bytes → Option Bytes → AudioMetadata → Option AudioMetadata
  visit version id none m = some m
  visit version id (some payload) m = apply_id3_frame go version id payload m

  -- The loop of `walkID3Frames`.
  unfoldable pub walk_loop : ℕ → ℕ → ℕ → Bool → Reader → AudioMetadata → Walked
  walk_loop zero remaining version tag_unsync reader m = finished m
  walk_loop (suc fuel) remaining version tag_unsync reader m =
      let n = header_length version in
      let header = take n reader.bytes in
      let body = drop n reader.bytes in
      let id = take (id_length version) header in
      let size = walk_size version header in
      let flags = walk_flags version header in
      let left = remaining - n - size in
      let after : Reader = record { bytes = drop size body; seeks = reader.seeks } in
      let later = λ (m' : AudioMetadata). walk_loop fuel left version tag_unsync after m' in
      let skipped = if not reader.seeks && ltb (length body) size then failed eof m else later m in
      let applied =
        go_on later
          (visit version id (visited_payload version tag_unsync flags (take size body)) m) in
      let read_failed = failed (if length body == 0 then eof else unexpected_eof) m in
      let short =
        if length reader.bytes == 0 || is_zeros reader.bytes
        then finished m
        else failed unexpected_eof m in
      if ltb remaining n
      then finished m
      else if ltb (length reader.bytes) n
      then short
      else if get_or header 0 0 == 0 || (take 3 header =ₛ codes "3DI")
      then finished m
      else if version == 4 && has_high_bit (slice header 4 8)
      then failed invalid_frame_size m
      else if size == 0 || ltb (remaining - n) size
      then failed invalid_frame_bounds m
      else if not (is_wanted id) || is_unsupported version flags || ltb max_id3_frame_bytes size
      then skipped
      else if ltb (length body) size
      then read_failed
      else applied

  -- Each round takes a header from the bytes that remain.
  unfoldable pub walk_id3_frames : ℕ → ℕ → Bool → Reader → Walked
  walk_id3_frames remaining version tag_unsync reader =
      walk_loop (suc remaining) remaining version tag_unsync reader zero_metadata

  -- The frames behind an extended header.
  unfoldable pub walk_behind : ℕ → Bool → ℕ → Reader → Walked
  walk_behind version tag_unsync size reader =
      let extended = take 4 reader.bytes in
      let body = drop 4 reader.bytes in
      let length' = if version == 4 then synchsafe_decode extended else be extended + 4 in
      let after : Reader = record { bytes = drop (length' - 4) body; seeks = reader.seeks } in
      if ltb (length reader.bytes) 4
      then failed (if length reader.bytes == 0 then eof else unexpected_eof) zero_metadata
      else if ltb length' 4 || ltb size length'
      then failed invalid_extended_header zero_metadata
      else if not reader.seeks && ltb (length body) (length' - 4)
      then failed eof zero_metadata
      else walk_id3_frames (size - length') version tag_unsync after

  -- `readID3v2WithCover(file, false)`. A result that Go gives as nil has no metadata here.
  unfoldable pub read_id3v2 : Bytes → Walked
  read_id3v2 file =
      let version = get_or file 3 0 in
      let flags = get_or file 5 0 in
      let size = synchsafe_decode (slice file 6 10) in
      let body = drop 10 file in
      let whole_unsync = has_flag flags 0x80 && ltb version 4 in
      let reader : Reader =
        if whole_unsync
        then record { bytes = remove_unsync (take size body); seeks = false }
        else record { bytes = body; seeks = true } in
      let tag_unsync = version == 4 && has_flag flags 0x80 in
      if ltb (length file) 10
      then failed (if length file == 0 then eof else unexpected_eof) zero_metadata
      else if not (take 3 file =ₛ codes "ID3")
      then failed no_header zero_metadata
      else if ltb version 2 || ltb 4 version || has_high_bit (slice file 6 10)
      then failed invalid_version_or_size zero_metadata
      else if ltb (length body) size
      then failed unexpected_eof zero_metadata
      else if has_flag flags 0x40 && version == 2
      then failed compressed_tag zero_metadata
      else if has_flag flags 0x40
      then walk_behind version tag_unsync size reader
      else walk_id3_frames size version tag_unsync reader
