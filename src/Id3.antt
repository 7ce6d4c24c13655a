-- ===== src/Id3.antt =====
-- ID3v2 tags of go_backend/mp3_id3_write.go, go_backend/wav_aiff.go and go_backend/audio_metadata.go: the
-- numbers of tags, unsynchronisation, and the raw frames that the editor of MP3 files reads and writes.
-- A file is the list of its bytes.
pub mod Text
pub mod Genres
pub mod Apply
pub mod Numbers
pub mod Unsync
pub mod Frames
pub mod Edit
pub mod Plan
pub mod Rows
pub mod Spares
pub mod EditTrip
pub mod Walk
pub mod Seen
pub mod ReadBack
pub mod TextField
pub mod Kept
pub mod Fields
pub mod Panic
mod Tests
use Prim.Native.Nat.{bit_and}
use musi_flac.Prelude.{
  ℕ, zero, suc, ◌+◌, ◌-◌, ◌*◌, ◌/◌, ◌%◌, ◌^◌, Bool, true, false, not, ◌&&◌, ◌||◌, List, [], ◌∷◌,
  ◌++◌, Option, none, some, ltb, leb, ◌==◌, if◌then◌else◌, length, get_or, take, drop, slice,
  replicate, Bytes, be, codes, ◌=ₛ◌, to_upper, Result, ok, err,
}
use musi_flac.Prelude.Dict.{lookup}

-- `byte((n >> 21) & 0x7f)` and so on.
unfoldable pub synchsafe_encode : ℕ → Bytes
synchsafe_encode n = (n / 2 ^ 21 % 128) ∷ (n / 2 ^ 14 % 128) ∷ (n / 2 ^ 7 % 128) ∷ (n % 128) ∷ []

-- `acc<<7 | b` of a byte: its high bit falls on the low bit of `acc`.
abbrev pub or_shifted : ℕ → ℕ → ℕ
or_shifted acc b = (acc + (if leb 128 b && acc % 2 == 0 then 1 else 0)) * 128 + b % 128

-- `int(b[0])<<21 | int(b[1])<<14 | int(b[2])<<7 | int(b[3])`, for `synchsafeDecode` and `syncsafeToInt`.
unfoldable pub synchsafe_decode : Bytes → ℕ
synchsafe_decode b =
    if ltb (length b) 4
    then 0
    else or_shifted (or_shifted (or_shifted (get_or b 0 0) (get_or b 1 0)) (get_or b 2 0))
        (get_or b 3 0)

unfoldable pub remove_unsync : Bytes → Bytes
remove_unsync [] = []
remove_unsync (b ∷ []) = b ∷ []
remove_unsync (b ∷ c ∷ rest) =
    let skipped = remove_unsync rest in
    let next = remove_unsync (c ∷ rest) in b ∷ (if b == 255 && c == 0 then skipped else next)

unfoldable pub extended_header_size : Bytes → ℕ → ℕ
extended_header_size bytes version =
    let size =
      if version == 3
      then be (take 4 bytes)
      else if version == 4
      then synchsafe_decode (take 4 bytes)
      else 0 in
    if ltb (length bytes) 4 || size == 0
    then 0
    else if leb (size + 4) (length bytes)
    then size + 4
    else if leb size (length bytes)
    then size
    else 0

-- `id3RawFrame`
pub record Frame : Type 0 where
  pub id : Bytes
  pub payload : Bytes

-- `flags & mask != 0`
abbrev pub has_flag : ℕ → ℕ → Bool
has_flag flags mask = not (bit_and flags mask == 0)

-- The payload of a frame without what its format flags put there, or nothing where it is dropped.
unfoldable pub plain_payload : ℕ → Bool → ℕ → Bytes → Option Bytes
plain_payload version tag_unsync flags payload =
    let third =
      let grouped = if has_flag flags 0x20 then drop 1 payload else payload in
      if has_flag flags 0xc0 || (has_flag flags 0x20 && ltb (length payload) 1)
      then none
      else some (if tag_unsync then remove_unsync grouped else grouped) in
    let fourth =
      let grouped = if has_flag flags 0x40 then drop 1 payload else payload in
      let plain = if has_flag flags 0x01 then drop 4 grouped else grouped in
      if has_flag flags 0x0c
        || (has_flag flags 0x40 && ltb (length payload) 1)
        || (has_flag flags 0x01 && ltb (length grouped) 4)
      then none
      else some (if has_flag flags 0x02 || tag_unsync then remove_unsync plain else plain) in
    if version == 3 then third else fourth

abbrev pub frame_size : ℕ → Bytes → ℕ
frame_size version bytes =
    if version == 4 then synchsafe_decode (slice bytes 4 8) else be (slice bytes 4 8)

-- The loop of `parseID3v2xRawFrames` on what is left of the tag.
unfoldable pub raw_frames_loop : ℕ → ℕ → Bool → Bytes → List Frame
raw_frames_loop zero version tag_unsync bytes = []
raw_frames_loop (suc fuel) version tag_unsync bytes =
    let size = frame_size version bytes in
    let rest = raw_frames_loop fuel version tag_unsync (drop (10 + size) bytes) in
    let plain = plain_payload version tag_unsync (get_or bytes 9 0) (slice bytes 10 (10 + size)) in
    if leb (length bytes) 10 || get_or bytes 0 0 == 0 || size == 0 || ltb (length bytes) (10 + size)
    then []
    else elim plain [
      | none ↦ rest
      | some payload ↦ record { id = take 4 bytes; payload = payload } ∷ rest
    ]

unfoldable pub parse_id3v2x_raw_frames : Bytes → ℕ → Bool → List Frame
parse_id3v2x_raw_frames bytes version tag_unsync =
    raw_frames_loop (length bytes) version tag_unsync bytes

-- `id3v22FrameIDs`
abbrev pub id3v22_frame_ids : List (Bytes × Bytes)
id3v22_frame_ids =
    (codes "TT2", codes "TIT2")
    ∷ (codes "TP1", codes "TPE1")
    ∷ (codes "TP2", codes "TPE2")
    ∷ (codes "TAL", codes "TALB")
    ∷ (codes "TYE", codes "TDRC")
    ∷ (codes "TCO", codes "TCON")
    ∷ (codes "TRK", codes "TRCK")
    ∷ (codes "TPA", codes "TPOS")
    ∷ (codes "TCM", codes "TCOM")
    ∷ (codes "TPB", codes "TPUB")
    ∷ (codes "TCR", codes "TCOP")
    ∷ (codes "TXX", codes "TXXX")
    ∷ (codes "ULT", codes "USLT")
    ∷ (codes "COM", codes "COMM")
    ∷ []

-- `strings.EqualFold(s, "PNG")`: no other letter folds to one of these.
unfoldable pub convert_pic_to_apic : Bytes → Option Bytes
convert_pic_to_apic payload =
    let mime =
      if to_upper (slice payload 1 4) =ₛ codes "PNG"
      then codes "image/png"
      else codes "image/jpeg" in
    if ltb (length payload) 5 then none else some (take 1 payload ++ (mime ++ (0 ∷ drop 4 payload)))

-- The frame that stands for a frame of version 2.2, if one does.
unfoldable pub upgraded : Bytes → Bytes → Option Frame
upgraded id payload =
    let picture : Option Frame = elim (convert_pic_to_apic payload) [
      | none ↦ none
      | some converted ↦ some (record { id = codes "APIC"; payload = converted })
    ] in
    let mapped : Option Frame = elim (lookup id id3v22_frame_ids) [
      | none ↦ none
      | some new ↦ some (record { id = new; payload = payload })
    ] in
    if id =ₛ codes "PIC" then picture else mapped

unfoldable pub v22_frames_loop : ℕ → Bool → Bytes → List Frame
v22_frames_loop zero tag_unsync bytes = []
v22_frames_loop (suc fuel) tag_unsync bytes =
    let size = be (slice bytes 3 6) in
    let rest = v22_frames_loop fuel tag_unsync (drop (6 + size) bytes) in
    let payload = slice bytes 6 (6 + size) in
    let plain = if tag_unsync then remove_unsync payload else payload in
    if leb (length bytes) 6 || get_or bytes 0 0 == 0 || size == 0 || ltb (length bytes) (6 + size)
    then []
    else elim (upgraded (take 3 bytes) plain) [ none ↦ rest | some frame ↦ frame ∷ rest ]

unfoldable pub parse_id3v22_raw_frames : Bytes → Bool → List Frame
parse_id3v22_raw_frames bytes tag_unsync = v22_frames_loop (length bytes) tag_unsync bytes

pub data Id3Error : Type 0 where
  invalid_tag_size : Id3Error
  truncated_tag : Id3Error

-- The tag without its footer and its extended header.
unfoldable pub frame_bytes : ℕ → ℕ → Bytes → Bytes
frame_bytes version flags tag_bytes =
    let end = length tag_bytes - 10 in
    let no_footer =
      if has_flag flags 0x10
        && leb 10 (length tag_bytes)
        && (slice tag_bytes end (end + 3) =ₛ codes "3DI")
      then take end tag_bytes
      else tag_bytes in
    let skip = extended_header_size no_footer version in
    if has_flag flags 0x40 && ltb 0 skip && ltb skip (length no_footer)
    then drop skip no_footer
    else no_footer

unfoldable pub read_mp3_id3v2_frames : Bytes → Result Id3Error (List Frame × ℕ)
read_mp3_id3v2_frames file =
    let version = get_or file 3 0 in
    let flags = get_or file 5 0 in
    let size = synchsafe_decode (slice file 6 10) in
    let bytes = frame_bytes version flags (slice file 10 (10 + size)) in
    let audio_start = 10 + size + (if has_flag flags 0x10 then 10 else 0) in
    let frames =
      if version == 2
      then parse_id3v22_raw_frames bytes (has_flag flags 0x80)
      else parse_id3v2x_raw_frames bytes version (has_flag flags 0x80) in
    if ltb (length file) 10 || not (take 3 file =ₛ codes "ID3")
    then ok ([], 0)
    else if size == 0
    then err invalid_tag_size
    else if ltb (length file) (10 + size)
    then err truncated_tag
    else ok (frames, audio_start)

unfoldable pub frame_block : Frame → Bytes
frame_block frame = frame.id ++ (synchsafe_encode (length frame.payload) ++ (0 ∷ 0 ∷ frame.payload))

unfoldable pub frame_blocks : List Frame → Bytes
frame_blocks [] = []
frame_blocks (frame ∷ frames) = frame_block frame ++ frame_blocks frames

unfoldable pub padding : ℕ
padding = 512

unfoldable pub serialize_id3v24_tag : List Frame → Bytes
serialize_id3v24_tag frames =
    let body = frame_blocks frames in
    codes "ID3"
    ++ (4 ∷ 0 ∷ 0 ∷ (synchsafe_encode (length body + padding) ++ (body ++ replicate padding 0)))
