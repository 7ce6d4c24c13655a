-- ===== src/Ogg/Detected.antt =====
-- How go_backend/audio_metadata_ogg.go finds the comments among the packets that go_backend/ogg_edit.go
-- writes.
use musi_flac.Prelude.{
  ◌%◌, ◌^◌, put_le, ◌<◌, ◌≡◌, refl, inl, inr, Bool, true, false, ◌&&◌, List, [], ◌∷◌, ◌++◌, some,
  arith, leb, ltb, if◌then◌else◌, Bool-cases, length, take, get_or, length-append, append-nil,
  Bytes, codes, ◌=ₛ◌, ok,
}
use musi_flac.Id3.Apply.{zero_metadata}
use musi_flac.Vorbis.Set.{IsKey}
use musi_flac.Vorbis.Untouched.{literal-IsKey}
use musi_flac.Ogg.Comments.{
  sized, serialize_comments, length-put_le, serialize_vorbis_comment_block,
}
use musi_flac.Ogg.Edit.{codec_of, comment_packet, header_packets}
use musi_flac.Ogg.Reader.{
  OggStreamType, opus_stream, vorbis_stream, detect_ogg_stream_type, is_opus_tags,
  is_vorbis_comment, comment_data,
}
use musi_flac.Ogg.Listed.{
  PlainField, title, album, genre, isrc, composer, copyright, key_of, value_of, exclusive,
}

abbrev pub stream_of : Bool → OggStreamType
stream_of true = opus_stream
stream_of false = vorbis_stream

-- Behind the comment block of a packet.
abbrev pub framing : Bool → Bytes
framing true = []
framing false = 1 ∷ []

-- Editor and reader agree on the codec.
pub detect-codec_of :
    (is_opus : Bool) (p : Bytes) (packets : List Bytes)
    → 7 < length p
    → codec_of p ≡ ok is_opus
    → detect_ogg_stream_type (p ∷ packets) ≡ stream_of is_opus
unfolding codec_of detect_ogg_stream_type
detect-codec_of true p packets filled gives =
    let seven : ltb 7 (length p) ≡ true = ground (arith, filled) in
    elim (Bool-cases (leb 8 (length p) && (take 8 p =ₛ codes "OpusHead"))) [
      | inl opus ↦ rw opus refl
      | inr other ↦ ground (arith, other, gives)
    ]
detect-codec_of false p packets filled gives =
    let seven : ltb 7 (length p) ≡ true = ground (arith, filled) in
    let seven' : leb 7 (length p) ≡ true = ground (arith, filled) in
    ground (arith, seven, seven', gives)

-- The first packet is not taken for the comments.
first_other :
    (is_opus : Bool) (p : Bytes)
    → codec_of p ≡ ok is_opus
    → (if is_opus then is_opus_tags p else is_vorbis_comment p) ≡ false
unfolding codec_of ◌=ₛ◌
first_other true p gives = elim (Bool-cases (take 8 p =ₛ codes "OpusHead")) [
  | inl opus ↦
      let other : (take 8 p =ₛ codes "OpusTags") ≡ false =
        exclusive (take 8 p) (codes "OpusHead") (codes "OpusTags") refl opus in
      rw other (ground arith)
  | inr other ↦ ground (arith, other, gives)
]
first_other false p gives = ground (arith, gives)

pub comment_data-comment_packet :
    (is_opus : Bool) (p body : Bytes) (packets : List Bytes)
    → 0 < length body
    → codec_of p ≡ ok is_opus
    → comment_data (stream_of is_opus) (p ∷ comment_packet is_opus body ∷ packets)
      ≡ some (body ++ framing is_opus)
unfolding comment_data comment_packet ◌=ₛ◌
comment_data-comment_packet true p body packets filled gives =
    rw (first_other true p gives) (rw append-nil (ground (arith, filled)))
comment_data-comment_packet false p body packets filled gives =
    rw (first_other false p gives) (ground (arith, filled, length-append body (1 ∷ [])))

pub header_packets-first :
    (is_opus : Bool) (comment : Bytes) (packets : List Bytes)
    → (rest : List Bytes) × (header_packets is_opus comment packets ≡ comment ∷ rest)
unfolding header_packets
header_packets-first true comment packets = ([], refl)
header_packets-first false comment packets = (get_or packets 2 [] ∷ [], refl)

pub block_filled :
    (vendor : Bytes) (cs : List Bytes) → 0 < length (serialize_vorbis_comment_block vendor cs)
unfolding serialize_vorbis_comment_block sized
block_filled vendor cs =
    let n = put_le 4 (length vendor % 2 ^ 32) in
    let tail = put_le 4 (length cs % 2 ^ 32) ++ serialize_comments cs in
    omega (
      arith,
      length-append (n ++ vendor) tail,
      length-append n vendor,
      length-put_le 4 (length vendor % 2 ^ 32),
    )

pub PlainField-IsKey : (f : PlainField) → IsKey (key_of f)
unfolding ◌=ₛ◌
PlainField-IsKey title = literal-IsKey (codes "TITLE") refl refl
PlainField-IsKey album = literal-IsKey (codes "ALBUM") refl refl
PlainField-IsKey genre = literal-IsKey (codes "GENRE") refl refl
PlainField-IsKey isrc = literal-IsKey (codes "ISRC") refl refl
PlainField-IsKey composer = literal-IsKey (codes "COMPOSER") refl refl
PlainField-IsKey copyright = literal-IsKey (codes "COPYRIGHT") refl refl

pub zero_value : (f : PlainField) → value_of f zero_metadata ≡ []
zero_value title = refl
zero_value album = refl
zero_value genre = refl
zero_value isrc = refl
zero_value composer = refl
zero_value copyright = refl

-- A header packet has at most two others behind it.
pub header_packets_few :
    (is_opus : Bool) (comment : Bytes) (packets : List Bytes)
    → length (header_packets is_opus comment packets) < 3
unfolding header_packets
header_packets_few true comment packets = omega arith
header_packets_few false comment packets = omega arith
