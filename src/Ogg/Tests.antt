-- ===== src/Ogg/Tests.antt =====
-- Runs of the Ogg editor of go_backend/ogg_edit.go, and its theorems at concrete inputs.
use musi_flac.Prelude.{
  ℕ, ◌-◌, ◌≡◌, refl, Bool, true, List, [], ◌∷◌, ◌++◌, arith, length, All, Bytes, codes, ◌=ₛ◌, le,
  Result, ok, err,
}
use musi_flac.Prelude.{Option, none, ℤ, negsuc, to_upper}
use musi_flac.Id3.Text.{Packages}
use musi_flac.Ogg.Page.{
  OggEditPage, OggError, eof, serialize, ogg_crc, sum, read_next_ogg_edit_page,
}
use musi_flac.Ogg.PageTrip.{IsPage, read-serialize}
use musi_flac.Ogg.PageCut.{cut_error, read-cut}
use musi_flac.Prelude.{take}
use musi_flac.Ogg.Page.{byte_size}
use musi_flac.Ogg.Comments.{
  uint32_at, parse_comments, parse_vorbis_comment_block, serialize_vorbis_comment_block,
  parse-serialize_vorbis_comment_block,
}
use musi_flac.Ogg.Packets.{
  assemble_segments, assemble_pages, nothing_left, assemble_ogg_header_packets,
  paginate_ogg_packets,
}
use musi_flac.Ogg.PacketTrip.{assemble-paginate}
use musi_flac.Ogg.Edit.{codec_of, comment_body, serialize_pages, edit_ogg_fields}
use musi_flac.Ogg.Stream.{IsPageOf}
use musi_flac.Ogg.EditTrip.{IsEdited, edit_ogg_fields-IsEdited}
use musi_flac.Ogg.EditTotal.{EndsHeaders, IsEditable, edit_ogg_fields-total}

abbrev pub plain : Packages
plain = record {
  trim_space = λ s. s;
  to_upper = to_upper;
  to_lower = λ s. s;
  equal_fold = λ s t. s =ₛ t;
  is_number = λ s. true;
  atoi = λ s. negsuc 0;
  itoa = λ n. [];
  detect_content_type = λ s. [];
}

abbrev pub no_number : Bytes → Option ℤ
no_number s = none

abbrev pub no_text : ℤ → Bytes
no_text n = []

-- The checksum of "OggS", worked out by hand from the polynomial.
crc_of_zero : ogg_crc (0 ∷ 0 ∷ []) ≡ 0
unfolding ogg_crc
crc_of_zero = refl

crc_of_one : ogg_crc (1 ∷ []) ≡ 0x04c1_1db7
unfolding ogg_crc
crc_of_one = refl

abbrev page : ℕ → ℕ → Bytes → OggEditPage
page seq size bytes = record {
  header_type = 0;
  granule = 960;
  serial = 7;
  seq = seq;
  segments = size ∷ [];
  payload = bytes;
}

abbrev pub opus_head : OggEditPage
opus_head = page 0 8 (codes "OpusHead")

-- "OpusTags", the vendor string "v", and the one comment "A=1".
abbrev pub tags_body : Bytes
tags_body = 1 ∷ 0 ∷ 0 ∷ 0 ∷ b'v' ∷ 1 ∷ 0 ∷ 0 ∷ 0 ∷ 3 ∷ 0 ∷ 0 ∷ 0 ∷ codes "A=1"

abbrev pub opus_tags : OggEditPage
opus_tags = page 1 24 (codes "OpusTags" ++ tags_body)

abbrev pub audio_page : OggEditPage
audio_page = page 2 3 (1 ∷ 2 ∷ 3 ∷ [])

pub opus_head-IsPage : IsPage opus_head
unfolding sum
opus_head-IsPage = omega arith

pub opus_tags-IsPage : IsPage opus_tags
unfolding sum
opus_tags-IsPage = omega arith

pub audio_page-IsPage : IsPage audio_page
unfolding sum
audio_page-IsPage = omega arith

pub stream-IsPageOf : All (IsPageOf 7) (opus_head ∷ opus_tags ∷ audio_page ∷ [])
stream-IsPageOf = (
  record { page = opus_head-IsPage; serial_is = refl },
  (
    record { page = opus_tags-IsPage; serial_is = refl },
    (record { page = audio_page-IsPage; serial_is = refl }, tt),
  ),
)

read-serialize_example :
    read_next_ogg_edit_page (serialize audio_page ++ (b'O' ∷ [])) ≡ ok (audio_page, b'O' ∷ [])
read-serialize_example = read-serialize audio_page (b'O' ∷ []) audio_page-IsPage

-- The file ends right behind the segment table.
read-cut_example : read_next_ogg_edit_page (take 28 (serialize audio_page)) ≡ err eof
unfolding cut_error
read-cut_example = read-cut audio_page 28 audio_page-IsPage (unfold byte_size in omega arith)

pub tags_parse : parse_vorbis_comment_block tags_body ≡ ok (codes "v", codes "A=1" ∷ [])
unfolding parse_vorbis_comment_block parse_comments uint32_at le
tags_parse = refl

parse-serialize_vorbis_comment_block_example :
    parse_vorbis_comment_block
      (serialize_vorbis_comment_block (codes "v") (codes "A=1" ∷ codes "B=" ∷ []) ++ (1 ∷ []))
    ≡ ok (codes "v", codes "A=1" ∷ codes "B=" ∷ [])
parse-serialize_vorbis_comment_block_example =
    parse-serialize_vorbis_comment_block (codes "v") (codes "A=1" ∷ codes "B=" ∷ []) (1 ∷ [])
      (omega arith) (omega arith) (omega arith)

assemble-paginate_example :
    assemble_ogg_header_packets
      (paginate_ogg_packets (codes "ab" ∷ [] ∷ []) 7 1 ++ (audio_page ∷ []))
      2
    ≡ ok (codes "ab" ∷ [] ∷ [], length (paginate_ogg_packets (codes "ab" ∷ [] ∷ []) 7 1) - 1)
assemble-paginate_example =
    assemble-paginate (codes "ab" ∷ [] ∷ []) 7 1 (audio_page ∷ []) (omega arith)

-- An edit that adds the comment "B=2".
abbrev add_b : Bool → Bytes → List Bytes → Result OggError (Bytes × List Bytes)
add_b is_opus vendor comments = ok (vendor, comments ++ (codes "B=2" ∷ []))

stream-IsEditable : IsEditable add_b opus_head (opus_tags ∷ [])
unfolding codec_of ◌=ₛ◌ EndsHeaders assemble_ogg_header_packets assemble_pages assemble_segments
    nothing_left comment_body
stream-IsEditable = record {
  is_opus = true;
  codec = refl;
  packets = codes "OpusHead" ∷ (codes "OpusTags" ++ tags_body) ∷ [];
  ends = (refl, (1, refl));
  few = omega arith;
  body = tags_body;
  body_is = refl;
  vendor = codes "v";
  comments = codes "A=1" ∷ [];
  parsed = tags_parse;
  vendor' = codes "v";
  comments' = codes "A=1" ∷ codes "B=2" ∷ [];
  edited = refl;
}

edited_stream :
    (out : Bytes) × (edit_ogg_fields add_b
        (serialize_pages (opus_head ∷ opus_tags ∷ audio_page ∷ []))
      ≡ ok out)
edited_stream =
    edit_ogg_fields-total add_b opus_head (opus_tags ∷ []) (audio_page ∷ []) stream-IsPageOf
      stream-IsEditable

edit_ogg_fields-total_example :
    (out : Bytes) × (edit_ogg_fields add_b
        (serialize_pages (opus_head ∷ opus_tags ∷ audio_page ∷ []))
      ≡ ok out)
edit_ogg_fields-total_example =
    edit_ogg_fields-total add_b opus_head (opus_tags ∷ []) (audio_page ∷ []) stream-IsPageOf
      stream-IsEditable

edit_ogg_fields-IsEdited_example :
    IsEdited add_b opus_head (opus_tags ∷ audio_page ∷ []) edited_stream.0
edit_ogg_fields-IsEdited_example =
    edit_ogg_fields-IsEdited add_b opus_head (opus_tags ∷ audio_page ∷ []) edited_stream.0
      stream-IsPageOf edited_stream.1
