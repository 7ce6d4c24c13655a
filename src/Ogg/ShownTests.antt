-- ===== src/Ogg/ShownTests.antt =====
-- An edit of the title of an Opus file by go_backend/ogg_edit.go, read by go_backend/audio_metadata_ogg.go.
use musi_flac.Prelude.{
  to_upper-KeepsCapitals, ◌+◌, ◌≡◌, refl, true, List, [], ◌∷◌, ◌++◌, Option, none, arith, Bytes,
  codes, ◌=ₛ◌, ok, to_upper, to_upper_byte, put_le,
}
use musi_flac.Prelude.Dict.{lookup}
use musi_flac.Id3.Apply.{AudioMetadata}
use musi_flac.Vorbis.{comment_of, before_equals, has_key, remove_comment_key, set_or_clear_comment}
use musi_flac.Vorbis.Fields.{
  on_field, simple_edits, cleanup_edits, artist_edit, index_edit, lyrics_edit, rest_edits,
  has_field, apply_vorbis_field_edits,
}
use musi_flac.Vorbis.Edited.{is_last}
use musi_flac.Ogg.Page.{byte_size}
use musi_flac.Ogg.PageTrip.{read-serialize}
use musi_flac.Ogg.Packets.{
  assemble_segments, assemble_pages, nothing_left, assemble_ogg_header_packets, lace, lace_all,
  lace_loop, join, paginate_ogg_packets, paginate_loop,
}
use musi_flac.Ogg.Comments.{sized, serialize_comments, serialize_vorbis_comment_block}
use musi_flac.Ogg.Edit.{
  Headers, codec_of, collect_headers, next_header_page, comment_body, comment_packet,
  header_packets, serialize_pages,
}
use musi_flac.Ogg.Fields.{
  apply_opus_replay_gain_edits, gain_edit, put_cover, cover_edit, edit_comments, edit_ogg_file,
}
use musi_flac.Ogg.FieldEdit.{IsVisited}
use musi_flac.Ogg.EditTotal.{IsEditable, EndsHeaders, edit_ogg_fields-total}
use musi_flac.Ogg.Reader.{read_ogg_vorbis_comments, shown_metadata}
use musi_flac.Ogg.Listed.{title}
use musi_flac.Ogg.Written.{IsBos}
use musi_flac.Ogg.Shown.{Opened, FitsReader, edit_ogg_file-IsShown}
use musi_flac.Ogg.Tests.{
  opus_head, opus_tags, audio_page, tags_body, plain, no_number, no_text, opus_head-IsPage,
  opus_tags-IsPage, stream-IsPageOf, tags_parse,
}

abbrev one : Bytes → List Bytes
one s = s ∷ []

abbrev no_bytes : Bytes → Option Bytes
no_bytes s = none

abbrev fields : List (Bytes × Bytes)
fields = (codes "title", codes "New") ∷ []

abbrev rows : List (Bytes × Bytes)
rows = (codes "title", codes "TITLE") ∷ []

abbrev file : Bytes
file = serialize_pages (opus_head ∷ opus_tags ∷ audio_page ∷ [])

abbrev behind : Bytes
behind = serialize_pages (opus_tags ∷ audio_page ∷ [])

abbrev new_comments : List Bytes
new_comments = codes "A=1" ∷ codes "TITLE=New" ∷ []

title-IsVisited : IsVisited plain one fields rows title
unfolding lookup is_last ◌=ₛ◌
title-IsVisited = record {
  front = [];
  back = [];
  rows_are = refl;
  in_table = (refl, tt);
  last = refl;
}

new_title :
    edit_comments plain one no_number no_bytes no_bytes fields rows true
      (codes "v")
      (codes "A=1" ∷ [])
    ≡ ok (codes "v", new_comments)
unfolding edit_comments apply_vorbis_field_edits simple_edits on_field lookup set_or_clear_comment
    remove_comment_key has_key before_equals to_upper to_upper_byte comment_of rest_edits
    cleanup_edits artist_edit index_edit has_field lyrics_edit apply_opus_replay_gain_edits
    gain_edit cover_edit put_cover ◌=ₛ◌
new_title = refl

abbrev headers : Headers
headers = record {
  pages = opus_head ∷ opus_tags ∷ [];
  packets = codes "OpusHead" ∷ (codes "OpusTags" ++ tags_body) ∷ [];
  size = byte_size opus_head + byte_size opus_tags;
  rest = serialize_pages (audio_page ∷ []);
}

headers_of : collect_headers 1024 2 7 (opus_head ∷ []) (byte_size opus_head) behind ≡ ok headers
unfolding collect_headers next_header_page assemble_ogg_header_packets assemble_pages
    assemble_segments nothing_left ◌=ₛ◌ serialize_pages
headers_of = rw (read-serialize opus_tags (serialize_pages (audio_page ∷ [])) opus_tags-IsPage) refl

opened : Opened plain one no_number no_bytes no_bytes fields rows file
unfolding codec_of ◌=ₛ◌ comment_body serialize_pages
opened = record {
  first = opus_head;
  rest = behind;
  first_is = read-serialize opus_head behind opus_head-IsPage;
  is_opus = true;
  codec_is = refl;
  h = headers;
  headers_are = headers_of;
  body = tags_body;
  body_is = refl;
  vendor = codes "v";
  comments = codes "A=1" ∷ [];
  parsed = tags_parse;
  vendor' = codes "v";
  comments' = new_comments;
  edited = new_title;
}

opened-FitsReader : FitsReader plain one no_number no_bytes no_bytes fields rows opened
unfolding opened header_packets comment_packet serialize_vorbis_comment_block serialize_comments
    sized put_le lace_all lace lace_loop join paginate_ogg_packets paginate_loop
opened-FitsReader = record {
  vendor_fits = omega arith;
  count_fits = omega arith;
  comments_fit = (omega arith, (omega arith, tt));
  packets_filled = (omega arith, tt);
  packets_fit = omega arith;
  pages_fit = omega arith;
}

head-IsBos : IsBos opus_head
head-IsBos = record {
  page = opus_head-IsPage;
  alone = refl;
  filled = omega arith;
  short = omega arith;
}

file-IsEditable :
    IsEditable
      (edit_comments plain one no_number no_bytes no_bytes fields rows)
      opus_head
      (opus_tags ∷ [])
unfolding codec_of ◌=ₛ◌ EndsHeaders assemble_ogg_header_packets assemble_pages assemble_segments
    nothing_left comment_body
file-IsEditable = record {
  is_opus = true;
  codec = refl;
  packets = codes "OpusHead" ∷ (codes "OpusTags" ++ tags_body) ∷ [];
  ends = (refl, (1, refl));
  few = omega arith;
  body = tags_body;
  body_is = refl;
  vendor = codes "v";
  comments = codes "A=1" ∷ [];
  parsed = tags_parse;
  vendor' = codes "v";
  comments' = new_comments;
  edited = new_title;
}

edited_file :
    (out : Bytes) × (edit_ogg_file plain one no_number no_bytes no_bytes fields rows file ≡ ok out)
unfolding edit_ogg_file
edited_file =
    edit_ogg_fields-total (edit_comments plain one no_number no_bytes no_bytes fields rows)
      opus_head (opus_tags ∷ []) (audio_page ∷ []) stream-IsPageOf file-IsEditable

edit_ogg_file-IsShown_example :
    (m : AudioMetadata) × (read_ogg_vorbis_comments plain no_number no_text edited_file.0
      ≡ shown_metadata m)
    × (m.title ≡ codes "New")
unfolding opened lookup ◌=ₛ◌
edit_ogg_file-IsShown_example =
    edit_ogg_file-IsShown plain one no_number no_bytes no_bytes fields rows no_number no_text title
      (codes "New") file edited_file.0 opened to_upper-KeepsCapitals title-IsVisited refl head-IsBos
      opened-FitsReader edited_file.1
