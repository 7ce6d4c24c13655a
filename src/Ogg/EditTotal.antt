-- ===== src/Ogg/EditTotal.antt =====
-- When `EditOggFields` of go_backend/ogg_edit.go succeeds.
use musi_flac.Prelude.{
  ℕ, zero, suc, ◌+◌, ◌≤◌, ◌<◌, ◌≡◌, refl, sym, ap, ◌∙◌, Bool, List, [], ◌∷◌, ◌++◌, arith, length,
  get_or, All, All-right, length-append, append_assoc, append-nil, Bytes, Result, ok, err,
}
use musi_flac.Ogg.Page.{OggEditPage, OggError, header_incomplete, byte_size, serialize}
use musi_flac.Ogg.PageTrip.{read-serialize, length-serialize}
use musi_flac.Ogg.Packets.{assemble_ogg_header_packets, paginate_ogg_packets}
use musi_flac.Ogg.Comments.{parse_vorbis_comment_block, serialize_vorbis_comment_block}
use musi_flac.Ogg.Edit.{
  Headers, codec_of, header_packet_count, next_header_page, collect_headers, comment_body,
  comment_packet, header_packets, serialize_pages, rewrite_headers, edit_ogg_fields,
}
use musi_flac.Ogg.Stream.{IsPageOf, serialize_pages-append}
use musi_flac.Ogg.Audio.{written_audio, write_audio-pages}

-- The header packets are complete with the last of `taken`, and not before.
unfoldable pub EndsHeaders : ℕ → List OggEditPage → List OggEditPage → List Bytes → Type 0
EndsHeaders count pages [] packets =
    (last : ℕ) × (assemble_ogg_header_packets pages count ≡ ok (packets, last))
EndsHeaders count pages (p ∷ taken) packets =
    (assemble_ogg_header_packets pages count ≡ err header_incomplete)
    × EndsHeaders count (pages ++ (p ∷ [])) taken packets

-- The loop then takes just these pages: 1024 rounds are enough for 1024 pages.
collect_headers-total :
    (fuel count serial : ℕ) (pages : List OggEditPage) (size : ℕ) (taken audio : List OggEditPage)
    (packets : List Bytes)
    → length taken < fuel
    → length pages + length taken ≤ 1024
    → All (IsPageOf serial) taken
    → EndsHeaders count pages taken packets
    → collect_headers fuel count serial pages size (serialize_pages (taken ++ audio))
      ≡ ok (record {
        pages = pages ++ taken;
        packets = packets;
        size = size + length (serialize_pages taken);
        rest = serialize_pages audio;
      })
unfolding EndsHeaders collect_headers next_header_page serialize_pages
collect_headers-total zero count serial pages size taken audio packets f b v e =
    absurd (omega arith)
collect_headers-total (suc fuel) count serial pages size [] audio packets f b v e =
    ground (arith, append-nil pages)
collect_headers-total (suc fuel) count serial pages size (p ∷ taken) audio packets f b v e =
    ground (
      arith,
      read-serialize p (serialize_pages (taken ++ audio)) v.0.page,
      v.0.serial_is,
      append_assoc pages (p ∷ []) taken,
      length-append pages (p ∷ []),
      length-append (serialize p) (serialize_pages taken),
      length-serialize p,
      collect_headers-total fuel count serial (pages ++ (p ∷ [])) (size + byte_size p) taken audio
          packets (omega arith) (omega (arith, length-append pages (p ∷ []))) v.1 e.1,
    )

All-left : (P : OggEditPage → Type 0) (xs ys : List OggEditPage) → All P (xs ++ ys) → All P xs
All-left P [] ys h = tt
All-left P (x ∷ xs) ys h = (h.0, All-left P xs ys h.1)

-- What a file has to be for an edit to succeed: its first page names a codec, its header packets end
-- with a page, among the first 1024, the second of them holds comments, and these can be edited.
pub record IsEditable (edit : Bool → Bytes → List Bytes → Result OggError (Bytes × List Bytes))
    (first : OggEditPage) (taken : List OggEditPage) : Type 0 where
  pub is_opus : Bool
  pub codec : codec_of first.payload ≡ ok is_opus
  pub packets : List Bytes
  pub ends : EndsHeaders (header_packet_count is_opus) (first ∷ []) taken packets
  pub few : 1 + length taken ≤ 1024
  pub body : Bytes
  pub body_is : comment_body is_opus (get_or packets 1 []) ≡ ok body
  pub vendor : Bytes
  pub comments : List Bytes
  pub parsed : parse_vorbis_comment_block body ≡ ok (vendor, comments)
  pub vendor' : Bytes
  pub comments' : List Bytes
  pub edited : edit is_opus vendor comments ≡ ok (vendor', comments')

-- A file of pages of one stream, whose first page names a codec, whose header packets end with a
-- page within 1024 pages, whose comment packet parses and whose edit is not refused, is edited with
-- success, whatever its audio pages.
pub edit_ogg_fields-total :
    (edit : Bool → Bytes → List Bytes → Result OggError (Bytes × List Bytes)) (first : OggEditPage)
    (taken audio : List OggEditPage)
    → All (IsPageOf first.serial) (first ∷ (taken ++ audio))
    → IsEditable edit first taken
    → (out : Bytes) × (edit_ogg_fields edit (serialize_pages (first ∷ (taken ++ audio))) ≡ ok out)
unfolding edit_ogg_fields rewrite_headers serialize_pages
edit_ogg_fields-total edit first taken audio v r =
    let serial = first.serial in
    let new_packets =
      header_packets r.is_opus
        (comment_packet r.is_opus (serialize_vorbis_comment_block r.vendor' r.comments'))
        r.packets in
    let new = paginate_ogg_packets new_packets serial 1 in
    let old = length (first ∷ taken) in
    let h : Headers = record {
      pages = first ∷ taken;
      packets = r.packets;
      size = byte_size first + length (serialize_pages taken);
      rest = serialize_pages audio;
    } in
    let front = serialize first ++ serialize_pages taken in
    let file = serialize_pages (first ∷ (taken ++ audio)) in
    let collected =
      collect_headers-total 1024 (header_packet_count r.is_opus) serial (first ∷ [])
        (byte_size first) taken audio r.packets (omega (arith, r.few)) (omega (arith, r.few))
        (All-left (IsPageOf serial) taken audio v.1) r.ends in
    let written =
      write_audio-pages serial (length new) old h file front audio refl
        (ap (λ t. serialize first ++ t) (serialize_pages-append taken audio)
          ∙ sym (append_assoc (serialize first) (serialize_pages taken) (serialize_pages audio)))
        (omega
          (arith, length-append (serialize first) (serialize_pages taken), length-serialize first))
        (All-right (IsPageOf serial) taken audio v.1) in
    (
      serialize first
          ++ (serialize_pages new ++ serialize_pages (written_audio (length new) old audio)),
      ground (
        arith,
        read-serialize first (serialize_pages (taken ++ audio)) v.0.page,
        r.codec,
        collected,
        r.body_is,
        r.parsed,
        r.edited,
        written,
      ),
    )
