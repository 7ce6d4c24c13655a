-- ===== src/Ogg/Edit.antt =====
-- `EditOggFields` of go_backend/ogg_edit.go, from the bytes of the file to the bytes of the file that
-- replaces it. The argument `edit` is its edit of the comment list, which Ogg/Fields gives: it is told
-- whether the stream is Opus, and may refuse. The temporary file, its sync and its rename are left out: a
-- result `ok` is what is renamed over the file, a result `err` leaves the file as it was.
use musi_flac.Prelude.{
  ℕ, zero, suc, ◌+◌, ◌%◌, ◌^◌, Bool, true, false, ◌&&◌, List, [], ◌∷◌, ◌++◌, leb, ◌==◌,
  if◌then◌else◌, length, take, drop, get_or, slice, Bytes, codes, ◌=ₛ◌, Result, ok, err, ◌>>=◌,
}
use musi_flac.Ogg.Page.{
  OggEditPage, OggError, eof, truncated_page_header, stream_too_short, unsupported_codec,
  header_incomplete, too_many_pages, multiplexed, comment_not_found, serialize,
  read_next_ogg_edit_page, byte_size,
}
use musi_flac.Ogg.Packets.{assemble_ogg_header_packets, paginate_ogg_packets}
use musi_flac.Ogg.Comments.{parse_vorbis_comment_block, serialize_vorbis_comment_block}

-- The codec by the first packet: `isOpus`. `headerPacketCount` is 2 for Opus, 3 for Vorbis.
unfoldable pub codec_of : Bytes → Result OggError Bool
codec_of first =
    if leb 8 (length first) && (take 8 first =ₛ codes "OpusHead")
    then ok true
    else if leb 7 (length first) && get_or first 0 0 == 1 && (slice first 1 7 =ₛ codes "vorbis")
    then ok false
    else err unsupported_codec

abbrev pub header_packet_count : Bool → ℕ
header_packet_count is_opus = if is_opus then 2 else 3

-- What the loop over the header pages leaves: the pages, their packets, their size in the file, and
-- the reader behind them.
pub record Headers : Type 0 where
  pub pages : List OggEditPage
  pub packets : List Bytes
  pub size : ℕ
  pub rest : Bytes

-- One more page is wanted: the reads and tests of the loop's end, then the next round, `again`.
unfoldable pub next_header_page :
    ℕ
    → List OggEditPage
    → ℕ
    → Bytes
    → (List OggEditPage → ℕ → Bytes → Result OggError Headers)
    → Result OggError Headers
next_header_page serial pages size rest again =
    if leb 1024 (length pages) then err too_many_pages else elim (read_next_ogg_edit_page rest) [
      | err eof ↦ err header_incomplete
      | err e ↦ err e
      | ok (page, rest') ↦
          if page.serial == serial
          then again (pages ++ (page ∷ [])) (size + byte_size page) rest'
          else err multiplexed
    ]

-- A round adds a page, and the loop stops at 1024 pages: 1024 rounds are never used up.
unfoldable pub collect_headers : ℕ → ℕ → ℕ → List OggEditPage → ℕ → Bytes → Result OggError Headers
collect_headers zero count serial pages size rest = err too_many_pages
collect_headers (suc fuel) count serial pages size rest =
    elim (assemble_ogg_header_packets pages count) [
      | ok (packets, idx) ↦
          ok (record { pages = pages; packets = packets; size = size; rest = rest })
      | err header_incomplete ↦
          next_header_page serial pages size rest (collect_headers fuel count serial)
      | err e ↦ err e
    ]

-- The comment packet without its signature; the framing bit behind a Vorbis block stays.
unfoldable pub comment_body : Bool → Bytes → Result OggError Bytes
comment_body true packet =
    if leb 8 (length packet) && (take 8 packet =ₛ codes "OpusTags")
    then ok (drop 8 packet)
    else err comment_not_found
comment_body false packet =
    if leb 7 (length packet) && get_or packet 0 0 == 3 && (slice packet 1 7 =ₛ codes "vorbis")
    then ok (drop 7 packet)
    else err comment_not_found

unfoldable pub comment_packet : Bool → Bytes → Bytes
comment_packet true body = codes "OpusTags" ++ body
comment_packet false body = (3 ∷ codes "vorbis") ++ (body ++ (1 ∷ []))

unfoldable pub serialize_pages : List OggEditPage → Bytes
serialize_pages [] = []
serialize_pages (p ∷ ps) = serialize p ++ serialize_pages ps

-- The loop that numbers the audio pages anew; `fuel` bounds the bytes that are left.
unfoldable pub renumber_loop : ℕ → ℕ → ℕ → Bytes → Result OggError Bytes
renumber_loop zero serial seq rest = ok []
renumber_loop (suc fuel) serial seq rest = elim (read_next_ogg_edit_page rest) [
  | err eof ↦ ok []
  | err e ↦ err e
  | ok (page, rest') ↦
      if page.serial == serial
      then (do
        written ← renumber_loop fuel serial ((seq + 1) % 2 ^ 32) rest'
        ok (serialize (record page { seq = seq }) ++ written))
      else err multiplexed
]

unfoldable pub write_audio : ℕ → ℕ → ℕ → Headers → Bytes → Result OggError Bytes
write_audio serial new_count old_count h file =
    if new_count + 1 == old_count
    then ok (drop h.size file)
    else renumber_loop (suc (length h.rest)) serial ((1 + new_count) % 2 ^ 32) h.rest

-- The packets that are laid into the new header pages.
unfoldable pub header_packets : Bool → Bytes → List Bytes → List Bytes
header_packets is_opus comment packets =
    if is_opus then comment ∷ [] else comment ∷ get_or packets 2 [] ∷ []

module _ (edit : Bool → Bytes → List Bytes → Result OggError (Bytes × List Bytes)) where
  -- From the header pages on.
  unfoldable pub rewrite_headers : Bool → OggEditPage → Headers → Bytes → Result OggError Bytes
  rewrite_headers is_opus first h file = do
    body ← comment_body is_opus (get_or h.packets 1 [])
    (vendor, comments) ← parse_vorbis_comment_block body
    (vendor', comments') ← edit is_opus vendor comments
    let comment = comment_packet is_opus (serialize_vorbis_comment_block vendor' comments')
    let new = paginate_ogg_packets (header_packets is_opus comment h.packets) first.serial 1
    audio ← write_audio first.serial (length new) (length h.pages) h file
    ok (serialize first ++ (serialize_pages new ++ audio))

  unfoldable pub edit_ogg_fields : Bytes → Result OggError Bytes
  edit_ogg_fields file = elim (read_next_ogg_edit_page file) [
    | err eof ↦ err stream_too_short
    | err e ↦ err e
    | ok (first, rest) ↦ do
      is_opus ← codec_of first.payload
      h ←
          collect_headers 1024 (header_packet_count is_opus) first.serial (first ∷ [])
            (byte_size first) rest
      rewrite_headers is_opus first h file
  ]

-- `readAllOggEditPages`: the loop, with the pages read so far; `fuel` bounds the bytes left.
unfoldable pub read_all_loop : ℕ → List OggEditPage → Bytes → Result OggError (List OggEditPage)
read_all_loop zero pages rest = err truncated_page_header
read_all_loop (suc fuel) pages rest = elim (read_next_ogg_edit_page rest) [
  | err eof ↦ if leb 1 (length pages) then ok pages else err truncated_page_header
  | err e ↦ err e
  | ok (page, rest') ↦
      let on = read_all_loop fuel (pages ++ (page ∷ [])) rest' in
      elim pages [ [] ↦ on | p ∷ ps ↦ if page.serial == p.serial then on else err multiplexed ]
]

unfoldable pub read_all_ogg_edit_pages : Bytes → Result OggError (List OggEditPage)
read_all_ogg_edit_pages file = read_all_loop (suc (length file)) [] file
