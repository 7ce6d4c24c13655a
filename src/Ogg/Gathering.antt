-- ===== src/Ogg/Gathering.antt =====
-- The packets of a file, as `collectOggPackets` of go_backend/audio_metadata_ogg.go gathers them.
use musi_flac.Prelude.{
  ℕ, zero, suc, ◌+◌, ◌*◌, Bool, false, not, ◌&&◌, List, [], ◌∷◌, ◌++◌, Option, none, some, ltb, leb,
  if◌then◌else◌, length, take, drop, slice, get_or, Bytes, codes, ◌=ₛ◌, Result, ok, err, ◌>>=◌,
  ◌>>◌, guard,
}
use musi_flac.Id3.{has_flag}
use musi_flac.Ogg.Page.{OggError, invalid_page, read_full, sum}

pub record OggPage : Type 0 where
  pub header_type : ℕ
  pub segment_table : Bytes
  pub payload : Bytes

unfoldable pub read_ogg_page_with_header : Bytes → Result OggError (OggPage × Bytes)
read_ogg_page_with_header r = do
  (header, r₁) ← read_full 27 r
  guard (slice header 0 4 =ₛ codes "OggS") invalid_page
  (segments, r₂) ← read_full (get_or header 26 0) r₁
  (payload, r₃) ← read_full (sum segments) r₂
  ok (record { header_type = get_or header 5 0; segment_table = segments; payload = payload }, r₃)

abbrev pub max_packet_size : ℕ
max_packet_size = 10 * 1048576

-- `packets`, `cur` and `skipPacket`.
pub record Collecting : Type 0 where
  pub packets : List Bytes
  pub cur : Bytes
  pub skips : Bool

-- What the loop over the segments of a page comes to: the end of the page, a return with all packets, or
-- a return with an error.
pub data Collected : Type 0 where
  goes_on : Collecting → Collected
  enough : List Bytes → Collected
  invalid_segments : List Bytes → Collected

abbrev pub with_packet : List Bytes → Bytes → List Bytes
with_packet packets cur = if cur =ₛ [] then packets else packets ++ (cur ∷ [])

-- `payload` is `page.data[offset:]`.
unfoldable pub collect_segments : ℕ → Bytes → Bytes → Collecting → Collected
collect_segments max [] payload s = goes_on s
collect_segments max (seg ∷ segs) payload s =
    let ends = ltb seg 255 in
    let rest = drop seg payload in
    let cur = s.cur ++ take seg payload in
    let packets = with_packet s.packets cur in
    let skipped = collect_segments max segs rest (record s { skips = not ends }) in
    let too_large = collect_segments max segs rest (record s { cur = []; skips = not ends }) in
    let ended = collect_segments max segs rest (record s { packets = packets; cur = [] }) in
    let continued = collect_segments max segs rest (record s { cur = cur }) in
    if ltb (length payload) seg
    then invalid_segments s.packets
    else if s.skips
    then skipped
    else if ltb max_packet_size (length s.cur + seg)
    then too_large
    else if not ends
    then continued
    else if leb max (length packets)
    then enough packets
    else ended

-- A page that continues no packet drops what an earlier page began.
abbrev pub begins_page : ℕ → Collecting → Collecting
begins_page header_type s =
    if not (has_flag header_type 1) && not (s.cur =ₛ [])
    then record s { cur = []; skips = false }
    else s

-- The packets, and whether there is an error.
pub record Packets : Type 0 where
  pub packets : List Bytes
  pub failure : Option OggError

-- A failed read of a page counts only where there is no packet yet.
unfoldable pub failure_of : OggError → List Bytes → Option OggError
failure_of e [] = some e
failure_of e (_ ∷ _) = none

-- The next page, or a return.
unfoldable pub after_page : (Collecting → Packets) → Collected → Packets
after_page next (goes_on s) = next s
after_page next (enough packets) = record { packets = packets; failure = none }
after_page next (invalid_segments packets) = record {
  packets = packets;
  failure = some invalid_page;
}

-- The loop over the pages, one round for each page up to `maxPages`.
unfoldable pub collect_pages : ℕ → ℕ → Bytes → Collecting → Packets
collect_pages max zero r s = record { packets = s.packets; failure = none }
collect_pages max (suc pages) r s =
    if leb max (length s.packets)
    then record { packets = s.packets; failure = none }
    else elim (read_ogg_page_with_header r) [
      | err e ↦ record { packets = s.packets; failure = failure_of e s.packets }
      | ok (page, rest) ↦
          after_page (collect_pages max pages rest)
            (collect_segments max page.segment_table page.payload (begins_page page.header_type s))
    ]

unfoldable pub collect_ogg_packets : ℕ → ℕ → Bytes → Packets
collect_ogg_packets max_packets max_pages file =
    collect_pages max_packets max_pages file (record { packets = []; cur = []; skips = false })
