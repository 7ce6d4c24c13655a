-- ===== src/Ogg/Written.antt =====
-- The packets that `collectOggPackets` of go_backend/audio_metadata_ogg.go finds in a file that `EditOggFields`
-- of go_backend/ogg_edit.go has written.
use musi_flac.Prelude.{
  ◌+◌, ◌-◌, ◌≤◌, ◌<◌, ◌≡◌, refl, sym, ap, ◌∙◌, subst, true, false, List, [], ◌∷◌, ◌++◌, arith, ltb,
  length, All, append-nil, Bytes, ◌=ₛ◌,
}
use musi_flac.Ogg.Page.{OggEditPage, serialize}
use musi_flac.Ogg.PageTrip.{IsPage}
use musi_flac.Ogg.Packets.{Lacing, lace_all, join, values, paginate_ogg_packets}
use musi_flac.Ogg.PacketTrip.{lace_all-lacings}
use musi_flac.Ogg.Fold.{IsLacing}
use musi_flac.Ogg.Edit.{serialize_pages}
use musi_flac.Ogg.Gathering.{
  Collecting, Packets, goes_on, collect_segments, collect_pages, collect_ogg_packets,
  max_packet_size,
}
use musi_flac.Ogg.Gather.{gather, gather-lace_all, collect_segments-gather}
use musi_flac.Ogg.Collected.{
  Grows, begins-empty, collect_page, collect_pages-Grows, collect_pages-paginate_loop,
}

-- A first page that holds one packet of less than 255 bytes, and nothing else.
pub record IsBos (first : OggEditPage) : Type 0 where
  pub page : IsPage first
  pub alone : first.segments ≡ length first.payload ∷ []
  pub filled : 7 < length first.payload
  pub short : length first.payload < 255

not_empty : (s : Bytes) → 0 < length s → (s =ₛ []) ≡ false
unfolding ◌=ₛ◌
not_empty [] h = absurd (omega arith)
not_empty (x ∷ s) h = refl

bos_segments :
    (payload : Bytes)
    → 0 < length payload
    → length payload < 255
    → collect_segments 30
        (length payload ∷ [])
        payload
        (record { packets = []; cur = []; skips = false })
      ≡ goes_on (record { packets = payload ∷ []; cur = []; skips = false })
unfolding values join gather
bos_segments payload filled short =
    let l : Lacing = record { value = length payload; bytes = payload } in
    let v : All IsLacing (l ∷ []) =
      (record { value_is = refl; value_in = omega (arith, short) }, tt) in
    let whole : join (l ∷ []) ≡ payload = append-nil payload in
    let ends : ltb (length payload) 255 ≡ true = ground (arith, short) in
    let named : (payload =ₛ []) ≡ false = not_empty payload filled in
    let gathered : gather (l ∷ []) [] [] ≡ ([], payload ∷ []) = rw ends (rw named refl) in
    ap
      (λ b.
        collect_segments 30 (length payload ∷ []) b
          (record { packets = []; cur = []; skips = false }))
      (sym whole)
    ∙ (collect_segments-gather 30 (l ∷ []) [] [] v (omega (arith, ap length whole, short))
        (omega (arith, ap (λ (g : Bytes × List Bytes). length g.1) gathered)))
    ∙ ap (λ (g : Bytes × List Bytes). goes_on (record { packets = g.1; cur = g.0; skips = false }))
        gathered

-- The first page, the pages of two packets or fewer, and anything behind: the reader finds the packets.
pub collect-written :
    (first : OggEditPage) (qs : List Bytes) (tail : Bytes)
    → IsBos first
    → length qs < 3
    → All (λ q. 0 < length q) qs
    → length (join (lace_all qs)) ≤ max_packet_size
    → length (paginate_ogg_packets qs first.serial 1) ≤ 79
    → Grows
        (first.payload ∷ qs)
        (collect_ogg_packets 30 80 (
          serialize first
          ++ (serialize_pages (paginate_ogg_packets qs first.serial 1) ++ tail))).packets
unfolding collect_ogg_packets paginate_ogg_packets
collect-written first qs tail bos few filled small pages =
    let new = paginate_ogg_packets qs first.serial 1 in
    let n = 79 - length new in
    let segs = lace_all qs in
    let start : Collecting = record { packets = []; cur = []; skips = false } in
    let opened : Collecting = record { packets = first.payload ∷ []; cur = []; skips = false } in
    let last : Collecting = record { packets = first.payload ∷ qs; cur = []; skips = false } in
    let gathered = gather-lace_all qs (first.payload ∷ []) filled in
    let one =
      collect_page 30 79 first (serialize_pages new ++ tail) start opened bos.page (omega arith)
        (begins-empty first.header_type)
        (ap (λ ss. collect_segments 30 ss first.payload start) bos.alone
          ∙ bos_segments first.payload (omega (arith, bos.filled)) bos.short) in
    let split : 79 ≡ length new + n = omega (arith, pages) in
    let two =
      collect_pages-paginate_loop (length segs) 30 n first.serial 1 false segs tail []
        (first.payload ∷ []) (omega arith) (lace_all-lacings qs) bos.page.serial_in (omega arith)
        (unfold ◌=ₛ◌ in refl) (omega (arith, small))
        (omega (arith, few, ap (λ (g : Bytes × List Bytes). length g.1) gathered)) in
    let three : collect_pages 30 n tail (record {
      packets = (gather segs [] (first.payload ∷ [])).1;
      cur = (gather segs [] (first.payload ∷ [])).0;
      skips = false;
    })
        ≡ collect_pages 30 n tail last =
      ap
        (λ (g : Bytes × List Bytes).
          collect_pages 30 n tail (record { packets = g.1; cur = g.0; skips = false }))
        gathered in
    subst (λ (c : Packets). Grows (first.payload ∷ qs) c.packets)
      (sym (
        one
        ∙ ap (λ k. collect_pages 30 k (serialize_pages new ++ tail) opened) split
        ∙ two
        ∙ three))
      (collect_pages-Grows 30 n tail last)
