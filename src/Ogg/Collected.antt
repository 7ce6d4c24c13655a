-- ===== src/Ogg/Collected.antt =====
-- The pages that go_backend/ogg_edit.go writes, collected by `collectOggPackets` of
-- go_backend/audio_metadata_ogg.go.
use musi_flac.Prelude.{
  ℕ, zero, suc, ◌+◌, ◌%◌, ◌^◌, ◌≤◌, ◌<◌, ◌≡◌, refl, sym, ap, ◌∙◌, subst, inl, inr, Bool, true,
  false, not, ◌||◌, List, [], ◌∷◌, ◌++◌, arith, leb, ltb, if◌then◌else◌, Bool-cases, length, take,
  drop, slice, All, All-take, All-drop, length-append, length-drop, length-take, take-append-drop,
  append_assoc, append-nil, Bytes, IsU32, codes, ◌=ₛ◌, ok, Result-cases,
}
use musi_flac.Ogg.Page.{OggEditPage, header_bytes, page_bytes, serialize, ogg_crc, sum}
use musi_flac.Ogg.PageTrip.{
  IsPage, read_full-append, length-header_bytes, magic_of_header, size_of_header, type_of_header,
}
use musi_flac.Ogg.Packets.{Lacing, join, last_is_full, page_of, paginate_loop}
use musi_flac.Ogg.Fold.{IsLacing}
use musi_flac.Ogg.Layout.{page_of-IsPage}
use musi_flac.Ogg.Edit.{serialize_pages}
use musi_flac.Ogg.Gathering.{
  Collecting, Collected, Packets, goes_on, enough, invalid_segments, read_ogg_page_with_header,
  collect_segments, collect_pages, after_page, begins_page, max_packet_size, with_packet,
}
use musi_flac.Ogg.Gather.{
  gather, gather-append, gather_grows, length-gather, gather-rest, collect_segments-gather,
}

-- A page is read as it was written.
pub read_page-serialize :
    (p : OggEditPage) (rest : Bytes)
    → IsPage p
    → read_ogg_page_with_header (serialize p ++ rest)
      ≡ ok (
        record { header_type = p.header_type; segment_table = p.segments; payload = p.payload },
        rest,
      )
unfolding read_ogg_page_with_header serialize page_bytes
read_page-serialize p rest v =
    let crc = ogg_crc (page_bytes p 0) in
    let magic : (slice (header_bytes p crc) 0 4 =ₛ codes "OggS") ≡ true =
      ground (arith, magic_of_header p crc) in
    ground (
      arith,
      append_assoc (header_bytes p crc) (p.segments ++ p.payload) rest,
      append_assoc p.segments p.payload rest,
      read_full-append 27 (header_bytes p crc) (p.segments ++ (p.payload ++ rest))
          (sym (length-header_bytes p crc)),
      magic,
      size_of_header p crc v,
      type_of_header p crc,
      read_full-append (length p.segments) p.segments (p.payload ++ rest) refl,
      read_full-append (sum p.segments) p.payload rest v.payload_size,
    )

-- One page, whose segments leave the loop going.
pub collect_page :
    (max n : ℕ) (p : OggEditPage) (rest : Bytes) (s s' : Collecting)
    → IsPage p
    → length s.packets < max
    → begins_page p.header_type s ≡ s
    → collect_segments max p.segments p.payload s ≡ goes_on s'
    → collect_pages max (suc n) (serialize p ++ rest) s ≡ collect_pages max n rest s'
unfolding collect_pages after_page
collect_page max n p rest s s' v few same segments =
    let room : leb max (length s.packets) ≡ false = ground (arith, few) in
    rw room (rw (read_page-serialize p rest v) (rw same (rw segments refl)))

pub begins-empty :
    (t : ℕ)
    → let s : Collecting = record { packets = []; cur = []; skips = false } in begins_page t s ≡ s
unfolding ◌=ₛ◌
begins-empty t = ground arith

begins-continued :
    (packets : List Bytes) (cur : Bytes) (continued : Bool)
    → (continued || (cur =ₛ [])) ≡ true
    → let s : Collecting = record { packets = packets; cur = cur; skips = false } in
      begins_page (if continued then 1 else 0) s ≡ s
begins-continued packets cur true h = refl
begins-continued packets cur false h = rw h refl

-- What is unfinished behind some segments is continued in the next page.
rest_continued :
    (ls : List Lacing) (l : Lacing) (cur : Bytes) (packets : List Bytes)
    → All IsLacing (l ∷ ls)
    → (last_is_full (l ∷ ls) || ((gather (l ∷ ls) cur packets).0 =ₛ [])) ≡ true
unfolding ◌=ₛ◌
rest_continued ls l cur packets v = elim (Bool-cases (last_is_full (l ∷ ls))) [
  | inl full ↦ rw full refl
  | inr ended ↦ rw ended (rw (gather-rest ls l cur packets v ended) refl)
]

join-append : (xs ys : List Lacing) → join (xs ++ ys) ≡ join xs ++ join ys
unfolding join
join-append [] ys = refl
join-append (l ∷ xs) ys =
    ap (λ t. l.bytes ++ t) (join-append xs ys) ∙ sym (append_assoc l.bytes (join xs) (join ys))

-- The pages of some segments, where no packet is too long and there are not yet enough.
pub collect_pages-paginate_loop :
    (fuel max n serial seq : ℕ) (continued : Bool) (ls : List Lacing) (tail cur : Bytes)
    (packets : List Bytes)
    → length ls ≤ fuel
    → All IsLacing ls
    → IsU32 serial
    → IsU32 seq
    → (continued || (cur =ₛ [])) ≡ true
    → length cur + length (join ls) ≤ max_packet_size
    → length (gather ls cur packets).1 < max
    → collect_pages max
        (length (paginate_loop fuel serial seq continued ls) + n)
        (serialize_pages (paginate_loop fuel serial seq continued ls) ++ tail)
        (record { packets = packets; cur = cur; skips = false })
      ≡ collect_pages max n tail (record {
        packets = (gather ls cur packets).1;
        cur = (gather ls cur packets).0;
        skips = false;
      })
unfolding paginate_loop serialize_pages
collect_pages-paginate_loop zero max n serial seq continued [] tail cur packets h v hs hq c small
      few =
    unfold gather in
    ap (λ k. collect_pages max k tail (record { packets = packets; cur = cur; skips = false }))
      (omega arith)
collect_pages-paginate_loop (suc fuel) max n serial seq continued [] tail cur packets h v hs hq c
      small few =
    unfold gather in
    ap (λ k. collect_pages max k tail (record { packets = packets; cur = cur; skips = false }))
      (omega arith)
collect_pages-paginate_loop zero max n serial seq continued (l ∷ ls) tail cur packets h v hs hq c
      small few =
    absurd (omega arith)
collect_pages-paginate_loop (suc fuel) max n serial seq continued (l ∷ ls) tail cur packets h v hs
      hq c small few =
    let segs = l ∷ ls in
    let now = take 255 segs in
    let left = drop 255 segs in
    let seq' = (seq + 1) % 2 ^ 32 in
    let page = page_of serial seq continued now in
    let later = paginate_loop fuel serial seq' (last_is_full now) left in
    let whole : now ++ left ≡ segs = take-append-drop 255 segs in
    let (cur', packets') = gather now cur packets in
    let folded : gather segs cur packets ≡ gather left cur' packets' =
      ap (λ xs. gather xs cur packets) (sym whole) ∙ gather-append now left cur packets in
    let joined : length (join segs) ≡ length (join now) + length (join left) =
      ap (λ xs. length (join xs)) (sym whole)
      ∙ ap length (join-append now left)
      ∙ length-append (join now) (join left) in
    let few' : length (gather left cur' packets').1 < max =
      subst (λ (g : Bytes × List Bytes). length g.1 < max) folded few in
    let segments =
      collect_segments-gather max now cur packets (All-take IsLacing 255 segs v)
        (omega (arith, small, joined)) (omega (arith, few', gather_grows left cur' packets')) in
    ap
      (λ k.
        collect_pages max k ((serialize page ++ serialize_pages later) ++ tail)
          (record { packets = packets; cur = cur; skips = false }))
      {y = suc (length later + n)} (omega arith)
    ∙ ap
        (λ b.
          collect_pages max (suc (length later + n)) b
            (record { packets = packets; cur = cur; skips = false }))
        (append_assoc (serialize page) (serialize_pages later) tail)
    ∙ collect_page max (length later + n) page (serialize_pages later ++ tail)
        (record { packets = packets; cur = cur; skips = false })
        (record { packets = packets'; cur = cur'; skips = false })
        (page_of-IsPage serial seq continued now hs hq (omega (arith, length-take 255 segs))
          (All-take IsLacing 255 segs v))
        (omega (arith, few, gather_grows segs cur packets))
        (unfold page_of in begins-continued packets cur continued c) (unfold page_of in segments)
    ∙ collect_pages-paginate_loop fuel max n serial seq' (last_is_full now) left tail cur' packets'
        (omega (arith, length-drop 255 segs)) (All-drop IsLacing 255 segs v) hs (omega arith)
        (rest_continued (take 254 ls) l cur packets (All-take IsLacing 255 segs v))
        (omega (arith, small, joined, length-gather now cur packets)) few'
    ∙ ap
        (λ (g : Bytes × List Bytes).
          collect_pages max n tail (record { packets = g.1; cur = g.0; skips = false }))
        (sym folded)

-- More packets may come, and those that are there stay.
abbrev pub Grows : List Bytes → List Bytes → Type 0
Grows before after = (more : List Bytes) × (after ≡ before ++ more)

Grows-refl : (ps : List Bytes) → Grows ps ps
Grows-refl ps = ([], sym (append-nil ps))

Grows-trans : (a b c : List Bytes) → Grows a b → Grows b c → Grows a c
Grows-trans a b c (more, e) (more', e') =
    (more ++ more', e' ∙ ap (λ t. t ++ more') e ∙ append_assoc a more more')

with_packet-Grows : (packets : List Bytes) (cur : Bytes) → Grows packets (with_packet packets cur)
with_packet-Grows packets cur = elim (Bool-cases (cur =ₛ [])) [
  | inl empty ↦ rw empty (Grows-refl packets)
  | inr filled ↦ rw filled (cur ∷ [], refl)
]

abbrev packets_of : Collected → List Bytes
packets_of (goes_on s) = s.packets
packets_of (enough packets) = packets
packets_of (invalid_segments packets) = packets

Grows-if :
    (b : Bool) (ps : List Bytes) (x y : Collected)
    → Grows ps (packets_of x)
    → Grows ps (packets_of y)
    → Grows ps (packets_of (if b then x else y))
Grows-if true ps x y h k = h
Grows-if false ps x y h k = k

collect_segments-Grows :
    (max : ℕ) (segs payload : Bytes) (s : Collecting)
    → Grows s.packets (packets_of (collect_segments max segs payload s))
unfolding collect_segments
collect_segments-Grows max [] payload s = Grows-refl s.packets
collect_segments-Grows max (seg ∷ segs) payload s =
    let ps = s.packets in
    let cur = s.cur ++ take seg payload in
    let rest = drop seg payload in
    let packets = with_packet ps cur in
    let one = with_packet-Grows ps cur in
    Grows-if (ltb (length payload) seg) ps _ _ (Grows-refl ps) (
      Grows-if s.skips ps _ _ (collect_segments-Grows max segs rest _) (
        Grows-if (ltb max_packet_size (length s.cur + seg)) ps _ _
          (collect_segments-Grows max segs rest _)
          (Grows-if (not (ltb seg 255)) ps _ _ (collect_segments-Grows max segs rest _) (
            Grows-if (leb max (length packets)) ps _ _ one
              (Grows-trans ps packets _ one (collect_segments-Grows max segs rest _))))))

begins_page_packets : (t : ℕ) (s : Collecting) → (begins_page t s).packets ≡ s.packets
begins_page_packets t s = ground arith

after_page-Grows :
    (ps : List Bytes) (next : Collecting → Packets) (c : Collected)
    → Grows ps (packets_of c)
    → ((s : Collecting) → Grows s.packets (next s).packets)
    → Grows ps (after_page next c).packets
unfolding after_page
after_page-Grows ps next (goes_on s) g each = Grows-trans ps s.packets _ g (each s)
after_page-Grows ps next (enough packets) g each = g
after_page-Grows ps next (invalid_segments packets) g each = g

pub collect_pages-Grows :
    (max n : ℕ) (r : Bytes) (s : Collecting) → Grows s.packets (collect_pages max n r s).packets
unfolding collect_pages
collect_pages-Grows max zero r s = Grows-refl s.packets
collect_pages-Grows max (suc n) r s = elim (Bool-cases (leb max (length s.packets))) [
  | inl full ↦ rw full (Grows-refl s.packets)
  | inr room ↦ rw room (elim (Result-cases (read_ogg_page_with_header r)) [
    | inr (e, failed) ↦ rw failed (Grows-refl s.packets)
    | inl ((page, rest), read) ↦
        let begun = begins_page page.header_type s in
        let c = collect_segments max page.segment_table page.payload begun in
        let grows : Grows s.packets (packets_of c) =
          subst (λ ps. Grows ps (packets_of c)) (begins_page_packets page.header_type s)
            (collect_segments-Grows max page.segment_table page.payload begun) in
        rw read (
          after_page-Grows s.packets (collect_pages max n rest) c grows
            (collect_pages-Grows max n rest))
  ])
]
