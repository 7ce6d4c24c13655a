-- ===== src/Ogg/PacketTrip.antt =====
-- Packets that go_backend/ogg_edit.go lays into pages come out of the pages again.
use musi_flac.Prelude.{
  ℕ, zero, suc, ◌+◌, ◌-◌, ◌%◌, ◌^◌, ◌≤◌, ◌<◌, ◌≡◌, refl, sym, ap, ◌∙◌, Bool, false, List, [], ◌∷◌,
  ◌++◌, arith, length, take, drop, All, All-append, All-take, All-drop, length-take, length-drop,
  take-append-drop, append_assoc, append-nil, subst, take_past, drop_past, Bytes, ok, ltb→leb,
  le→leb,
}
use native.Mathlib.Decide.{dec_lt}
use musi_flac.Ogg.Page.{OggEditPage}
use musi_flac.Ogg.Packets.{
  Lacing, lace_loop, lace, lace_all, last_is_full, page_of, paginate_loop, paginate_ogg_packets,
  assemble_pages, assemble_ogg_header_packets,
}
use musi_flac.Ogg.Fold.{
  IsLacing, fold, completed, EndsPacket, completed_pos, assemble_segments-more,
  assemble_segments-done, fold-append, completed-append, length-fold, EndsPacket-append,
  EndsPacket-drop,
}

-- What the segments of one packet are.
record IsLaced (packet : Bytes) (ls : List Lacing) : Type 0 where
  lacings : All IsLacing ls
  ends : EndsPacket ls
  one : completed ls ≡ 1
  joins :
      (cur : Bytes) (packets : List Bytes)
      → fold ls cur packets ≡ ([], packets ++ ((cur ++ packet) ∷ []))

lace_short :
    (rest : Bytes)
    → length rest < 255
    → IsLaced rest (record { value = length rest % 256; bytes = rest } ∷ [])
unfolding EndsPacket completed fold
lace_short rest h = record {
  lacings = (record { value_is = omega arith; value_in = omega arith }, tt);
  ends = omega arith;
  one = ground arith;
  joins = λ cur packets. ground arith;
}

lace_long :
    (rest : Bytes) (ls : List Lacing)
    → 255 ≤ length rest
    → IsLaced (drop 255 rest) ls
    → IsLaced rest (record { value = 255; bytes = take 255 rest } ∷ ls)
unfolding completed fold
lace_long rest ls h v = record {
  lacings = (
    record { value_is = omega (arith, length-take 255 rest); value_in = omega arith },
    v.lacings,
  );
  ends = EndsPacket-append (record { value = 255; bytes = take 255 rest } ∷ []) ls v.ends;
  one = omega (arith, v.one);
  joins = λ cur packets.
      v.joins (cur ++ take 255 rest) packets
      ∙ ap (λ p. ([], packets ++ (p ∷ [])))
          (append_assoc cur (take 255 rest) (drop 255 rest)
            ∙ ap (λ t. cur ++ t) (take-append-drop 255 rest));
}

lace_loop-IsLaced :
    (fuel : ℕ) (rest : Bytes) → length rest < fuel → IsLaced rest (lace_loop fuel rest)
unfolding lace_loop
lace_loop-IsLaced zero rest h = absurd (omega arith)
lace_loop-IsLaced (suc fuel) rest h = elim (dec_lt (length rest) 255) [
  | yes short ↦ rw (ltb→leb (length rest) 255 short) (lace_short rest short)
  | no long ↦ rw (le→leb 255 (length rest) (omega arith)) (
      lace_long rest (lace_loop fuel (drop 255 rest)) (omega arith)
        (lace_loop-IsLaced fuel (drop 255 rest) (omega (arith, length-drop 255 rest))))
]

lace-IsLaced : (packet : Bytes) → IsLaced packet (lace packet)
unfolding lace
lace-IsLaced packet = lace_loop-IsLaced (suc (length packet)) packet (omega arith)

-- What the segments of some packets are.
record AreLaced (ps : List Bytes) (ls : List Lacing) : Type 0 where
  lacings : All IsLacing ls
  count : completed ls ≡ length ps
  joins : (packets : List Bytes) → fold ls [] packets ≡ ([], packets ++ ps)

lace_all-AreLaced : (ps : List Bytes) → AreLaced ps (lace_all ps)
unfolding lace_all
lace_all-AreLaced [] =
    unfold completed fold in record { lacings = tt; count = refl; joins = λ packets. rw append-nil }
lace_all-AreLaced (p ∷ ps) =
    let one = lace-IsLaced p in
    let later = lace_all-AreLaced ps in
    record {
      lacings = All-append IsLacing (lace p) (lace_all ps) one.lacings later.lacings;
      count = omega (arith, completed-append (lace p) (lace_all ps), one.one, later.count);
      joins = λ packets.
          fold-append (lace p) (lace_all ps) [] packets
          ∙ rw (one.joins [] packets) (later.joins (packets ++ (p ∷ [])) ∙ rw append_assoc);
    }

pub lace_all-lacings : (ps : List Bytes) → All IsLacing (lace_all ps)
lace_all-lacings ps = (lace_all-AreLaced ps).lacings

lace_all-EndsPacket : (ps : List Bytes) → 0 < length ps → EndsPacket (lace_all ps)
unfolding lace_all
lace_all-EndsPacket [] h = absurd (omega arith)
lace_all-EndsPacket (p ∷ []) h = rw append-nil ((lace-IsLaced p).ends)
lace_all-EndsPacket (p ∷ q ∷ ps) h =
    EndsPacket-append (lace p) (lace_all (q ∷ ps)) (lace_all-EndsPacket (q ∷ ps) (omega arith))

-- A page that is not the last of the packets wanted.
assemble_pages-more :
    (count : ℕ) (serial seq : ℕ) (continued : Bool) (ls : List Lacing) (ps : List OggEditPage)
    (idx : ℕ) (cur : Bytes) (packets : List Bytes)
    → All IsLacing ls
    → length packets + completed ls < count
    → assemble_pages count (page_of serial seq continued ls ∷ ps) idx cur packets
      ≡ assemble_pages count ps (idx + 1) (fold ls cur packets).0 (fold ls cur packets).1
unfolding assemble_pages page_of
assemble_pages-more count serial seq continued ls ps idx cur packets v h =
    rw (assemble_segments-more count ls cur packets v h, assemble_pages)

assemble_pages-done :
    (count : ℕ) (serial seq : ℕ) (continued : Bool) (ls : List Lacing) (ps : List OggEditPage)
    (idx : ℕ) (cur : Bytes) (packets : List Bytes)
    → All IsLacing ls
    → EndsPacket ls
    → length packets + completed ls ≡ count
    → assemble_pages count (page_of serial seq continued ls ∷ ps) idx cur packets
      ≡ ok ((fold ls cur packets).1, idx)
unfolding assemble_pages page_of
assemble_pages-done count serial seq continued ls ps idx cur packets v e h =
    rw (assemble_segments-done count ls cur packets v e h, assemble_pages)

paginate_loop-nil :
    (fuel serial seq : ℕ) (continued : Bool) → paginate_loop fuel serial seq continued [] ≡ []
unfolding paginate_loop
paginate_loop-nil zero serial seq continued = refl
paginate_loop-nil (suc fuel) serial seq continued = refl

-- The pages of some segments give the packets that these complete, with the number of the last page.
assemble_pages-paginate_loop :
    (fuel count serial seq : ℕ) (continued : Bool) (ls : List Lacing) (tail : List OggEditPage)
    (idx : ℕ) (cur : Bytes) (packets : List Bytes)
    → length ls ≤ fuel
    → All IsLacing ls
    → EndsPacket ls
    → length packets + completed ls ≡ count
    → assemble_pages count (paginate_loop fuel serial seq continued ls ++ tail) idx cur packets
      ≡ ok ((fold ls cur packets).1, idx + length (paginate_loop fuel serial seq continued ls) - 1)
unfolding paginate_loop
assemble_pages-paginate_loop fuel count serial seq continued [] tail idx cur packets h v e n =
    absurd (unfold EndsPacket in e)
assemble_pages-paginate_loop zero count serial seq continued (l ∷ ls) tail idx cur packets h v e n =
    absurd (omega arith)
assemble_pages-paginate_loop (suc fuel) count serial seq continued (l ∷ ls) tail idx cur packets h v
      e n =
    let segs = l ∷ ls in
    let now = take 255 segs in
    let left = drop 255 segs in
    let seq' = (seq + 1) % 2 ^ 32 in
    let whole : now ++ left ≡ segs = take-append-drop 255 segs in
    let folded = fold-append now left cur packets in
    elim (dec_lt 255 (length segs)) [
      | yes long ↦
          let ends = EndsPacket-drop 255 segs long e in
          let sum = completed-append now left in
          let few : length packets + completed now < count =
            omega (arith, sum, ap completed whole, completed_pos left ends) in
          let rest =
            assemble_pages-paginate_loop fuel count serial seq' (last_is_full now) left tail
              (idx + 1) (fold now cur packets).0 (fold now cur packets).1
              (omega (arith, length-drop 255 segs)) (All-drop IsLacing 255 segs v) ends
              (omega (arith, length-fold now cur packets, sum, ap completed whole)) in
          assemble_pages-more count serial seq continued now _ idx cur packets
            (All-take IsLacing 255 segs v) few
          ∙ rest
          ∙ ground (arith, folded, whole)
      | no short ↦
          let same : now ≡ segs = take_past 255 segs (omega arith) in
          let none : paginate_loop fuel serial seq' (last_is_full now) left ≡ [] =
            rw (drop_past 255 segs (omega arith)) (paginate_loop-nil fuel serial seq' _) in
          assemble_pages-done count serial seq continued now _ idx cur packets
            (All-take IsLacing 255 segs v) (subst EndsPacket (sym same) e)
            (ap (λ t. length packets + completed t) same ∙ n)
          ∙ ground (arith, same, none)
    ]

-- One packet or more, laid into pages, come out again from these pages, whatever pages follow, with
-- the number of the last of them.
pub assemble-paginate :
    (packets : List Bytes) (serial seq : ℕ) (tail : List OggEditPage)
    → 0 < length packets
    → assemble_ogg_header_packets (paginate_ogg_packets packets serial seq ++ tail) (length packets)
      ≡ ok (packets, length (paginate_ogg_packets packets serial seq) - 1)
unfolding assemble_ogg_header_packets paginate_ogg_packets
assemble-paginate packets serial seq tail some =
    let segs = lace_all packets in
    let laced = lace_all-AreLaced packets in
    assemble_pages-paginate_loop (length segs) (length packets) serial seq false segs tail 0 [] []
      (omega arith) laced.lacings (lace_all-EndsPacket packets some) (omega (arith, laced.count))
    ∙ ground (arith, laced.joins [])
