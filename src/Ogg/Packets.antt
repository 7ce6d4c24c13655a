-- ===== src/Ogg/Packets.antt =====
-- `paginateOggPackets` and `assembleOggHeaderPackets` of go_backend/ogg_edit.go.
use musi_flac.Prelude.{
  ℕ, zero, suc, ◌+◌, ◌%◌, ◌^◌, Bool, true, false, List, [], ◌∷◌, ◌++◌, ltb, leb, ◌==◌,
  if◌then◌else◌, length, take, drop, Bytes, Result, ok, err,
}
use musi_flac.Ogg.Page.{OggEditPage, OggError, header_shares_page, header_incomplete}

-- `type lacing struct`
pub record Lacing : Type 0 where
  pub value : ℕ
  pub bytes : Bytes

-- The inner loop, over one packet: each round but the last takes 255 bytes.
unfoldable pub lace_loop : ℕ → Bytes → List Lacing
lace_loop zero rest = []
lace_loop (suc fuel) rest =
    let more = lace_loop fuel (drop 255 rest) in
    if leb 255 (length rest)
    then record { value = 255; bytes = take 255 rest } ∷ more
    else record { value = length rest % 256; bytes = rest } ∷ []

unfoldable pub lace : Bytes → List Lacing
lace packet = lace_loop (suc (length packet)) packet

unfoldable pub lace_all : List Bytes → List Lacing
lace_all [] = []
lace_all (p ∷ ps) = lace p ++ lace_all ps

unfoldable pub join : List Lacing → Bytes
join [] = []
join (l ∷ ls) = l.bytes ++ join ls

unfoldable pub values : List Lacing → Bytes
values [] = []
values (l ∷ ls) = l.value ∷ values ls

-- Whether the last of some segments continues in what follows: `segs[start-1].value == 255`.
unfoldable pub last_is_full : List Lacing → Bool
last_is_full [] = false
last_is_full (l ∷ []) = l.value == 255
last_is_full (l ∷ l' ∷ ls) = last_is_full (l' ∷ ls)

-- One page of the outer loop; `continued` is `start > 0 && segs[start-1].value == 255`.
unfoldable pub page_of : ℕ → ℕ → Bool → List Lacing → OggEditPage
page_of serial seq continued segs = record {
  header_type = if continued then 1 else 0;
  granule = 0;
  serial = serial;
  seq = seq;
  segments = values segs;
  payload = join segs;
}

-- The outer loop: `segs` are the segments from `start` on.
unfoldable pub paginate_loop : ℕ → ℕ → ℕ → Bool → List Lacing → List OggEditPage
paginate_loop zero serial seq continued segs = []
paginate_loop (suc fuel) serial seq continued [] = []
paginate_loop (suc fuel) serial seq continued (l ∷ ls) =
    let now = take 255 (l ∷ ls) in
    page_of serial seq continued now
    ∷ paginate_loop fuel serial ((seq + 1) % 2 ^ 32) (last_is_full now) (drop 255 (l ∷ ls))

-- A round takes a segment at least, so as many rounds as segments are enough.
unfoldable pub paginate_ogg_packets : List Bytes → ℕ → ℕ → List OggEditPage
paginate_ogg_packets packets serial first_seq =
    let segs = lace_all packets in paginate_loop (length segs) serial first_seq false segs

-- What the loop over the segments of one page comes to.
pub data Progress : Type 0 where
  more : Bytes → List Bytes → Progress
  done : List Bytes → Progress
  shares_page : Progress

unfoldable pub nothing_left : Bytes → Bool
nothing_left [] = true
nothing_left (s ∷ ss) = false

-- `payload` is `page.data[offset:]`. Of the two ways on, each ends in the one recursive call.
unfoldable pub assemble_segments : ℕ → Bytes → Bytes → Bytes → List Bytes → Progress
assemble_segments count [] payload cur packets = more cur packets
assemble_segments count (seg ∷ segs) payload cur packets =
    let cur' = cur ++ take seg payload in
    let ends = ltb seg 255 in
    let packets' = if ends then packets ++ (cur' ∷ []) else packets in
    let rest =
      assemble_segments count segs (drop seg payload) (if ends then [] else cur') packets' in
    if ends
    then (if length packets' == count
        then (if nothing_left segs then done packets' else shares_page)
        else rest)
    else rest

unfoldable pub assemble_pages :
    ℕ → List OggEditPage → ℕ → Bytes → List Bytes → Result OggError (List Bytes × ℕ)
assemble_pages count [] idx cur packets = err header_incomplete
assemble_pages count (p ∷ ps) idx cur packets =
    elim (assemble_segments count p.segments p.payload cur packets) [
      | more cur' packets' ↦ assemble_pages count ps (idx + 1) cur' packets'
      | done packets' ↦ ok (packets', idx)
      | shares_page ↦ err header_shares_page
    ]

unfoldable pub assemble_ogg_header_packets : List OggEditPage → ℕ → Result OggError (List Bytes × ℕ)
assemble_ogg_header_packets pages count = assemble_pages count pages 0 [] []
