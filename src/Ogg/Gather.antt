-- ===== src/Ogg/Gather.antt =====
-- The packets that `collectOggPackets` of go_backend/audio_metadata_ogg.go takes from segments.
use musi_flac.Prelude.{
  ℕ, zero, suc, ◌+◌, ◌%◌, ◌≤◌, ◌<◌, ◌≡◌, refl, sym, ap, ◌∙◌, subst, inl, inr, true, false, List, [],
  ◌∷◌, ◌++◌, arith, leb, ltb, if◌then◌else◌, Bool-cases, length, take, drop, All, length-append,
  length-drop, take-append-drop, take-append_eq, drop-append_eq, append_assoc, append-nil, Bytes,
  ◌=ₛ◌, ltb→leb, le→leb,
}
use native.Mathlib.Decide.{dec_lt}
use musi_flac.Ogg.Packets.{Lacing, lace_loop, lace, lace_all, join, values, last_is_full}
use musi_flac.Ogg.Fold.{IsLacing}
use musi_flac.Ogg.Gathering.{goes_on, collect_segments, with_packet, max_packet_size}

-- The unfinished packet and the packets after some segments; an empty packet is left out.
unfoldable pub gather : List Lacing → Bytes → List Bytes → Bytes × List Bytes
gather [] cur packets = (cur, packets)
gather (l ∷ ls) cur packets =
    let ends = ltb l.value 255 in
    let cur' = cur ++ l.bytes in
    gather ls (if ends then [] else cur') (if ends then with_packet packets cur' else packets)

module _ (l : Lacing) (ls : List Lacing) (cur : Bytes) (packets : List Bytes) where
  gather_ends :
      ltb l.value 255 ≡ true
      → gather (l ∷ ls) cur packets ≡ gather ls [] (with_packet packets (cur ++ l.bytes))
  unfolding gather
  gather_ends e =
      ap
        (λ b.
          gather ls (if b then [] else cur ++ l.bytes)
            (if b then with_packet packets (cur ++ l.bytes) else packets))
        e

  gather_goes :
      ltb l.value 255 ≡ false → gather (l ∷ ls) cur packets ≡ gather ls (cur ++ l.bytes) packets
  unfolding gather
  gather_goes e =
      ap
        (λ b.
          gather ls (if b then [] else cur ++ l.bytes)
            (if b then with_packet packets (cur ++ l.bytes) else packets))
        e

pub gather-append :
    (xs ys : List Lacing) (cur : Bytes) (packets : List Bytes)
    → gather (xs ++ ys) cur packets
      ≡ (let (cur', packets') = gather xs cur packets in gather ys cur' packets')
unfolding gather
gather-append [] ys cur packets = refl
gather-append (l ∷ ls) ys cur packets = gather-append ls ys _ _

length-with_packet :
    (packets : List Bytes) (cur : Bytes) → length packets ≤ length (with_packet packets cur)
length-with_packet packets cur = ground (arith, length-append packets (cur ∷ []))

pub gather_grows :
    (ls : List Lacing) (cur : Bytes) (packets : List Bytes)
    → length packets ≤ length (gather ls cur packets).1
gather_grows [] cur packets = unfold gather in omega arith
gather_grows (l ∷ ls) cur packets = elim (Bool-cases (ltb l.value 255)) [
  | inl ends ↦ rw (gather_ends l ls cur packets ends) (
      omega (
        arith,
        gather_grows ls [] (with_packet packets (cur ++ l.bytes)),
        length-with_packet packets (cur ++ l.bytes),
      ))
  | inr goes ↦ rw (gather_goes l ls cur packets goes) (gather_grows ls (cur ++ l.bytes) packets)
]

-- What is unfinished is not longer than what there was.
pub length-gather :
    (ls : List Lacing) (cur : Bytes) (packets : List Bytes)
    → length (gather ls cur packets).0 ≤ length cur + length (join ls)
unfolding join
length-gather [] cur packets = unfold gather in omega arith
length-gather (l ∷ ls) cur packets = elim (Bool-cases (ltb l.value 255)) [
  | inl ends ↦ rw (gather_ends l ls cur packets ends) (
      omega (
        arith,
        length-gather ls [] (with_packet packets (cur ++ l.bytes)),
        length-append l.bytes (join ls),
      ))
  | inr goes ↦ rw (gather_goes l ls cur packets goes) (
      omega (
        arith,
        length-gather ls (cur ++ l.bytes) packets,
        length-append l.bytes (join ls),
        length-append cur l.bytes,
      ))
]

-- Nothing is unfinished where the last segment is not full.
pub gather-rest :
    (ls : List Lacing) (l : Lacing) (cur : Bytes) (packets : List Bytes)
    → All IsLacing (l ∷ ls)
    → last_is_full (l ∷ ls) ≡ false
    → (gather (l ∷ ls) cur packets).0 ≡ []
unfolding gather last_is_full
gather-rest [] l cur packets v full = ground (arith, v.0.value_in, full)
gather-rest (l' ∷ ls) l cur packets v full = gather-rest ls l' _ _ v.1 full

-- The loop over the segments of a page, where no packet is too long and there are not yet enough.
pub collect_segments-gather :
    (max : ℕ) (ls : List Lacing) (cur : Bytes) (packets : List Bytes)
    → All IsLacing ls
    → length cur + length (join ls) ≤ max_packet_size
    → length (gather ls cur packets).1 < max
    → collect_segments max
        (values ls)
        (join ls)
        (record { packets = packets; cur = cur; skips = false })
      ≡ goes_on (record {
        packets = (gather ls cur packets).1;
        cur = (gather ls cur packets).0;
        skips = false;
      })
unfolding collect_segments values join
collect_segments-gather max [] cur packets v small few = unfold gather in refl
collect_segments-gather max (l ∷ ls) cur packets v small few =
    let cut = drop-append_eq l.value l.bytes (join ls) v.0.value_is in
    let kept = take-append_eq l.value l.bytes (join ls) v.0.value_is in
    let long = length-append l.bytes (join ls) in
    let there : ltb (length (l.bytes ++ join ls)) l.value ≡ false =
      ground (arith, long, v.0.value_is) in
    let fits : ltb max_packet_size (length cur + l.value) ≡ false =
      ground (arith, long, v.0.value_is, small) in
    rw cut (
      rw kept (
        rw there (
          rw fits (elim (Bool-cases (ltb l.value 255)) [
            | inl ends ↦
                let few' =
                  subst (λ (g : Bytes × List Bytes). length g.1 < max)
                    (gather_ends l ls cur packets ends) few in
                let enough : leb max (length (with_packet packets (cur ++ l.bytes))) ≡ false =
                  ground (arith, gather_grows ls [] (with_packet packets (cur ++ l.bytes)), few') in
                rw ends (
                  rw enough (
                    rw (gather_ends l ls cur packets ends) (
                      collect_segments-gather max ls [] (with_packet packets (cur ++ l.bytes)) v.1
                        (omega (arith, small, long)) few')))
            | inr goes ↦ rw goes (
                rw (gather_goes l ls cur packets goes) (
                  collect_segments-gather max ls (cur ++ l.bytes) packets v.1
                    (omega (arith, small, long, length-append cur l.bytes))
                    (subst (λ (g : Bytes × List Bytes). length g.1 < max)
                      (gather_goes l ls cur packets goes) few)))
          ]))))

with_packet_filled :
    (packets : List Bytes) (cur : Bytes)
    → 0 < length cur
    → with_packet packets cur ≡ packets ++ (cur ∷ [])
unfolding ◌=ₛ◌
with_packet_filled packets [] h = absurd (omega arith)
with_packet_filled packets (x ∷ cur) h = refl

gather-lace_loop :
    (fuel : ℕ) (rest cur : Bytes) (packets : List Bytes)
    → length rest < fuel
    → 0 < length (cur ++ rest)
    → gather (lace_loop fuel rest) cur packets ≡ ([], packets ++ ((cur ++ rest) ∷ []))
unfolding lace_loop gather
gather-lace_loop zero rest cur packets h filled = absurd (omega arith)
gather-lace_loop (suc fuel) rest cur packets h filled = elim (dec_lt (length rest) 255) [
  | yes short ↦
      let ends : ltb (length rest % 256) 255 ≡ true = ground (arith, short) in
      rw (ltb→leb (length rest) 255 short) (
        rw ends
          (ap (λ (ps : List Bytes). ([], ps)) (with_packet_filled packets (cur ++ rest) filled)))
  | no long ↦
      let whole : (cur ++ take 255 rest) ++ drop 255 rest ≡ cur ++ rest =
        append_assoc cur (take 255 rest) (drop 255 rest)
        ∙ ap (λ t. cur ++ t) (take-append-drop 255 rest) in
      rw (le→leb 255 (length rest) (omega arith)) (
        gather-lace_loop fuel (drop 255 rest) (cur ++ take 255 rest) packets
          (omega (arith, length-drop 255 rest)) (omega (arith, ap length whole, filled))
        ∙ ap (λ p. ([], packets ++ (p ∷ []))) whole)
]

-- Packets that are not empty are all taken.
pub gather-lace_all :
    (ps packets : List Bytes)
    → All (λ p. 0 < length p) ps
    → gather (lace_all ps) [] packets ≡ ([], packets ++ ps)
unfolding lace_all lace
gather-lace_all [] packets h =
    unfold gather in ap (λ (ps : List Bytes). ([], ps)) (sym (append-nil packets))
gather-lace_all (p ∷ ps) packets h =
    gather-append (lace p) (lace_all ps) [] packets
    ∙ ap (λ (g : Bytes × List Bytes). gather (lace_all ps) g.0 g.1)
        (gather-lace_loop (suc (length p)) p [] packets (omega arith) h.0)
    ∙ gather-lace_all ps (packets ++ (p ∷ [])) h.1
    ∙ ap (λ (qs : List Bytes). ([], qs)) (append_assoc packets (p ∷ []) ps)
