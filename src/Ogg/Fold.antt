-- ===== src/Ogg/Fold.antt =====
-- The segments of a stream as one list, whatever the pages: the packets that they complete, and the
-- loop of `assembleOggHeaderPackets` of go_backend/ogg_edit.go over the segments of one page.
use musi_flac.Prelude.{
  ℕ, zero, suc, ◌+◌, ◌<◌, ◌≡◌, refl, ◌∙◌, inl, inr, List, [], ◌∷◌, ◌++◌, arith, ltb, ◌==◌,
  if◌then◌else◌, Bool-cases, length, drop, All, length-append, take-append_eq, drop-append_eq,
  Bytes, IsByte,
}
use musi_flac.Ogg.Packets.{
  Lacing, values, join, more, done, shares_page, nothing_left, assemble_segments,
}

pub record IsLacing (l : Lacing) : Type 0 where
  pub value_is : l.value ≡ length l.bytes
  pub value_in : IsByte l.value

-- The unfinished packet and the packets after some segments.
unfoldable pub fold : List Lacing → Bytes → List Bytes → Bytes × List Bytes
fold [] cur packets = (cur, packets)
fold (l ∷ ls) cur packets =
    let ends = ltb l.value 255 in
    let cur' = cur ++ l.bytes in
    fold ls (if ends then [] else cur') (if ends then packets ++ (cur' ∷ []) else packets)

-- How many packets some segments complete.
unfoldable pub completed : List Lacing → ℕ
completed [] = 0
completed (l ∷ ls) = (if ltb l.value 255 then 1 else 0) + completed ls

-- The last segment completes a packet.
unfoldable pub EndsPacket : List Lacing → Type 0
EndsPacket [] = ⊥
EndsPacket (l ∷ []) = l.value < 255
EndsPacket (l ∷ l' ∷ ls) = EndsPacket (l' ∷ ls)

pub completed_pos : (ls : List Lacing) → EndsPacket ls → 0 < completed ls
unfolding completed EndsPacket
completed_pos [] h = absurd h
completed_pos (l ∷ []) h = ground arith
completed_pos (l ∷ l' ∷ ls) h = omega (arith, completed_pos (l' ∷ ls) h)

-- One round of the loop, on a lacing whose length fits.
round :
    (count : ℕ) (l : Lacing) (ls : List Lacing) (cur : Bytes) (packets : List Bytes)
    → IsLacing l
    → assemble_segments count (values (l ∷ ls)) (join (l ∷ ls)) cur packets ≡ (
        let ends = ltb l.value 255 in
        let cur' = cur ++ l.bytes in
        let packets' = if ends then packets ++ (cur' ∷ []) else packets in
        let rest =
          assemble_segments count (values ls) (join ls) (if ends then [] else cur') packets' in
        if ends
        then (if length packets' == count
            then (if nothing_left (values ls) then done packets' else shares_page)
            else rest)
        else rest)
unfolding assemble_segments values join
round count l ls cur packets v = rw (
  take-append_eq l.value l.bytes (join ls) v.value_is,
  drop-append_eq l.value l.bytes (join ls) v.value_is,
)

-- Segments that complete fewer packets than are wanted leave the loop with the packets so far.
pub assemble_segments-more :
    (count : ℕ) (ls : List Lacing) (cur : Bytes) (packets : List Bytes)
    → All IsLacing ls
    → length packets + completed ls < count
    → assemble_segments count (values ls) (join ls) cur packets
      ≡ (let (cur', packets') = fold ls cur packets in more cur' packets')
unfolding fold completed
assemble_segments-more count [] cur packets v h = unfold assemble_segments values in refl
assemble_segments-more count (l ∷ ls) cur packets v h =
    let cur' = cur ++ l.bytes in
    round count l ls cur packets v.0 ∙ elim (Bool-cases (ltb l.value 255)) [
      | inl ends ↦ ground (
        arith,
        length-append packets (cur' ∷ []),
        assemble_segments-more count ls [] (packets ++ (cur' ∷ [])) v.1,
      )
      | inr goes ↦ ground (arith, assemble_segments-more count ls cur' packets v.1)
    ]

-- Segments that complete the last of the packets wanted by their own last segment end the loop.
pub assemble_segments-done :
    (count : ℕ) (ls : List Lacing) (cur : Bytes) (packets : List Bytes)
    → All IsLacing ls
    → EndsPacket ls
    → length packets + completed ls ≡ count
    → assemble_segments count (values ls) (join ls) cur packets ≡ done (fold ls cur packets).1
unfolding fold completed EndsPacket
assemble_segments-done count [] cur packets v e h = absurd e
assemble_segments-done count (l ∷ []) cur packets v e h =
    round count l [] cur packets v.0
    ∙ unfold values nothing_left in ground (arith, length-append packets ((cur ++ l.bytes) ∷ []))
assemble_segments-done count (l ∷ l' ∷ ls) cur packets v e h =
    let cur' = cur ++ l.bytes in
    let rest = l' ∷ ls in
    round count l rest cur packets v.0 ∙ elim (Bool-cases (ltb l.value 255)) [
      | inl ends ↦ ground (
        arith,
        length-append packets (cur' ∷ []),
        completed_pos rest e,
        assemble_segments-done count (l' ∷ ls) [] (packets ++ (cur' ∷ [])) v.1 e,
      )
      | inr goes ↦ ground (arith, assemble_segments-done count (l' ∷ ls) cur' packets v.1 e)
    ]

pub fold-append :
    (xs ys : List Lacing) (cur : Bytes) (packets : List Bytes)
    → fold (xs ++ ys) cur packets
      ≡ (let (cur', packets') = fold xs cur packets in fold ys cur' packets')
unfolding fold
fold-append [] ys cur packets = refl
fold-append (l ∷ ls) ys cur packets = fold-append ls ys _ _

pub completed-append : (xs ys : List Lacing) → completed (xs ++ ys) ≡ completed xs + completed ys
unfolding completed
completed-append [] ys = omega arith
completed-append (l ∷ ls) ys = omega (arith, completed-append ls ys)

pub length-fold :
    (ls : List Lacing) (cur : Bytes) (packets : List Bytes)
    → length (fold ls cur packets).1 ≡ length packets + completed ls
unfolding fold completed
length-fold [] cur packets = omega arith
length-fold (l ∷ ls) cur packets =
    let cur' = cur ++ l.bytes in
    elim (Bool-cases (ltb l.value 255)) [
      | inl ends ↦
          ground
            (arith, length-append packets (cur' ∷ []), length-fold ls [] (packets ++ (cur' ∷ [])))
      | inr goes ↦ ground (arith, length-fold ls cur' packets)
    ]

pub EndsPacket-append : (xs ys : List Lacing) → EndsPacket ys → EndsPacket (xs ++ ys)
unfolding EndsPacket
EndsPacket-append [] ys h = h
EndsPacket-append (x ∷ []) [] h = absurd h
EndsPacket-append (x ∷ []) (y ∷ ys) h = h
EndsPacket-append (x ∷ x' ∷ xs) ys h = EndsPacket-append (x' ∷ xs) ys h

-- What is left behind some segments, if anything is, ends as the whole does.
pub EndsPacket-drop :
    (n : ℕ) (ls : List Lacing) → n < length ls → EndsPacket ls → EndsPacket (drop n ls)
unfolding EndsPacket
EndsPacket-drop zero ls h e = e
EndsPacket-drop (suc n) [] h e = absurd e
EndsPacket-drop (suc n) (l ∷ []) h e = absurd (omega arith)
EndsPacket-drop (suc n) (l ∷ l' ∷ ls) h e = EndsPacket-drop n (l' ∷ ls) (omega arith) e
