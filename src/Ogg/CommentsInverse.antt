-- ===== src/Ogg/CommentsInverse.antt =====
-- The other direction for the comment block of go_backend/ogg_edit.go: what is parsed is what would
-- be written, in front of bytes that the parser does not look at.
use musi_flac.Prelude.{
  ℕ, zero, suc, ◌+◌, ◌%◌, ◌^◌, ◌≤◌, ◌≡◌, ap, ◌∙◌, inl, inr, List, [], ◌∷◌, ◌++◌, arith, length,
  take, drop, All, All-drop, length-take, length-drop, take-append-drop, append_assoc, Bytes,
  IsByte, IsU32, put_le, le, ok, Result-cases,
}
use musi_flac.Ogg.Comments.{
  uint32_at, parse_comments, parse_vorbis_comment_block, sized, serialize_comments,
  serialize_vorbis_comment_block,
}

uint32_at-IsU32 : (s : Bytes) → All IsByte s → IsU32 (uint32_at s)
unfolding uint32_at le
uint32_at-IsU32 [] h = omega arith
uint32_at-IsU32 (a ∷ []) h = omega arith
uint32_at-IsU32 (a ∷ b ∷ []) h = omega arith
uint32_at-IsU32 (a ∷ b ∷ c ∷ []) h = omega arith
uint32_at-IsU32 (a ∷ b ∷ c ∷ d ∷ s) h = omega arith

-- Four bytes are those of the number that they hold.
put-uint32_at : (s : Bytes) → All IsByte s → 4 ≤ length s → put_le 4 (uint32_at s) ++ drop 4 s ≡ s
unfolding uint32_at put_le le
put-uint32_at (a ∷ b ∷ c ∷ d ∷ s) h n = ground arith
put-uint32_at _ h n = absurd (omega arith)

-- A sized string in front, from its two parts.
sized-take :
    (s : Bytes)
    → All IsByte s
    → 4 ≤ length s
    → uint32_at s ≤ length (drop 4 s)
    → sized (take (uint32_at s) (drop 4 s)) ++ drop (uint32_at s) (drop 4 s) ≡ s
unfolding sized
sized-take s h n fits =
    let l = uint32_at s in
    let e : length (take l (drop 4 s)) % 2 ^ 32 ≡ l =
      omega (arith, length-take l (drop 4 s), uint32_at-IsU32 s h) in
    rw e (
      append_assoc (put_le 4 l) (take l (drop 4 s)) (drop l (drop 4 s))
      ∙ ap (λ t. put_le 4 l ++ t) (take-append-drop l (drop 4 s))
      ∙ put-uint32_at s h n)

-- One round of the parser, run backwards.
parse_comments-suc :
    (count : ℕ) (s : Bytes) (cs : List Bytes)
    → parse_comments (suc count) s ≡ ok cs
    → (4 ≤ length s)
      × (uint32_at s ≤ length (drop 4 s))
      × (rest : List Bytes) × (parse_comments count (drop (uint32_at s) (drop 4 s)) ≡ ok rest)
      × (cs ≡ take (uint32_at s) (drop 4 s) ∷ rest)
unfolding parse_comments
parse_comments-suc count s cs e =
    elim (Result-cases (parse_comments count (drop (uint32_at s) (drop 4 s)))) [
      | inl (rest, r) ↦ (ground arith, ground arith, rest, r, ground arith)
      | inr (x, r) ↦ absurd (ground arith)
    ]

parse_comments-inverse :
    (count : ℕ) (s : Bytes) (cs : List Bytes)
    → All IsByte s
    → parse_comments count s ≡ ok cs
    → (rest : Bytes) × (s ≡ serialize_comments cs ++ rest) × (length cs ≡ count)
unfolding serialize_comments
parse_comments-inverse zero s cs h e = unfold parse_comments in (s, ground arith, ground arith)
parse_comments-inverse (suc count) s cs h e =
    let (n, fits, cs', e', split) = parse_comments-suc count s cs e in
    let l = uint32_at s in
    let (rest, s-is, len) =
      parse_comments-inverse count (drop l (drop 4 s)) cs'
        (All-drop IsByte l (drop 4 s) (All-drop IsByte 4 s h)) e' in
    let c = take l (drop 4 s) in
    (
      rest,
      ground (
        arith,
        split,
        s-is,
        sized-take s h n fits,
        append_assoc (sized c) (serialize_comments cs') rest,
      ),
      ground arith,
    )

-- The block parser, run backwards.
parse_block-parts :
    (block vendor : Bytes) (cs : List Bytes)
    → parse_vorbis_comment_block block ≡ ok (vendor, cs)
    → let l = uint32_at block in
      let rest = drop l (drop 4 block) in
      (4 ≤ length block)
      × (l + 4 ≤ length (drop 4 block))
      × (vendor ≡ take l (drop 4 block))
      × (parse_comments (uint32_at rest) (drop 4 rest) ≡ ok cs)
unfolding parse_vorbis_comment_block
parse_block-parts block vendor cs e =
    let rest = drop (uint32_at block) (drop 4 block) in
    elim (Result-cases (parse_comments (uint32_at rest) (drop 4 rest))) [
      | inl (cs', r) ↦ (ground arith, ground arith, ground arith, ground arith)
      | inr (x, r) ↦ absurd (ground arith)
    ]

-- A block of bytes that parses is the block that is written for its vendor string and comments,
-- followed by bytes that the parser does not look at.
pub parse_vorbis_comment_block-inverse :
    (block vendor : Bytes) (comments : List Bytes)
    → All IsByte block
    → parse_vorbis_comment_block block ≡ ok (vendor, comments)
    → (rest : Bytes) × (block ≡ serialize_vorbis_comment_block vendor comments ++ rest)
unfolding serialize_vorbis_comment_block
parse_vorbis_comment_block-inverse block vendor comments h e =
    let (n, fits, vendor-is, parsed) = parse_block-parts block vendor comments e in
    let l = uint32_at block in
    let tail = drop l (drop 4 block) in
    let bytes = All-drop IsByte l (drop 4 block) (All-drop IsByte 4 block h) in
    let (rest, tail-is, len) =
      parse_comments-inverse (uint32_at tail) (drop 4 tail) comments (All-drop IsByte 4 tail bytes)
        parsed in
    let counted : length comments % 2 ^ 32 ≡ uint32_at tail =
      omega (arith, len, uint32_at-IsU32 tail bytes) in
    let enough : 4 ≤ length tail = omega (arith, length-drop l (drop 4 block)) in
    (
      rest,
      ground (
        arith,
        counted,
        vendor-is,
        tail-is,
        sized-take block h n (omega arith),
        put-uint32_at tail bytes enough,
        append_assoc (sized vendor) (put_le 4 (uint32_at tail) ++ serialize_comments comments) rest,
        append_assoc (put_le 4 (uint32_at tail)) (serialize_comments comments) rest,
      ),
    )
