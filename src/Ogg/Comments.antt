-- ===== src/Ogg/Comments.antt =====
-- `parseVorbisCommentBlock` and `serializeVorbisCommentBlock` of go_backend/ogg_edit.go.
-- `int` has 64 bits, so an `int(uint32)` is not negative. The slice `data` with the position `pos`
-- is the list `data[pos:]`.
use musi_flac.Prelude.{
  ℕ, zero, suc, ◌+◌, ◌/◌, ◌%◌, ◌^◌, ◌≡◌, refl, sym, ap, ◌∙◌, List, [], ◌∷◌, ◌++◌, arith, leb,
  length, take, drop, All, length-append, take-append_eq, drop-append_eq, append_assoc, Bytes,
  IsU32, put_le, le, le-put_le_4, Result, ok, ◌>>=◌, ◌>>◌, guard,
}
use musi_flac.Ogg.Page.{
  OggError, comment_block_too_short, bad_vendor_length, truncated_comment_list, truncated_comment,
}

-- A little-endian uint32 in front, and what follows it.
unfoldable pub uint32_at : Bytes → ℕ
uint32_at rest = le (take 4 rest)

-- The loop over the comments, with `count` of them to go.
unfoldable pub parse_comments : ℕ → Bytes → Result OggError (List Bytes)
unfolding uint32_at
parse_comments zero rest = ok []
parse_comments (suc count) rest = do
  guard (leb 4 (length rest)) truncated_comment_list
  let l = uint32_at rest
  guard (leb l (length (drop 4 rest))) truncated_comment
  comments ← parse_comments count (drop l (drop 4 rest))
  ok (take l (drop 4 rest) ∷ comments)

unfoldable pub parse_vorbis_comment_block : Bytes → Result OggError (Bytes × List Bytes)
unfolding uint32_at
parse_vorbis_comment_block block = do
  guard (leb 4 (length block)) comment_block_too_short
  let vendor_len = uint32_at block
  guard (leb (vendor_len + 4) (length (drop 4 block))) bad_vendor_length
  let rest = drop vendor_len (drop 4 block)
  comments ← parse_comments (uint32_at rest) (drop 4 rest)
  ok (take vendor_len (drop 4 block), comments)

-- The four bytes of `uint32(len(s))`, and the string.
unfoldable pub sized : Bytes → Bytes
sized s = put_le 4 (length s % 2 ^ 32) ++ s

unfoldable pub serialize_comments : List Bytes → Bytes
serialize_comments [] = []
serialize_comments (c ∷ cs) = sized c ++ serialize_comments cs

unfoldable pub serialize_vorbis_comment_block : Bytes → List Bytes → Bytes
serialize_vorbis_comment_block vendor comments =
    sized vendor ++ (put_le 4 (length comments % 2 ^ 32) ++ serialize_comments comments)

abbrev pub FitsU32 : Bytes → Type 0
FitsU32 s = IsU32 (length s)

pub length-put_le : (n v : ℕ) → length (put_le n v) ≡ n
unfolding put_le
length-put_le zero v = refl
length-put_le (suc n) v = ap suc (length-put_le n (v / 256))

-- The number in front of anything.
module _ (v : ℕ) (rest : Bytes) (h : IsU32 v) where
  pub uint32-put : uint32_at (put_le 4 (v % 2 ^ 32) ++ rest) ≡ v
  unfolding uint32_at
  uint32-put =
      rw (take-append_eq 4 (put_le 4 (v % 2 ^ 32)) rest (sym (length-put_le 4 _)))
        (le-put_le_4 (v % 2 ^ 32) (omega arith) ∙ omega arith)

  pub drop-put : drop 4 (put_le 4 (v % 2 ^ 32) ++ rest) ≡ rest
  drop-put = drop-append_eq 4 (put_le 4 (v % 2 ^ 32)) rest (sym (length-put_le 4 _))

  pub length-put : length (put_le 4 (v % 2 ^ 32) ++ rest) ≡ 4 + length rest
  length-put =
      length-append (put_le 4 (v % 2 ^ 32)) rest ∙ ap (λ n. n + length rest) (length-put_le 4 _)

-- One comment in front of the rest is read back.
parse_comments-sized :
    (count : ℕ) (c rest : Bytes) {cs : List Bytes}
    → FitsU32 c
    → parse_comments count rest ≡ ok cs
    → parse_comments (suc count) (sized c ++ rest) ≡ ok (c ∷ cs)
unfolding parse_comments sized
parse_comments-sized count c rest h e = ground (
  arith,
  append_assoc (put_le 4 (length c % 2 ^ 32)) c rest,
  uint32-put (length c) (c ++ rest) h,
  drop-put (length c) (c ++ rest) h,
  length-put (length c) (c ++ rest) h,
  length-append c rest,
  take-append_eq (length c) c rest refl,
  drop-append_eq (length c) c rest refl,
)

parse-serialize_comments :
    (cs : List Bytes) (rest : Bytes)
    → All FitsU32 cs
    → parse_comments (length cs) (serialize_comments cs ++ rest) ≡ ok cs
unfolding serialize_comments
parse-serialize_comments [] rest h = unfold parse_comments in refl
parse-serialize_comments (c ∷ cs) rest h =
    rw (append_assoc (sized c) (serialize_comments cs) rest) (
      parse_comments-sized (length cs) c (serialize_comments cs ++ rest) h.0
        (parse-serialize_comments cs rest h.1))

-- A vendor string and comments, each shorter than 2 ^ 32 bytes and fewer than 2 ^ 32, are read back
-- from the block that is written for them, whatever bytes follow the block.
pub parse-serialize_vorbis_comment_block :
    (vendor : Bytes) (comments : List Bytes) (rest : Bytes)
    → FitsU32 vendor
    → IsU32 (length comments)
    → All FitsU32 comments
    → parse_vorbis_comment_block (serialize_vorbis_comment_block vendor comments ++ rest)
      ≡ ok (vendor, comments)
unfolding parse_vorbis_comment_block serialize_vorbis_comment_block sized
parse-serialize_vorbis_comment_block vendor comments rest hv hn hc =
    let tail = serialize_comments comments ++ rest in
    let counted = put_le 4 (length comments % 2 ^ 32) ++ tail in
    ground (
      arith,
      append_assoc (put_le 4 (length vendor % 2 ^ 32)) vendor
          (put_le 4 (length comments % 2 ^ 32) ++ serialize_comments comments),
      append_assoc (put_le 4 (length vendor % 2 ^ 32))
          (vendor ++ (put_le 4 (length comments % 2 ^ 32) ++ serialize_comments comments)) rest,
      append_assoc vendor (put_le 4 (length comments % 2 ^ 32) ++ serialize_comments comments) rest,
      append_assoc (put_le 4 (length comments % 2 ^ 32)) (serialize_comments comments) rest,
      uint32-put (length vendor) (vendor ++ counted) hv,
      drop-put (length vendor) (vendor ++ counted) hv,
      length-put (length vendor) (vendor ++ counted) hv,
      length-append vendor counted,
      length-put (length comments) tail hn,
      take-append_eq (length vendor) vendor counted refl,
      drop-append_eq (length vendor) vendor counted refl,
      uint32-put (length comments) tail hn,
      drop-put (length comments) tail hn,
      parse-serialize_comments comments rest hc,
    )
