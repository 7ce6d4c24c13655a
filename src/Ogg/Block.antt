-- ===== src/Ogg/Block.antt =====
-- The comment block that go_backend/ogg_edit.go writes, read by go_backend/audio_metadata_ogg.go.
use musi_flac.Prelude.{
  ℕ, zero, suc, ◌+◌, ◌%◌, ◌^◌, ◌≤◌, ◌≡◌, refl, sym, ap, ◌∙◌, inl, inr, false, ◌||◌, List, [], ◌∷◌,
  ◌++◌, Option, arith, ltb, ◌==◌, if◌then◌else◌, Bool-cases, length, take, drop, All, length-append,
  take-append_eq, drop-append_eq, append_assoc, Bytes, IsU32, put_le, le, ℤ,
}
use musi_flac.Id3.Text.{Packages, split_byte}
use musi_flac.Id3.Apply.{AudioMetadata}
use musi_flac.Ogg.Comments.{
  uint32_at, sized, serialize_comments, serialize_vorbis_comment_block, FitsU32, uint32-put,
  drop-put, length-put,
}
use musi_flac.Ogg.Reader.{
  Reading, max_comment, apply_comment, comments_loop, finished, parse_vorbis_comments,
}
use musi_flac.Ogg.Listed.{apply_all, apply_comment-none}

-- The reader's size at the front is the editor's.
le-uint32_at : (s : Bytes) → le (take 4 s) ≡ uint32_at s
unfolding uint32_at
le-uint32_at s = refl

nothing : (s : Bytes) → length s ≡ 0 → s ≡ []
nothing [] h = refl
nothing (x ∷ s) h = absurd (omega arith)

module _ (go : Packages) (parse_int16 : Bytes → Option ℤ) (gain_text : ℤ → Bytes) where
  loop-nil : (n : ℕ) (r : Reading) → comments_loop go parse_int16 gain_text n [] r ≡ r
  unfolding comments_loop
  loop-nil zero r = refl
  loop-nil (suc n) r = ground arith

  -- A comment whose size, in front of it, is known.
  loop-cons :
      (n size : ℕ) (bytes c rest : Bytes) (r : Reading)
      → le (take 4 bytes) ≡ size
      → drop 4 bytes ≡ c ++ rest
      → length bytes ≡ 4 + length (c ++ rest)
      → size ≡ length c
      → length c ≤ max_comment
      → comments_loop go parse_int16 gain_text (suc n) bytes r
        ≡ comments_loop go parse_int16 gain_text n rest (apply_comment go parse_int16 gain_text c r)
  unfolding comments_loop
  loop-cons n size bytes c rest r size_is body long same small =
      let cut = drop-append_eq size c rest same in
      let kept = take-append_eq size c rest same in
      let enough : (ltb (length bytes) 4 || ltb (length (c ++ rest)) size) ≡ false =
        ground (arith, long, same, length-append c rest) in
      let fits : ltb max_comment size ≡ false = ground (arith, same, small) in
      rw size_is (
        rw body (
          rw cut (
            rw kept (
              rw enough (
                rw fits (elim (Bool-cases (length (c ++ rest) == 0)) [
                  | inr filled ↦ rw filled refl
                  | inl empty ↦
                      let none_left : length (c ++ rest) ≡ 0 = ground (arith, empty) in
                      let c-is = nothing c (omega (arith, length-append c rest, none_left)) in
                      let rest-is = nothing rest (omega (arith, length-append c rest, none_left)) in
                      rw empty (
                        sym (
                          ap
                            (λ b.
                              comments_loop go parse_int16 gain_text n b
                                (apply_comment go parse_int16 gain_text c r))
                            rest-is
                          ∙ loop-nil n _
                          ∙ ap (λ b. apply_comment go parse_int16 gain_text b r) c-is
                          ∙ apply_comment-none go parse_int16 gain_text [] r
                              (unfold split_byte in refl)))
                ]))))))

  comments_loop-serialize :
      (cs : List Bytes) (rest : Bytes) (r : Reading)
      → All (λ c. length c ≤ max_comment) cs
      → comments_loop go parse_int16 gain_text (length cs) (serialize_comments cs ++ rest) r
        ≡ apply_all go parse_int16 gain_text cs r
  unfolding serialize_comments apply_all sized
  comments_loop-serialize [] rest r h = unfold comments_loop in refl
  comments_loop-serialize (c ∷ cs) rest r h =
      let tail = serialize_comments cs ++ rest in
      let u32 : IsU32 (length c) = omega (arith, h.0) in
      let whole : (sized c ++ serialize_comments cs) ++ rest
          ≡ put_le 4 (length c % 2 ^ 32) ++ (c ++ tail) =
        append_assoc (sized c) (serialize_comments cs) rest
        ∙ append_assoc (put_le 4 (length c % 2 ^ 32)) c tail in
      ap (λ b. comments_loop go parse_int16 gain_text (suc (length cs)) b r) whole
      ∙ loop-cons (length cs) (length c) (put_le 4 (length c % 2 ^ 32) ++ (c ++ tail)) c tail r
          (le-uint32_at _ ∙ uint32-put (length c) (c ++ tail) u32)
          (drop-put (length c) (c ++ tail) u32) (length-put (length c) (c ++ tail) u32) refl h.0
      ∙ comments_loop-serialize cs rest _ h.1

  parsed :
      (vendor counted bytes tail : Bytes) (m : AudioMetadata) (count : ℕ)
      → le (take 4 bytes) ≡ length vendor
      → drop 4 bytes ≡ vendor ++ counted
      → length bytes ≡ 4 + length (vendor ++ counted)
      → le (take 4 counted) ≡ count
      → drop 4 counted ≡ tail
      → length counted ≡ 4 + length tail
      → count ≤ 100
      → parse_vorbis_comments go parse_int16 gain_text bytes m
        ≡ finished go parse_int16 gain_text (
            comments_loop go parse_int16 gain_text count tail
              (record { metadata = m; artists = []; album_artists = [] }))
  unfolding parse_vorbis_comments
  parsed vendor counted bytes tail m count size body long count_is list_is list_long few =
      let cut = drop-append_eq (length vendor) vendor counted refl in
      let goes_on : (ltb (length bytes) 4
            || ltb (length (vendor ++ counted)) (length vendor)
            || length (vendor ++ counted) == 0
            || ltb (length counted) 4)
          ≡ false =
        ground (arith, long, list_long, length-append vendor counted) in
      let limit : (if ltb count 100 then count else 100) ≡ count = ground (arith, few) in
      rw size (rw body (rw cut (rw count_is (rw list_is (rw goes_on (rw limit refl))))))

  -- Up to 100 comments of up to 512 KiB each are all read of the block that is written for them, whatever
  -- bytes follow it.
  pub parse_vorbis_comments-serialize :
      (vendor : Bytes) (cs : List Bytes) (rest : Bytes) (m : AudioMetadata)
      → FitsU32 vendor
      → length cs ≤ 100
      → All (λ c. length c ≤ max_comment) cs
      → parse_vorbis_comments go parse_int16 gain_text
          (serialize_vorbis_comment_block vendor cs ++ rest)
          m
        ≡ finished go parse_int16 gain_text (
            apply_all go parse_int16 gain_text cs
              (record { metadata = m; artists = []; album_artists = [] }))
  unfolding serialize_vorbis_comment_block sized
  parse_vorbis_comments-serialize vendor cs rest m hv few small =
      let tail = serialize_comments cs ++ rest in
      let u32 : IsU32 (length cs) = omega (arith, few) in
      let counted = put_le 4 (length cs % 2 ^ 32) ++ tail in
      let start : Reading = record { metadata = m; artists = []; album_artists = [] } in
      let block : (sized vendor ++ (put_le 4 (length cs % 2 ^ 32) ++ serialize_comments cs)) ++ rest
          ≡ put_le 4 (length vendor % 2 ^ 32) ++ (vendor ++ counted) =
        append_assoc (sized vendor) (put_le 4 (length cs % 2 ^ 32) ++ serialize_comments cs) rest
        ∙ append_assoc (put_le 4 (length vendor % 2 ^ 32)) vendor _
        ∙ ap (λ t. put_le 4 (length vendor % 2 ^ 32) ++ (vendor ++ t))
            (append_assoc (put_le 4 (length cs % 2 ^ 32)) (serialize_comments cs) rest) in
      ap (λ b. parse_vorbis_comments go parse_int16 gain_text b m) block
      ∙ parsed vendor counted (put_le 4 (length vendor % 2 ^ 32) ++ (vendor ++ counted)) tail m
          (length cs) (le-uint32_at _ ∙ uint32-put (length vendor) (vendor ++ counted) hv)
          (drop-put (length vendor) (vendor ++ counted) hv)
          (length-put (length vendor) (vendor ++ counted) hv)
          (le-uint32_at _ ∙ uint32-put (length cs) tail u32) (drop-put (length cs) tail u32)
          (length-put (length cs) tail u32) few
      ∙ ap (finished go parse_int16 gain_text) (comments_loop-serialize cs rest start small)
