-- ===== src/Id3/ReadBack.antt =====
-- What the application reads (go_backend/id3_reader.go) of a tag that `serializeID3v24Tag` of
-- go_backend/mp3_id3_write.go wrote.
use musi_flac.Prelude.{
  ℕ, zero, suc, ◌+◌, ◌-◌, ◌/◌, ◌%◌, ◌^◌, ◌≤◌, ◌<◌, ◌≡◌, refl, ap, ◌∙◌, true, false, List, [], ◌∷◌,
  ◌++◌, ltb, length, replicate, All, Bytes, codes, ◌=ₛ◌, arith, length-append, append_assoc,
  Bool-cases, inl, inr, length-replicate,
}
use musi_flac.Id3.{
  Frame, synchsafe_encode, synchsafe_decode, frame_block, frame_blocks, padding,
  serialize_id3v24_tag,
}
use musi_flac.Id3.Numbers.{decode-encode}
use musi_flac.Id3.Frames.{AreWritable, length-frame_block, length-frame_blocks}
use musi_flac.Id3.Text.{Packages}
use musi_flac.Id3.Apply.{AudioMetadata, zero_metadata}
use musi_flac.Id3.Walk.{finished, has_high_bit, go_on, walk_loop, walk_id3_frames, read_id3v2}
use musi_flac.Id3.Seen.{go_on-seen, low_bits, all_seen, IsReadable, walk-frame}

module _ (go : Packages) where
  walk-zero :
      (fuel remaining : ℕ) (rest : Bytes) (m : AudioMetadata)
      → 9 ≤ length rest
      → walk_loop go (suc fuel) remaining 4 false (record { bytes = 0 ∷ rest; seeks = true }) m
        ≡ finished m
  unfolding walk_loop
  walk-zero fuel remaining rest m long =
      let enough : ltb (suc (length rest)) 10 ≡ false = ground (arith, long) in
      elim (Bool-cases (ltb remaining 10)) [
        | inl over ↦ rw over refl
        | inr more ↦ rw more (rw enough refl)
      ]

  walk-blocks :
      (fuel remaining p : ℕ) (frames : List Frame) (audio : Bytes) (m : AudioMetadata)
      → All (IsReadable go) frames
      → length frames < fuel
      → 10 ≤ p
      → remaining ≡ length (frame_blocks frames) + p
      → walk_loop go fuel remaining 4 false
          (record { bytes = frame_blocks frames ++ (replicate p 0 ++ audio); seeks = true })
          m
        ≡ go_on finished (all_seen go frames m)
  unfolding frame_blocks
  walk-blocks zero remaining p frames audio m h le pad sum = absurd (omega arith)
  walk-blocks (suc fuel) remaining zero [] audio m h le pad sum = absurd (omega arith)
  walk-blocks (suc fuel) remaining (suc p) [] audio m h le pad sum =
      let rest = replicate p 0 ++ audio in
      let long : 9 ≤ length rest =
        omega (arith, length-append (replicate p 0) audio, length-replicate p (zero)) in
      walk-zero fuel remaining rest m long ∙ unfold all_seen go_on in refl
  walk-blocks (suc fuel) remaining p (frame ∷ frames) audio m h le pad sum =
      let rest = replicate p 0 ++ audio in
      let tail = frame_blocks frames ++ rest in
      let n = length frame.payload in
      let block = length-frame_block frame h.0.frame_lem in
      let total = length-append (frame_block frame) (frame_blocks frames) in
      ap
        (λ bytes.
          walk_loop go (suc fuel) remaining 4 false (record { bytes = bytes; seeks = true }) m)
        (append_assoc (frame_block frame) (frame_blocks frames) rest)
      ∙ walk-frame go fuel remaining frame tail m h.0 (omega (arith, sum, block, total))
      ∙ go_on-seen go _ frame frames m (λ m'.
        walk-blocks fuel (remaining - 10 - n) p frames audio m' h.1 (omega arith) pad
          (omega (arith, sum, block, total)))

  read_of_tag :
      (s₀ s₁ s₂ s₃ n : ℕ) (body : Bytes)
      → synchsafe_decode (s₀ ∷ s₁ ∷ s₂ ∷ s₃ ∷ []) ≡ n
      → has_high_bit (s₀ ∷ s₁ ∷ s₂ ∷ s₃ ∷ []) ≡ false
      → n ≤ length body
      → read_id3v2 go (codes "ID3" ++ (4 ∷ 0 ∷ 0 ∷ s₀ ∷ s₁ ∷ s₂ ∷ s₃ ∷ body))
        ≡ walk_id3_frames go n 4 false (record { bytes = body; seeks = true })
  unfolding read_id3v2 ◌=ₛ◌
  read_of_tag s₀ s₁ s₂ s₃ n body size low fits =
      let t₁ : ltb (suc (suc (suc (suc (suc (suc (suc (suc (suc (suc (length body))))))))))) 10
          ≡ false =
        ground arith in
      let t₂ : ltb (length body) n ≡ false = ground (arith, fits) in
      rw size (rw t₁ (rw low (rw t₂ refl)))

  -- The application reads a tag that `serializeID3v24Tag` wrote, at the start of a file, to its end: it
  -- sees each wanted frame in order, and panics only where `applyID3Frame` does.
  pub read-serialize_id3v24 :
      (frames : List Frame) (audio : Bytes)
      → AreWritable frames
      → All (IsReadable go) frames
      → read_id3v2 go (serialize_id3v24_tag frames ++ audio)
        ≡ go_on finished (all_seen go frames zero_metadata)
  unfolding serialize_id3v24_tag synchsafe_encode walk_id3_frames
  read-serialize_id3v24 frames audio h readable =
      let blocks = frame_blocks frames in
      let n = length blocks + padding in
      let pad : Bytes = replicate padding 0 in
      let rest = length-append (blocks ++ pad) audio in
      let inner = length-append blocks pad in
      let filled = length-replicate padding (zero) in
      let enough = length-frame_blocks frames h.each in
      let some_padding : 10 ≤ padding = unfold padding in omega arith in
      read_of_tag (n / 2 ^ 21 % 128) (n / 2 ^ 14 % 128) (n / 2 ^ 7 % 128) (n % 128) n
        ((blocks ++ pad) ++ audio) (decode-encode n h.fits) (low_bits go n)
        (omega (arith, rest, inner, filled))
      ∙ ap
          (λ bytes.
            walk_loop go (suc n) n 4 false (record { bytes = bytes; seeks = true }) zero_metadata)
          (append_assoc blocks pad audio)
      ∙ walk-blocks (suc n) n padding frames audio zero_metadata readable
          (omega (arith, enough, some_padding)) some_padding refl
