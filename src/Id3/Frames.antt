-- ===== src/Id3/Frames.antt =====
-- The frames that `serializeID3v24Tag` of go_backend/mp3_id3_write.go writes, and what is read of them.
use musi_flac.Prelude.{
  ℕ, zero, suc, ◌+◌, ◌-◌, ◌/◌, ◌%◌, ◌<◌, ◌≤◌, ◌^◌, ◌≡◌, refl, sym, ap, ◌∙◌, false, ◌||◌, List, [],
  ◌∷◌, ◌++◌, arith, ◌==◌, ltb, leb, length, get_or, take, drop, replicate, All, Bytes, ok,
  length-append, take-append_eq, drop-append_eq, append_assoc, codes, ◌=ₛ◌, drop-drop,
  length-replicate,
}
use musi_flac.Id3.{
  Frame, synchsafe_encode, synchsafe_decode, plain_payload, raw_frames_loop,
  parse_id3v2x_raw_frames, read_mp3_id3v2_frames, frame_block, frame_blocks, padding,
  serialize_id3v24_tag, frame_bytes,
}
use musi_flac.Id3.Numbers.{decode-encode}

-- A frame that can be written: an id of four bytes that does not start with 0, and a payload that is not
-- empty and not longer than a size can say.
pub record IsFrame (frame : Frame) : Type 0 where
  pub named : length frame.id ≡ 4
  pub started : (get_or frame.id 0 0 == 0) ≡ false
  pub filled : 0 < length frame.payload
  pub fits : length frame.payload < 2 ^ 28

drop_ten :
    (n x₀ x₁ x₂ x₃ x₄ x₅ x₆ x₇ x₈ x₉ : ℕ) (rest : Bytes)
    → drop (10 + n) (x₀ ∷ x₁ ∷ x₂ ∷ x₃ ∷ x₄ ∷ x₅ ∷ x₆ ∷ x₇ ∷ x₈ ∷ x₉ ∷ rest) ≡ drop n rest
drop_ten n x₀ x₁ x₂ x₃ x₄ x₅ x₆ x₇ x₈ x₉ rest =
    sym (drop-drop n 10 (x₀ ∷ x₁ ∷ x₂ ∷ x₃ ∷ x₄ ∷ x₅ ∷ x₆ ∷ x₇ ∷ x₈ ∷ x₉ ∷ rest))

-- The head of a block, when its size and its payload are known.
loop-cons :
    (fuel n a b c d s₀ s₁ s₂ s₃ : ℕ) (payload tail : Bytes)
    → (a == 0) ≡ false
    → synchsafe_decode (s₀ ∷ s₁ ∷ s₂ ∷ s₃ ∷ []) ≡ n
    → n ≡ length payload
    → 0 < n
    → raw_frames_loop
        (suc fuel)
        4
        false
        (a ∷ b ∷ c ∷ d ∷ s₀ ∷ s₁ ∷ s₂ ∷ s₃ ∷ 0 ∷ 0 ∷ (payload ++ tail))
      ≡ record { id = a ∷ b ∷ c ∷ d ∷ []; payload = payload } ∷ raw_frames_loop fuel 4 false tail
unfolding raw_frames_loop plain_payload
loop-cons fuel n a b c d s₀ s₁ s₂ s₃ payload tail started size len filled =
    let cut =
      drop_ten n a b c d s₀ s₁ s₂ s₃ 0 0 (payload ++ tail) ∙ drop-append_eq n payload tail len in
    let kept : take (10 + n - 10) (payload ++ tail) ≡ payload =
      take-append_eq (10 + n - 10) payload tail (omega (arith, len)) in
    let goes_on : (leb
            (suc (suc (suc (suc (suc (suc (suc (suc (suc (suc (length (payload ++ tail))))))))))))
            10
          || a == 0
          || n == 0
          || ltb
              (suc (suc (suc (suc (suc (suc (suc (suc (suc (suc (length (payload ++ tail))))))))))))
              (10 + n))
        ≡ false =
      ground (arith, started, length-append payload tail, len, filled) in
    rw size (rw cut (rw kept (rw goes_on refl)))

raw_frames-cons :
    (fuel : ℕ) (frame : Frame) (tail : Bytes)
    → IsFrame frame
    → raw_frames_loop (suc fuel) 4 false (frame_block frame ++ tail)
      ≡ frame ∷ raw_frames_loop fuel 4 false tail
unfolding frame_block synchsafe_encode
raw_frames-cons fuel frame tail h = go frame.id frame.payload h.named h.started h.filled h.fits
  where
    go :
        (id payload : Bytes)
        → length id ≡ 4
        → (get_or id 0 0 == 0) ≡ false
        → 0 < length payload
        → length payload < 2 ^ 28
        → raw_frames_loop
            (suc fuel)
            4
            false
            ((id ++ (synchsafe_encode (length payload) ++ (0 ∷ 0 ∷ payload))) ++ tail)
          ≡ record { id = id; payload = payload } ∷ raw_frames_loop fuel 4 false tail
    go (a ∷ b ∷ c ∷ d ∷ []) payload named started filled fits =
        let n = length payload in
        loop-cons fuel n a b c d (n / 2 ^ 21 % 128) (n / 2 ^ 14 % 128) (n / 2 ^ 7 % 128) (n % 128)
          payload tail started (decode-encode n fits) refl filled
    go _ payload named started filled fits = absurd (omega arith)

-- Padding ends the frames.
raw_frames-padding : (fuel n : ℕ) → raw_frames_loop fuel 4 false (replicate n 0) ≡ []
unfolding raw_frames_loop
raw_frames-padding zero n = refl
raw_frames-padding (suc fuel) zero = refl
raw_frames-padding (suc fuel) (suc n) = ground arith

raw_frames-blocks :
    (fuel n : ℕ) (frames : List Frame)
    → All IsFrame frames
    → length frames ≤ fuel
    → raw_frames_loop fuel 4 false (frame_blocks frames ++ replicate n 0) ≡ frames
unfolding frame_blocks
raw_frames-blocks fuel n [] h le = raw_frames-padding fuel n
raw_frames-blocks zero n (frame ∷ frames) h le = absurd (omega arith)
raw_frames-blocks (suc fuel) n (frame ∷ frames) h le =
    ap (raw_frames_loop (suc fuel) 4 false)
      (append_assoc (frame_block frame) (frame_blocks frames) (replicate n 0))
    ∙ raw_frames-cons fuel frame (frame_blocks frames ++ replicate n 0) h.0
    ∙ ap (◌∷◌ frame) (raw_frames-blocks fuel n frames h.1 (omega arith))

pub length-frame_block :
    (frame : Frame) → IsFrame frame → length (frame_block frame) ≡ 10 + length frame.payload
unfolding frame_block synchsafe_encode
length-frame_block frame h = omega (
  arith,
  h.named,
  length-append frame.id (
      (length frame.payload / 2 ^ 21 % 128)
      ∷ (length frame.payload / 2 ^ 14 % 128)
      ∷ (length frame.payload / 2 ^ 7 % 128)
      ∷ (length frame.payload % 128)
      ∷ 0
      ∷ 0
      ∷ frame.payload),
)

pub length-frame_blocks :
    (frames : List Frame) → All IsFrame frames → length frames ≤ length (frame_blocks frames)
unfolding frame_blocks
length-frame_blocks [] h = omega arith
length-frame_blocks (frame ∷ frames) h = omega (
  arith,
  length-append (frame_block frame) (frame_blocks frames),
  length-frame_block frame h.0,
  length-frame_blocks frames h.1,
)

-- Frames whose blocks fit into a tag.
pub record AreWritable (frames : List Frame) : Type 0 where
  pub each : All IsFrame frames
  pub fits : length (frame_blocks frames) + padding < 2 ^ 28

-- A file that starts with a tag of version 2.4 without flags.
read_of_tag :
    (s₀ s₁ s₂ s₃ n : ℕ) (body audio : Bytes)
    → synchsafe_decode (s₀ ∷ s₁ ∷ s₂ ∷ s₃ ∷ []) ≡ n
    → n ≡ length body
    → 0 < n
    → read_mp3_id3v2_frames (codes "ID3" ++ (4 ∷ 0 ∷ 0 ∷ s₀ ∷ s₁ ∷ s₂ ∷ s₃ ∷ (body ++ audio)))
      ≡ ok (parse_id3v2x_raw_frames body 4 false, 10 + n)
unfolding read_mp3_id3v2_frames frame_bytes ◌=ₛ◌
read_of_tag s₀ s₁ s₂ s₃ n body audio size len filled =
    let kept : take (10 + n - 10) (body ++ audio) ≡ body =
      take-append_eq (10 + n - 10) body audio (omega (arith, len)) in
    rw size (rw kept (ground (arith, len, filled, length-append body audio)))

-- Of a file that starts with a tag that `serializeID3v24Tag` wrote, `readMP3ID3v2Frames` reads the frames
-- of the tag, and finds the audio behind it, where each frame has an id of four bytes, the first not 0,
-- and a payload that is not empty, and all fit into a tag.
pub read-serialize_tag :
    (frames : List Frame) (audio : Bytes)
    → AreWritable frames
    → read_mp3_id3v2_frames (serialize_id3v24_tag frames ++ audio)
      ≡ ok (frames, length (serialize_id3v24_tag frames))
unfolding serialize_id3v24_tag synchsafe_encode parse_id3v2x_raw_frames
read-serialize_tag frames audio h =
    let body = frame_blocks frames in
    let n = length body + padding in
    let all = body ++ replicate padding 0 in
    let len : length all ≡ n =
      length-append body (replicate padding 0)
      ∙ ap (λ k. length body + k) (length-replicate padding 0) in
    let some_padding : 0 < padding = unfold padding in omega arith in
    let enough = length-frame_blocks frames h.each in
    read_of_tag (n / 2 ^ 21 % 128) (n / 2 ^ 14 % 128) (n / 2 ^ 7 % 128) (n % 128) n all audio
      (decode-encode n h.fits) (sym len) (omega (arith, some_padding))
    ∙ ap (λ read. ok (read, 10 + n))
        (raw_frames-blocks (length all) padding frames h.each (omega (arith, len, enough)))
    ∙ ap (λ k. ok (frames, k)) {y = length (serialize_id3v24_tag frames)} (omega (arith, len))
