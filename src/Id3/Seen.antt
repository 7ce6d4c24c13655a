-- ===== src/Id3/Seen.antt =====
-- One frame in the walk of go_backend/id3_reader.go, and what the reader makes of it.
use musi_flac.Prelude.{
  ℕ, suc, ◌+◌, ◌-◌, ◌/◌, ◌%◌, ◌^◌, ◌≤◌, ◌<◌, ◌≡◌, refl, sym, ap, true, false, not, ◌&&◌, ◌||◌, List,
  [], ◌∷◌, ◌++◌, Option, none, some, ltb, leb, ◌==◌, if◌then◌else◌, length, get_or, take, Bytes,
  codes, ◌=ₛ◌, arith, length-append, take-append_eq, drop-append_eq, Bool-cases, Option-cases, inl,
  inr,
}
use musi_flac.Id3.{Frame, synchsafe_encode, synchsafe_decode, frame_block}
use musi_flac.Id3.Numbers.{decode-encode}
use musi_flac.Id3.Frames.{IsFrame}
use musi_flac.Id3.Text.{Packages}
use musi_flac.Id3.Apply.{AudioMetadata, apply_id3_frame}
use musi_flac.Id3.Walk.{
  Walked, finished, has_high_bit, max_id3_frame_bytes, walk_size, is_wanted, is_unsupported,
  visited_payload, visit, go_on, walk_loop,
}

-- A chain of frames: a panic ends it.
unfoldable pub resume :
    (AudioMetadata → Option AudioMetadata) → Option AudioMetadata → Option AudioMetadata
resume next none = none
resume next (some m) = next m

module _ (go : Packages) where
  -- The application's view of one frame of version 2.4.
  unfoldable pub seen : Frame → AudioMetadata → Option AudioMetadata
  seen frame m =
      if is_wanted frame.id && leb (length frame.payload) max_id3_frame_bytes
      then apply_id3_frame go 4 frame.id frame.payload m
      else some m

  unfoldable pub all_seen : List Frame → AudioMetadata → Option AudioMetadata
  all_seen [] m = some m
  all_seen (frame ∷ frames) m = resume (all_seen frames) (seen frame m)

  walk-cons :
      (fuel remaining n a b c d s₀ s₁ s₂ s₃ : ℕ) (payload tail : Bytes) (m : AudioMetadata)
      → (a == 0) ≡ false
      → ((a ∷ b ∷ c ∷ []) =ₛ codes "3DI") ≡ false
      → has_high_bit (s₀ ∷ s₁ ∷ s₂ ∷ s₃ ∷ []) ≡ false
      → synchsafe_decode (s₀ ∷ s₁ ∷ s₂ ∷ s₃ ∷ []) ≡ n
      → n ≡ length payload
      → 0 < n
      → 10 + n ≤ remaining
      → let left = λ (m' : AudioMetadata).
        walk_loop go fuel (remaining - 10 - n) 4 false (record { bytes = tail; seeks = true }) m' in
        let id = a ∷ b ∷ c ∷ d ∷ [] in
        walk_loop go
          (suc fuel)
          remaining
          4
          false
          (record {
            bytes = a ∷ b ∷ c ∷ d ∷ s₀ ∷ s₁ ∷ s₂ ∷ s₃ ∷ 0 ∷ 0 ∷ (payload ++ tail);
            seeks = true;
          })
          m
        ≡ go_on left (seen (record { id = id; payload = payload }) m)
  unfolding walk_loop walk_size visited_payload visit is_unsupported seen go_on
  walk-cons fuel remaining n a b c d s₀ s₁ s₂ s₃ payload tail m started named low size len filled
        room =
      let cut = drop-append_eq n payload tail len in
      let kept = take-append_eq n payload tail len in
      let long = length-append payload tail in
      let id = a ∷ b ∷ c ∷ d ∷ [] in
      let frame : Frame = record { id = id; payload = payload } in
      let left = λ (m' : AudioMetadata).
        walk_loop go fuel (remaining - 10 - n) 4 false (record { bytes = tail; seeks = true }) m' in
      let t₁ : ltb remaining 10 ≡ false = ground (arith, room) in
      let t₂ : ltb
            (suc (suc (suc (suc (suc (suc (suc (suc (suc (suc (length (payload ++ tail))))))))))))
            10
          ≡ false =
        ground arith in
      let t₃ : (a == 0 || ((a ∷ b ∷ c ∷ []) =ₛ codes "3DI")) ≡ false =
        ground (arith, started, named) in
      let t₅ : (n == 0 || ltb (remaining - 10) n) ≡ false = ground (arith, room, filled) in
      let t₆ : ltb (length (payload ++ tail)) n ≡ false = ground (arith, long, len) in
      rw size (
        rw cut (
          rw kept (
            rw t₁ (
              rw t₂ (
                rw t₃ (
                  rw low (
                    rw t₅
                      (elim (Bool-cases
                        (is_wanted id && leb (length payload) max_id3_frame_bytes)) [
                          | inl visited ↦
                              let c : (not (is_wanted id) || false || ltb max_id3_frame_bytes n)
                                  ≡ false =
                                ground (arith, visited, len) in
                              let e : seen frame m ≡ apply_id3_frame go 4 id payload m =
                                ground (arith, visited) in
                              rw c (rw t₆ (ap (go_on left) (sym e)))
                          | inr passed ↦
                              let c : (not (is_wanted id) || false || ltb max_id3_frame_bytes n)
                                  ≡ true =
                                ground (arith, passed, len) in
                              let e : seen frame m ≡ some m = ground (arith, passed) in
                              rw c (sym (ap (go_on left) e))
                        ]))))))))

  -- A frame that the application can read: its id does not start as a footer does.
  pub record IsReadable (frame : Frame) : Type 0 where
    pub frame_lem : IsFrame frame
    pub no_footer : (take 3 frame.id =ₛ codes "3DI") ≡ false

  pub go_on-seen :
      (left : AudioMetadata → Walked) (frame : Frame) (frames : List Frame) (m : AudioMetadata)
      → ((m' : AudioMetadata) → left m' ≡ go_on finished (all_seen frames m'))
      → go_on left (seen frame m) ≡ go_on finished (all_seen (frame ∷ frames) m)
  unfolding all_seen resume go_on
  go_on-seen left frame frames m each = elim (Option-cases (seen frame m)) [
    | inl panics ↦ rw panics refl
    | inr (m', gives) ↦ rw gives (each m')
  ]

  pub low_bits :
      (n : ℕ)
      → has_high_bit ((n / 2 ^ 21 % 128) ∷ (n / 2 ^ 14 % 128) ∷ (n / 2 ^ 7 % 128) ∷ (n % 128) ∷ [])
        ≡ false
  unfolding has_high_bit
  low_bits n = ground arith

  pub walk-frame :
      (fuel remaining : ℕ) (frame : Frame) (tail : Bytes) (m : AudioMetadata)
      → IsReadable frame
      → 10 + length frame.payload ≤ remaining
      → let left = λ (m' : AudioMetadata).
        walk_loop go fuel
          (remaining - 10 - length frame.payload)
          4
          false
          (record { bytes = tail; seeks = true })
          m' in
        walk_loop go
          (suc fuel)
          remaining
          4
          false
          (record { bytes = frame_block frame ++ tail; seeks = true })
          m
        ≡ go_on left (seen frame m)
  unfolding frame_block synchsafe_encode
  walk-frame fuel remaining frame tail m h room =
      by_id frame.id frame.payload h.frame_lem.named h.frame_lem.started h.frame_lem.fits
        h.frame_lem.filled h.no_footer room
    where
      by_id :
          (id payload : Bytes)
          → length id ≡ 4
          → (get_or id 0 0 == 0) ≡ false
          → length payload < 2 ^ 28
          → 0 < length payload
          → (take 3 id =ₛ codes "3DI") ≡ false
          → 10 + length payload ≤ remaining
          → walk_loop go
              (suc fuel)
              remaining
              4
              false
              (record {
                bytes = (id ++ (synchsafe_encode (length payload) ++ (0 ∷ 0 ∷ payload))) ++ tail;
                seeks = true;
              })
              m
            ≡ go_on
                (λ (m' : AudioMetadata).
                  walk_loop go fuel
                    (remaining - 10 - length payload)
                    4
                    false
                    (record { bytes = tail; seeks = true })
                    m')
                (seen (record { id = id; payload = payload }) m)
      by_id (a ∷ b ∷ c ∷ d ∷ []) payload named started fits filled no_footer room =
          let n = length payload in
          walk-cons fuel remaining n a b c d (n / 2 ^ 21 % 128) (n / 2 ^ 14 % 128) (n / 2 ^ 7 % 128)
            (n % 128) payload tail m started no_footer (low_bits n) (decode-encode n fits) refl
            filled room
      by_id _ payload named started fits filled no_footer room = absurd (omega arith)
