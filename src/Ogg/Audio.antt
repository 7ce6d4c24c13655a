-- ===== src/Ogg/Audio.antt =====
-- The audio pages that `EditOggFields` of go_backend/ogg_edit.go writes.
use musi_flac.Prelude.{
  ℕ, suc, ◌+◌, ◌%◌, ◌^◌, ◌<◌, ◌≡◌, ap, inl, inr, Bool, List, [], ◌∷◌, ◌++◌, arith, ◌==◌,
  if◌then◌else◌, Bool-cases, length, All, drop-append_eq, Bytes, ok,
}
use musi_flac.Ogg.Page.{OggEditPage}
use musi_flac.Ogg.Layout.{IsRun, ends_full}
use musi_flac.Ogg.Edit.{Headers, header_packets, serialize_pages, write_audio}
use musi_flac.Ogg.Stream.{
  IsPageOf, length-serialize_pages, renumbered, renumbered-IsPageOf, renumber_loop-renumbered,
}

pub IsRun-IsPageOf :
    (serial seq : ℕ) (continued : Bool) (ps : List OggEditPage)
    → IsRun serial seq continued ps
    → All (IsPageOf serial) ps
unfolding IsRun
IsRun-IsPageOf serial seq continued [] r = tt
IsRun-IsPageOf serial seq continued (p ∷ ps) r = (
  record { page = r.0; serial_is = r.1 },
  IsRun-IsPageOf serial ((seq + 1) % 2 ^ 32) (ends_full p.segments) ps r.5,
)

-- The audio pages as they are written: verbatim where the number of header pages is kept, and
-- otherwise numbered on from the header pages, with nothing else changed.
abbrev pub written_audio : ℕ → ℕ → List OggEditPage → List OggEditPage
written_audio new_count old_count audio =
    if new_count + 1 == old_count then audio else renumbered ((1 + new_count) % 2 ^ 32) audio

pub written_audio-IsPageOf :
    (serial new_count old_count : ℕ) (audio : List OggEditPage)
    → All (IsPageOf serial) audio
    → All (IsPageOf serial) (written_audio new_count old_count audio)
written_audio-IsPageOf serial new_count old_count audio v =
    elim (Bool-cases (new_count + 1 == old_count)) [
      | inl same ↦ rw same v
      | inr other ↦ rw other (renumbered-IsPageOf serial _ audio (omega arith) v)
    ]

pub write_audio-pages :
    (serial new_count old_count : ℕ) (h : Headers) (file front : Bytes) (audio : List OggEditPage)
    → h.rest ≡ serialize_pages audio
    → file ≡ front ++ serialize_pages audio
    → h.size ≡ length front
    → All (IsPageOf serial) audio
    → write_audio serial new_count old_count h file
      ≡ ok (serialize_pages (written_audio new_count old_count audio))
unfolding write_audio
write_audio-pages serial new_count old_count h file front audio rest-is file-is size-is v =
    elim (Bool-cases (new_count + 1 == old_count)) [
      | inl same ↦
          rw same (rw file-is (ap ok (drop-append_eq h.size front (serialize_pages audio) size-is)))
      | inr other ↦ rw other (
          rw rest-is (
            renumber_loop-renumbered (suc (length (serialize_pages audio))) serial
              ((1 + new_count) % 2 ^ 32) audio (omega (arith, length-serialize_pages audio)) v))
    ]

pub length-header_packets :
    (is_opus : Bool) (comment : Bytes) (packets : List Bytes)
    → 0 < length (header_packets is_opus comment packets)
unfolding header_packets
length-header_packets is_opus comment packets = ground arith
