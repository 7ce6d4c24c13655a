-- ===== src/Riff/Tests.antt =====
-- A small WAV file, and the theorems on go_backend/wav_aiff.go at it.
use musi_flac.Prelude.{◌≡◌, refl, true, List, [], ◌∷◌, ◌++◌, arith, All, Bytes, codes, ok, ◌>>=◌}
use musi_flac.Riff.{write_id3_chunk}
use musi_flac.Riff.Probe.{stream_probe_wav}
use musi_flac.Riff.Chunks.{Chunk, IsChunk}
use musi_flac.Riff.Replace.{tagged, write_id3_chunk-tagged}
use musi_flac.Riff.Files.{file_of, IsFile, size_of}
use musi_flac.Riff.ReadBack.{probe-write_id3_chunk}

abbrev audio : Chunk
audio = record { id = codes "data"; body = 1 ∷ 2 ∷ 3 ∷ []; pad = 9 ∷ [] }

abbrev old_tag : Chunk
old_tag = record { id = codes "ID3 "; body = 7 ∷ 7 ∷ []; pad = [] }

abbrev junk : Bytes
junk = 0 ∷ 0 ∷ []

abbrev any_size : Bytes
any_size = 0 ∷ 0 ∷ 0 ∷ 0 ∷ []

abbrev chunks : List Chunk
chunks = old_tag ∷ audio ∷ []

chunks-IsChunk : All IsChunk chunks
chunks-IsChunk = (
  record { named = refl; sized = omega arith; padded = refl },
  (record { named = refl; sized = omega arith; padded = refl }, tt),
)

wave-IsFile : IsFile (codes "RIFF") any_size (codes "WAVE") junk chunks
wave-IsFile = record {
  magic_lem = refl;
  size_lem = refl;
  form_lem = refl;
  junk_lem = omega arith;
  each = chunks-IsChunk;
}

abbrev wave : Bytes
wave = file_of true (codes "RIFF") any_size (codes "WAVE") junk chunks

abbrev tag : Bytes
tag = codes "ID3" ++ (5 ∷ 6 ∷ [])

write_id3_chunk-tagged_example :
    let cs = tagged true (codes "RIFF") (codes "id3 ") (codes "WAVE") tag chunks in
    write_id3_chunk (codes "RIFF") (codes "id3 ") true tag wave
    ≡ ok (file_of true (codes "RIFF") (size_of true cs) (codes "WAVE") [] cs)
write_id3_chunk-tagged_example =
    write_id3_chunk-tagged true (codes "RIFF") (codes "id3 ") (codes "WAVE") any_size junk tag
      chunks wave-IsFile refl (omega arith)

probe-write_id3_chunk_example :
    (write_id3_chunk (codes "RIFF") (codes "id3 ") true tag wave
      >>= stream_probe_wav (λ s. s) (λ b. 0))
    ≡ (stream_probe_wav (λ s. s) (λ b. 0) wave >>= λ p. ok (record p { id3 = tag }))
probe-write_id3_chunk_example =
    probe-write_id3_chunk (λ s. s) (λ b. 0) any_size junk tag chunks wave-IsFile (omega arith)
      (omega arith)
