-- ===== src/Riff.antt =====
-- WAV and AIFF files of go_backend/wav_aiff.go: the walks over their chunks, and the writer of the tag
-- chunk. A file is the list of its bytes; a seek past its end leaves nothing to read.
pub mod Probe
pub mod Chunks
pub mod Folded
pub mod Files
pub mod Replace
pub mod ReadBack
mod Tests
use musi_flac.Prelude.{
  ℕ, zero, suc, ◌+◌, ◌-◌, ◌*◌, ◌/◌, ◌%◌, ◌^◌, Bool, true, false, not, List, [], ◌∷◌, ◌++◌, ltb,
  ◌==◌, if◌then◌else◌, length, take, drop, slice, Bytes, put_le, le, be, codes, ◌=ₛ◌, to_upper,
  Result, ok, err, ◌>>=◌,
}

-- The order of the bytes of a number: `le`.
unfoldable pub put_uint32 : Bool → ℕ → Bytes
put_uint32 little v =
    if little
    then put_le 4 v
    else (v / 2 ^ 24 % 256) ∷ (v / 2 ^ 16 % 256) ∷ (v / 2 ^ 8 % 256) ∷ (v % 256) ∷ []

unfoldable pub read_uint32 : Bool → Bytes → ℕ
read_uint32 little b = if little then le b else be b

-- `int64(size) & 1`
abbrev pub pad_of : ℕ → ℕ
pad_of size = size % 2

pub data RiffError : Type 0 where
  eof : RiffError
  unexpected_eof : RiffError
  unexpected_magic : RiffError
  not_a_wave_file : RiffError
  not_an_aiff_file : RiffError

-- `io.ReadFull` of the 12 bytes of the header.
unfoldable pub read_header : Bytes → Result RiffError Bytes
read_header file =
    if length file == 0
    then err eof
    else if ltb (length file) 12
    then err unexpected_eof
    else ok (take 12 file)

-- `strings.EqualFold` of the ids of chunks: ASCII letters fold to each other only.
abbrev pub is_tag_chunk : Bytes → Bytes → Bool
is_tag_chunk chunk_id id = to_upper id =ₛ to_upper chunk_id

-- The loop of `writeID3Chunk`: the chunks that are copied.
unfoldable pub copy_loop : ℕ → Bool → Bytes → Bytes → Result RiffError Bytes
copy_loop zero little chunk_id bytes = ok []
copy_loop (suc fuel) little chunk_id bytes =
    let header = take 8 bytes in
    let body = drop 8 bytes in
    let size = read_uint32 little (slice header 4 8) in
    let whole = size + pad_of size in
    let later = copy_loop fuel little chunk_id (drop whole body) in
    let copied = later >>= λ rest. ok (header ++ (take whole body ++ rest)) in
    if ltb (length bytes) 8
    then ok []
    else if is_tag_chunk chunk_id (take 4 header)
    then later
    else if ltb (length body) whole
    then err eof
    else copied

unfoldable pub tag_chunk : Bool → Bytes → Bytes → Bytes
tag_chunk little chunk_id tag =
    chunk_id
    ++ (put_uint32 little (length tag % 2 ^ 32)
        ++ (tag ++ (if length tag % 2 == 1 then 0 ∷ [] else [])))

-- `writeID3Chunk`: the bytes of the new file. The size counts the form and all chunks.
unfoldable pub write_id3_chunk : Bytes → Bytes → Bool → Bytes → Bytes → Result RiffError Bytes
write_id3_chunk magic chunk_id little tag file = read_header file >>= λ header.
    if not (take 4 header =ₛ magic)
    then err unexpected_magic
    else copy_loop (length file) little chunk_id (drop 12 file) >>= λ chunks.
        let size = 4 + length chunks + (8 + length tag + length tag % 2) in
        ok (
          take 4 header
          ++ (put_uint32 little (size % 2 ^ 32)
              ++ (slice header 8 12 ++ (chunks ++ tag_chunk little chunk_id tag))))
