-- ===== src/Riff/Replace.antt =====
-- What `writeID3Chunk` of go_backend/wav_aiff.go writes for a well-formed file.
use musi_flac.Prelude.{
  ◌+◌, ◌%◌, ◌^◌, ◌<◌, ◌≡◌, sym, ap, ◌∙◌, Bool, List, [], ◌∷◌, ◌++◌, ◌==◌, if◌then◌else◌, length,
  All-append, Bytes, =ₛ_self, ok, ◌>>=◌, arith, append-nil, length-append,
}
use musi_flac.Riff.{put_uint32, copy_loop, tag_chunk, write_id3_chunk}
use musi_flac.Riff.Chunks.{
  Chunk, IsChunk, chunk_bytes, chunks_bytes, others, copy_loop-chunks, length-put_uint32,
  length-chunk_bytes,
}
use musi_flac.Riff.Files.{
  file_of, IsFile, tag_of, size_of, tag_of-IsChunk, chunks_bytes-append, file-IsSplit, all_others,
  others-tag,
}

module _ (little : Bool) (magic chunk_id form : Bytes) where
  -- The chunks that are no tag, and the tag behind them.
  abbrev pub tagged : Bytes → List Chunk → List Chunk
  tagged tag cs = others chunk_id cs ++ (tag_of chunk_id tag ∷ [])

  tagged_chunk :
      (tag : Bytes) (cs : List Chunk)
      → chunks_bytes little (tagged tag cs)
        ≡ chunks_bytes little (others chunk_id cs) ++ chunk_bytes little (tag_of chunk_id tag)
  tagged_chunk tag cs =
      chunks_bytes-append little (others chunk_id cs) (tag_of chunk_id tag ∷ [])
      ∙ ap (λ b. chunks_bytes little (others chunk_id cs) ++ b)
          (unfold chunks_bytes in append-nil (chunk_bytes little (tag_of chunk_id tag)))

  tagged_bytes :
      (tag : Bytes) (cs : List Chunk)
      → length tag < 2 ^ 32
      → chunks_bytes little (others chunk_id cs) ++ tag_chunk little chunk_id tag
        ≡ chunks_bytes little (tagged tag cs)
  unfolding tag_chunk chunk_bytes
  tagged_bytes tag cs sized =
      let pad : Bytes = if length tag % 2 == 1 then 0 ∷ [] else [] in
      ap
        (λ n.
          chunks_bytes little (others chunk_id cs)
          ++ (chunk_id ++ (put_uint32 little n ++ (tag ++ pad))))
        {x = length tag % 2 ^ 32} {y = length tag} (omega (arith, sized))
      ∙ sym (tagged_chunk tag cs)

  -- `writeID3Chunk` of a well-formed file keeps the magic, the form, and all chunks but tags, in order and
  -- byte for byte, puts the tag behind them as a chunk with its pad, and writes the size that the form
  -- and these chunks have. Bytes behind the last chunk that are no header go.
  pub write_id3_chunk-tagged :
      (size junk tag : Bytes) (cs : List Chunk)
      → IsFile magic size form junk cs
      → length chunk_id ≡ 4
      → length tag < 2 ^ 32
      → write_id3_chunk magic chunk_id little tag (file_of little magic size form junk cs)
        ≡ ok (file_of little magic (size_of little (tagged tag cs)) form [] (tagged tag cs))
  unfolding write_id3_chunk
  write_id3_chunk-tagged size junk tag cs h named sized =
      let split = file-IsSplit little magic size form junk cs h in
      let file = file_of little magic size form junk cs in
      let copied =
        ap (copy_loop (length file) little chunk_id) split.chunks
        ∙ copy_loop-chunks (length file) little chunk_id junk cs h.each h.junk_lem split.long in
      let same = =ₛ_self magic in
      rw split.header (
        rw split.magic_lem (
          rw same (
            rw copied (
              rw split.form_lem (
                let body = tagged_bytes tag cs sized in
                let kept = chunks_bytes little (others chunk_id cs) in
                let is_chunk = tag_of-IsChunk chunk_id tag named sized in
                let one = length-chunk_bytes little (tag_of chunk_id tag) is_chunk in
                let whole : length (chunks_bytes little (tagged tag cs))
                    ≡ length kept + (8 + length tag + length tag % 2) =
                  omega (
                    arith,
                    ap length (tagged_chunk tag cs),
                    one,
                    is_chunk.padded,
                    length-append kept (chunk_bytes little (tag_of chunk_id tag)),
                  ) in
                let counted : (4 + length kept + (8 + length tag + length tag % 2)) % 2 ^ 32
                    ≡ (4 + length (chunks_bytes little (tagged tag cs))) % 2 ^ 32 =
                  ap (λ n. n % 2 ^ 32) (omega (arith, whole)) in
                ap (λ b. ok (magic ++ b))
                  (ap
                      (λ n.
                        put_uint32 little n ++ (form ++ (kept ++ tag_chunk little chunk_id tag)))
                      counted
                    ∙ ap (λ b. size_of little (tagged tag cs) ++ (form ++ b))
                        (body ∙ sym (append-nil (chunks_bytes little (tagged tag cs))))))))))

  pub tagged-IsFile :
      (size junk tag : Bytes) (cs : List Chunk)
      → IsFile magic size form junk cs
      → length chunk_id ≡ 4
      → length tag < 2 ^ 32
      → IsFile magic (size_of little (tagged tag cs)) form [] (tagged tag cs)
  tagged-IsFile size junk tag cs h named sized = record {
    magic_lem = h.magic_lem;
    size_lem =
        length-put_uint32 little ((4 + length (chunks_bytes little (tagged tag cs))) % 2 ^ 32);
    form_lem = h.form_lem;
    junk_lem = omega arith;
    each =
        All-append IsChunk (others chunk_id cs) (tag_of chunk_id tag ∷ [])
          (all_others chunk_id cs h.each) (tag_of-IsChunk chunk_id tag named sized, tt);
  }

  -- A second write replaces the tag of the first: what it gives is what it would give without the first.
  pub write_id3_chunk-replaces :
      (size junk tag tag' : Bytes) (cs : List Chunk)
      → IsFile magic size form junk cs
      → length chunk_id ≡ 4
      → length tag < 2 ^ 32
      → length tag' < 2 ^ 32
      → (write_id3_chunk magic chunk_id little tag (file_of little magic size form junk cs)
          >>= write_id3_chunk magic chunk_id little tag')
        ≡ write_id3_chunk magic chunk_id little tag' (file_of little magic size form junk cs)
  write_id3_chunk-replaces size junk tag tag' cs h named sized sized' =
      let first = tagged tag cs in
      let size' = size_of little first in
      let is_file = tagged-IsFile size junk tag cs h named sized in
      let again : tagged tag' first ≡ tagged tag' cs =
        ap (λ (kept : List Chunk). kept ++ (tag_of chunk_id tag' ∷ []))
          (others-tag chunk_id tag cs) in
      ap (λ r. r >>= write_id3_chunk magic chunk_id little tag')
        (write_id3_chunk-tagged size junk tag cs h named sized)
      ∙ write_id3_chunk-tagged size' [] tag' first is_file named sized'
      ∙ ap (λ (all : List Chunk). ok (file_of little magic (size_of little all) form [] all)) again
      ∙ sym (write_id3_chunk-tagged size junk tag' cs h named sized')
