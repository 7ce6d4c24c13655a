-- ===== src/Riff/Files.antt =====
-- Files of chunks, as go_backend/wav_aiff.go reads them: their parts, and the chunk of a tag.
use musi_flac.Prelude.{
  ◌+◌, ◌%◌, ◌^◌, ◌≤◌, ◌<◌, ◌≡◌, refl, sym, ap, ◌∙◌, Bool, List, [], ◌∷◌, ◌++◌, ◌==◌, if◌then◌else◌,
  length, take, drop, slice, All, Bytes, =ₛ_self, to_upper, ok, arith, Bool-cases, inl, inr,
  append_assoc, length-append, take-append_eq, drop-append_eq, take_past,
}
use musi_flac.Riff.{put_uint32, is_tag_chunk, read_header}
use musi_flac.Riff.Chunks.{Chunk, IsChunk, chunk_bytes, chunks_bytes, others, length-chunk_bytes}

-- A file with any bytes in its size field, and less than a header behind its chunks.
abbrev pub file_of : Bool → Bytes → Bytes → Bytes → Bytes → List Chunk → Bytes
file_of little magic size form junk cs =
    magic ++ (size ++ (form ++ (chunks_bytes little cs ++ junk)))

pub record IsFile (magic size form junk : Bytes) (cs : List Chunk) : Type 0 where
  pub magic_lem : length magic ≡ 4
  pub size_lem : length size ≡ 4
  pub form_lem : length form ≡ 4
  pub junk_lem : length junk < 8
  pub each : All IsChunk cs

-- The tag as a chunk.
abbrev pub tag_of : Bytes → Bytes → Chunk
tag_of chunk_id tag = record {
  id = chunk_id;
  body = tag;
  pad = if length tag % 2 == 1 then 0 ∷ [] else [];
}

-- The size field that counts the form and the chunks.
abbrev pub size_of : Bool → List Chunk → Bytes
size_of little cs = put_uint32 little ((4 + length (chunks_bytes little cs)) % 2 ^ 32)

pub tag_of-IsChunk :
    (chunk_id tag : Bytes)
    → length chunk_id ≡ 4
    → length tag < 2 ^ 32
    → IsChunk (tag_of chunk_id tag)
tag_of-IsChunk chunk_id tag named sized = record {
  named = named;
  sized = sized;
  padded = ground arith;
}

pub chunks_bytes-append :
    (little : Bool) (xs ys : List Chunk)
    → chunks_bytes little (xs ++ ys) ≡ chunks_bytes little xs ++ chunks_bytes little ys
unfolding chunks_bytes
chunks_bytes-append little [] ys = refl
chunks_bytes-append little (x ∷ xs) ys =
    ap (λ b. chunk_bytes little x ++ b) (chunks_bytes-append little xs ys)
    ∙ sym (append_assoc (chunk_bytes little x) (chunks_bytes little xs) (chunks_bytes little ys))

pub length-chunks :
    (little : Bool) (cs : List Chunk) → All IsChunk cs → length cs ≤ length (chunks_bytes little cs)
unfolding chunks_bytes
length-chunks little [] h = omega arith
length-chunks little (c ∷ cs) h = omega (
  arith,
  length-append (chunk_bytes little c) (chunks_bytes little cs),
  length-chunk_bytes little c h.0,
  length-chunks little cs h.1,
)

module _ (little : Bool) (magic size form junk : Bytes) (cs : List Chunk) where
  abbrev pub file : Bytes
  file = file_of little magic size form junk cs

  pub record IsSplit : Type 0 where
    pub header : read_header file ≡ ok (take 12 file)
    pub magic_lem : take 4 (take 12 file) ≡ magic
    pub form_lem : slice (take 12 file) 8 12 ≡ form
    pub chunks : drop 12 file ≡ chunks_bytes little cs ++ junk
    pub long : length cs < length file

  pub file-IsSplit : IsFile magic size form junk cs → IsSplit
  file-IsSplit h =
      let rest = chunks_bytes little cs ++ junk in
      let head = magic ++ (size ++ form) in
      let apart : file ≡ head ++ rest = simp append_assoc refl in
      let twelve : 12 ≡ length head = omega (
        arith,
        h.magic_lem,
        h.size_lem,
        h.form_lem,
        length-append magic (size ++ form),
        length-append size form,
      ) in
      let taken : take 12 file ≡ head = ap (take 12) apart ∙ take-append_eq 12 head rest twelve in
      let total : length file ≡ 12 + length rest =
        ap length apart ∙ length-append head rest ∙ ap (λ n. n + length rest) (sym twelve) in
      record {
        header = unfold read_header in ground (arith, total);
        magic_lem = ap (take 4) taken ∙ take-append_eq 4 magic (size ++ form) (sym h.magic_lem);
        form_lem =
            ap (λ b. slice b 8 12) taken
            ∙ ap (take 4) (
                ap (drop 8) (sym (append_assoc magic size form))
                ∙ drop-append_eq 8 (magic ++ size) form
                    (omega (arith, h.magic_lem, h.size_lem, length-append magic size)))
            ∙ take_past 4 form (omega (arith, h.form_lem));
        chunks = ap (drop 12) apart ∙ drop-append_eq 12 head rest twelve;
        long = omega (
          arith,
          total,
          length-chunks little cs h.each,
          length-append (chunks_bytes little cs) junk,
        );
      }

pub all_others :
    (chunk_id : Bytes) (cs : List Chunk) → All IsChunk cs → All IsChunk (others chunk_id cs)
unfolding others
all_others chunk_id [] h = tt
all_others chunk_id (c ∷ cs) h = elim (Bool-cases (is_tag_chunk chunk_id c.id)) [
  | inl tag ↦ rw tag (all_others chunk_id cs h.1)
  | inr kept ↦ rw kept (h.0, all_others chunk_id cs h.1)
]

pub others-tag :
    (chunk_id tag : Bytes) (cs : List Chunk)
    → others chunk_id (others chunk_id cs ++ (tag_of chunk_id tag ∷ [])) ≡ others chunk_id cs
unfolding others
others-tag chunk_id tag [] = ground (arith, =ₛ_self (to_upper chunk_id))
others-tag chunk_id tag (c ∷ cs) = elim (Bool-cases (is_tag_chunk chunk_id c.id)) [
  | inl gone ↦ rw gone (others-tag chunk_id tag cs)
  | inr kept ↦ rw kept (rw kept (ap (◌∷◌ c) (others-tag chunk_id tag cs)))
]
