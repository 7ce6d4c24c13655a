-- ===== src/Riff/Chunks.antt =====
-- The chunks of a well-formed RIFF or FORM file, as the walks of go_backend/wav_aiff.go find them.
use musi_flac.Prelude.{
  ℕ, zero, suc, ◌+◌, ◌^◌, ◌≤◌, ◌<◌, ◌≡◌, refl, sym, ap, ◌∙◌, Bool, true, false, List, [], ◌∷◌, ◌++◌,
  ltb, if◌then◌else◌, length, take, drop, slice, All, Bytes, put_le, le, le-put_le_4, be_from,
  Result, ok, err, ◌>>=◌, arith, append_assoc, length-append, take-append_eq, drop-append_eq,
  take_past,
}
use musi_flac.Riff.{put_uint32, read_uint32, pad_of, is_tag_chunk, copy_loop}

-- A chunk with its pad, which may be any byte.
pub record Chunk : Type 0 where
  pub id : Bytes
  pub body : Bytes
  pub pad : Bytes

pub record IsChunk (c : Chunk) : Type 0 where
  pub named : length c.id ≡ 4
  pub sized : length c.body < 2 ^ 32
  pub padded : length c.pad ≡ pad_of (length c.body)

unfoldable pub chunk_bytes : Bool → Chunk → Bytes
chunk_bytes little c = c.id ++ (put_uint32 little (length c.body) ++ (c.body ++ c.pad))

unfoldable pub chunks_bytes : Bool → List Chunk → Bytes
chunks_bytes little [] = []
chunks_bytes little (c ∷ cs) = chunk_bytes little c ++ chunks_bytes little cs

-- The chunks that are no tag.
unfoldable pub others : Bytes → List Chunk → List Chunk
others chunk_id [] = []
others chunk_id (c ∷ cs) =
    let rest = others chunk_id cs in if is_tag_chunk chunk_id c.id then rest else c ∷ rest

pub read-put_uint32 :
    (little : Bool) (v : ℕ) → v < 2 ^ 32 → read_uint32 little (put_uint32 little v) ≡ v
unfolding read_uint32 put_uint32
read-put_uint32 true v h = le-put_le_4 v h
read-put_uint32 false v h = unfold be_from in omega arith

pub length-put_uint32 : (little : Bool) (v : ℕ) → length (put_uint32 little v) ≡ 4
unfolding put_uint32 put_le
length-put_uint32 true v = refl
length-put_uint32 false v = refl

pub length-chunk_bytes :
    (little : Bool) (c : Chunk)
    → IsChunk c
    → length (chunk_bytes little c) ≡ 8 + (length c.body + length c.pad)
unfolding chunk_bytes
length-chunk_bytes little c h =
    let sizes = put_uint32 little (length c.body) in
    omega (
      arith,
      h.named,
      length-append c.id (sizes ++ (c.body ++ c.pad)),
      length-append sizes (c.body ++ c.pad),
      length-append c.body c.pad,
      length-put_uint32 little (length c.body),
    )

-- The parts of a chunk at the head of some bytes.
pub record IsHead (little : Bool) (c : Chunk) (tail bytes : Bytes) : Type 0 where
  pub id : take 4 bytes ≡ c.id
  pub header : take 8 bytes ≡ c.id ++ put_uint32 little (length c.body)
  pub size : slice (take 8 bytes) 4 8 ≡ put_uint32 little (length c.body)
  pub size_lem : slice bytes 4 8 ≡ put_uint32 little (length c.body)
  pub body : drop 8 bytes ≡ c.body ++ (c.pad ++ tail)
  pub long : (ltb (length bytes) 8) ≡ false

pub chunk-IsHead :
    (little : Bool) (c : Chunk) (tail : Bytes)
    → IsChunk c
    → IsHead little c tail (chunk_bytes little c ++ tail)
unfolding chunk_bytes
chunk-IsHead little c tail h =
    let sizes = put_uint32 little (length c.body) in
    let four = length-put_uint32 little (length c.body) in
    let rest = c.body ++ (c.pad ++ tail) in
    let joined : (c.id ++ (sizes ++ (c.body ++ c.pad))) ++ tail ≡ c.id ++ (sizes ++ rest) =
      simp append_assoc refl in
    let apart : (c.id ++ (sizes ++ (c.body ++ c.pad))) ++ tail ≡ (c.id ++ sizes) ++ rest =
      joined ∙ sym (append_assoc c.id sizes rest) in
    let eight : 8 ≡ length (c.id ++ sizes) =
      omega (arith, h.named, four, length-append c.id sizes) in
    let header = ap (take 8) apart ∙ take-append_eq 8 (c.id ++ sizes) rest eight in
    record {
      id = ap (take 4) joined ∙ take-append_eq 4 c.id (sizes ++ rest) (sym h.named);
      header = header;
      size =
          ap (λ b. slice b 4 8) header
          ∙ ap (take 4) (drop-append_eq 4 c.id sizes (sym h.named))
          ∙ take_past 4 sizes (omega (arith, four));
      size_lem =
          ap (λ b. slice b 4 8) joined
          ∙ ap (take 4) (drop-append_eq 4 c.id (sizes ++ rest) (sym h.named))
          ∙ take-append_eq 4 sizes rest (sym four);
      body = ap (drop 8) apart ∙ drop-append_eq 8 (c.id ++ sizes) rest eight;
      long = ground (arith, ap length apart, length-append (c.id ++ sizes) rest, eight);
    }

-- The rest behind a chunk.
pub after_chunk :
    (c : Chunk) (tail : Bytes)
    → IsChunk c
    → let whole = length c.body + pad_of (length c.body) in
      let bytes = c.body ++ (c.pad ++ tail) in
      (take (length c.body) bytes ≡ c.body)
      × (take whole bytes ≡ c.body ++ c.pad)
      × (drop whole bytes ≡ tail)
      × (whole ≤ length bytes)
after_chunk c tail h =
    let both = c.body ++ c.pad in
    let assoc = append_assoc c.body c.pad tail in
    let len : length c.body + pad_of (length c.body) ≡ length both =
      omega (arith, h.padded, length-append c.body c.pad) in
    let whole = length c.body + pad_of (length c.body) in
    (
      take-append_eq (length c.body) c.body (c.pad ++ tail) refl,
      ap (take whole) (sym assoc) ∙ take-append_eq whole both tail len,
      ap (drop whole) (sym assoc) ∙ drop-append_eq whole both tail len,
      omega (
        arith,
        len,
        length-append c.body (c.pad ++ tail),
        length-append c.pad tail,
        length-append c.body c.pad,
      ),
    )

bind_same :
    {E A B : Type 0} (r : Result E A) (f g : A → Result E B)
    → ((a : A) → f a ≡ g a)
    → (r >>= f) ≡ (r >>= g)
bind_same (ok a) f g h = h a
bind_same (err e) f g h = refl

pub chunk_bytes-append :
    (little : Bool) (c : Chunk) (rest : Bytes)
    → (c.id ++ put_uint32 little (length c.body)) ++ ((c.body ++ c.pad) ++ rest)
      ≡ chunk_bytes little c ++ rest
unfolding chunk_bytes
chunk_bytes-append little c rest = simp append_assoc refl

copy-cons :
    (fuel : ℕ) (little : Bool) (chunk_id : Bytes) (c : Chunk) (tail : Bytes)
    → IsChunk c
    → copy_loop (suc fuel) little chunk_id (chunk_bytes little c ++ tail) ≡ (
        if is_tag_chunk chunk_id c.id
        then copy_loop fuel little chunk_id tail
        else copy_loop fuel little chunk_id tail >>= λ rest. ok (chunk_bytes little c ++ rest))
unfolding copy_loop
copy-cons fuel little chunk_id c tail h =
    let head = chunk-IsHead little c tail h in
    let sizes = put_uint32 little (length c.body) in
    let id : take 4 (c.id ++ sizes) ≡ c.id = take-append_eq 4 c.id sizes (sym h.named) in
    let size : read_uint32 little (slice (c.id ++ sizes) 4 8) ≡ length c.body =
      ap (read_uint32 little) (ap (λ b. slice b 4 8) (sym head.header) ∙ head.size)
      ∙ read-put_uint32 little (length c.body) h.sized in
    let (_, kept, cut, long) = after_chunk c tail h in
    let enough : ltb (length (c.body ++ (c.pad ++ tail))) (length c.body + pad_of (length c.body))
        ≡ false =
      ground (arith, long) in
    rw head.header (
      rw head.body (
        rw id (
          rw size (
            rw head.long (
              rw cut (
                rw kept (
                  rw enough (
                    ap
                      (λ r.
                        if is_tag_chunk chunk_id c.id
                        then copy_loop fuel little chunk_id tail
                        else r)
                      (bind_same (copy_loop fuel little chunk_id tail) _ _
                        (λ rest. ap ok (chunk_bytes-append little c rest)))))))))))

-- The walk of `writeID3Chunk` over well-formed chunks, with less than a header behind them.
pub copy_loop-chunks :
    (fuel : ℕ) (little : Bool) (chunk_id junk : Bytes) (cs : List Chunk)
    → All IsChunk cs
    → length junk < 8
    → length cs < fuel
    → copy_loop fuel little chunk_id (chunks_bytes little cs ++ junk)
      ≡ ok (chunks_bytes little (others chunk_id cs))
unfolding chunks_bytes others
copy_loop-chunks zero little chunk_id junk cs h j le = absurd (omega arith)
copy_loop-chunks (suc fuel) little chunk_id junk [] h j le = unfold copy_loop in ground (arith, j)
copy_loop-chunks (suc fuel) little chunk_id junk (c ∷ cs) h j le =
    let rest = chunks_bytes little cs ++ junk in
    let ih = copy_loop-chunks fuel little chunk_id junk cs h.1 j (omega arith) in
    ap (copy_loop (suc fuel) little chunk_id)
      (append_assoc (chunk_bytes little c) (chunks_bytes little cs) junk)
    ∙ copy-cons fuel little chunk_id c rest h.0
    ∙ ap
        (λ r.
          if is_tag_chunk chunk_id c.id then r else r >>= λ rest. ok (chunk_bytes little c ++ rest))
        ih
    ∙ ground arith
