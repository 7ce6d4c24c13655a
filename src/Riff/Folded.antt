-- ===== src/Riff/Folded.antt =====
-- The walks of go_backend/wav_aiff.go over whole chunks.
use musi_flac.Prelude.{
  ℕ, zero, suc, ◌<◌, ◌≡◌, refl, ap, ◌∙◌, Bool, true, List, [], ◌∷◌, ◌++◌, ltb, length, slice, All,
  Bytes, le, arith, append_assoc,
}
use musi_flac.Riff.{read_uint32}
use musi_flac.Riff.Probe.{Step, goes_on, returns, proceed, probe_loop}
use musi_flac.Riff.Chunks.{
  Chunk, IsChunk, chunk_bytes, chunks_bytes, chunk-IsHead, after_chunk, read-put_uint32,
}

-- A walk that only skips and buffers: what each whole chunk does, in order.
module _ {P : Type 0} (little : Bool) (step : Bytes → ℕ → Bytes → P → Step P) where
  unfoldable pub fold_chunks : List Chunk → P → P
  fold_chunks [] p = p
  fold_chunks (c ∷ cs) p = proceed (fold_chunks cs) (step c.id (length c.body) c.body p)

  probe-cons :
      (fuel : ℕ) (c : Chunk) (tail : Bytes) (p : P)
      → IsChunk c
      → probe_loop little step (suc fuel) (chunk_bytes little c ++ tail) p
        ≡ proceed (probe_loop little step fuel tail) (step c.id (length c.body) c.body p)
  unfolding probe_loop
  probe-cons fuel c tail p h =
      let head = chunk-IsHead little c tail h in
      let size : read_uint32 little (slice (chunk_bytes little c ++ tail) 4 8) ≡ length c.body =
        ap (read_uint32 little) head.size_lem ∙ read-put_uint32 little (length c.body) h.sized in
      let (kept, _, cut, long) = after_chunk c tail h in
      rw head.id (rw size (rw head.body (rw head.long (rw kept (rw cut refl)))))

  proceed_same : (s : Step P) (f g : P → P) → ((p : P) → f p ≡ g p) → proceed f s ≡ proceed g s
  unfolding proceed
  proceed_same (goes_on p) f g h = h p
  proceed_same (returns p) f g h = refl

  -- The walk of a probe over well-formed chunks, with less than a header behind them.
  pub probe_loop-chunks :
      (fuel : ℕ) (junk : Bytes) (cs : List Chunk) (p : P)
      → All IsChunk cs
      → length junk < 8
      → length cs < fuel
      → probe_loop little step fuel (chunks_bytes little cs ++ junk) p ≡ fold_chunks cs p
  unfolding chunks_bytes fold_chunks
  probe_loop-chunks zero junk cs p h j le = absurd (omega arith)
  probe_loop-chunks (suc fuel) junk [] p h j le =
      let short : ltb (length junk) 8 ≡ true = ground (arith, j) in
      unfold probe_loop in rw short refl
  probe_loop-chunks (suc fuel) junk (c ∷ cs) p h j le =
      let rest = chunks_bytes little cs ++ junk in
      ap (λ bytes. probe_loop little step (suc fuel) bytes p)
        (append_assoc (chunk_bytes little c) (chunks_bytes little cs) junk)
      ∙ probe-cons fuel c rest p h.0
      ∙ proceed_same (step c.id (length c.body) c.body p) (probe_loop little step fuel rest)
          (fold_chunks cs) (λ p'. probe_loop-chunks fuel junk cs p' h.1 j (omega arith))
