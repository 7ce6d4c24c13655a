-- ===== src/Riff/ReadBack.antt =====
-- `streamProbeWAV` of go_backend/wav_aiff.go after `writeID3Chunk`: the tag, and all else as it was.
use musi_flac.Prelude.{
  ℕ, ◌^◌, ◌≤◌, ◌<◌, ◌≡◌, refl, sym, ap, ◌∙◌, subst, true, false, ◌||◌, List, [], ◌∷◌, ◌++◌,
  if◌then◌else◌, length, Bytes, codes, ◌=ₛ◌, =ₛ_iff, to_upper, to_upper_byte, ok, ◌>>=◌, arith,
  Bool-cases, inl, inr,
}
use musi_flac.Riff.{is_tag_chunk, write_id3_chunk}
use musi_flac.Riff.Probe.{
  goes_on, proceed, probe_loop, WavProbe, zero_wav, is_buffered, wav_max_meta_chunk, with_format,
  parse_riff_info, wav_chunk, stream_probe_wav,
}
use musi_flac.Riff.Chunks.{Chunk, others}
use musi_flac.Riff.Folded.{fold_chunks, probe_loop-chunks}
use musi_flac.Riff.Replace.{tagged, tagged-IsFile, write_id3_chunk-tagged}
use musi_flac.Riff.Files.{file_of, IsFile, tag_of, size_of, file-IsSplit}

-- An id that folds to the tag's is no other id.
not_named :
    (id other : Bytes)
    → is_tag_chunk (codes "id3 ") id ≡ true
    → is_tag_chunk (codes "id3 ") other ≡ false
    → (id =ₛ other) ≡ false
not_named id other tag kept = elim (Bool-cases (id =ₛ other)) [
  | inl same ↦
      let e : is_tag_chunk (codes "id3 ") id ≡ false =
        subst (λ x. is_tag_chunk (codes "id3 ") x ≡ false) (sym ((=ₛ_iff id other).0 same)) kept in
      cc
  | inr differs ↦ differs
]

fmt_kept : is_tag_chunk (codes "id3 ") (codes "fmt ") ≡ false
unfolding to_upper to_upper_byte ◌=ₛ◌
fmt_kept = refl

data_kept : is_tag_chunk (codes "id3 ") (codes "data") ≡ false
unfolding to_upper to_upper_byte ◌=ₛ◌
data_kept = refl

list_kept : is_tag_chunk (codes "id3 ") (codes "LIST") ≡ false
unfolding to_upper to_upper_byte ◌=ₛ◌
list_kept = refl

-- A probe without its tag.
abbrev untagged : WavProbe → WavProbe
untagged p = record p { id3 = [] }

module _ (trim : Bytes → Bytes) (rate : Bytes → ℕ) where
  -- What a whole chunk makes of a probe.
  after : Chunk → WavProbe → WavProbe
  after c p =
      if c.id =ₛ codes "fmt "
      then with_format c.body p
      else if c.id =ₛ codes "data"
      then record p { data_size = length c.body }
      else if (c.id =ₛ codes "id3 ") || (c.id =ₛ codes "ID3 ")
      then if is_buffered (length c.body) c.body then record p { id3 = c.body } else p
      else if c.id =ₛ codes "LIST"
      then if is_buffered (length c.body) c.body
        then record p { info = parse_riff_info trim rate c.body p.info }
        else p
      else p

  step_after :
      (c : Chunk) (p : WavProbe)
      → wav_chunk trim rate c.id (length c.body) c.body p ≡ goes_on (after c p)
  unfolding wav_chunk after
  step_after c p = ground arith

  fold-cons :
      (c : Chunk) (cs : List Chunk) (p : WavProbe)
      → fold_chunks true (wav_chunk trim rate) (c ∷ cs) p
        ≡ fold_chunks true (wav_chunk trim rate) cs (after c p)
  unfolding fold_chunks proceed
  fold-cons c cs p = ap (proceed (fold_chunks true (wav_chunk trim rate) cs)) (step_after c p)

  after-untagged :
      (c : Chunk) (p : WavProbe) → untagged (after c p) ≡ untagged (after c (untagged p))
  unfolding after with_format
  after-untagged c p = ground arith

  -- A chunk that the writer takes for a tag changes nothing else.
  tag-untagged :
      (c : Chunk) (p : WavProbe)
      → is_tag_chunk (codes "id3 ") c.id ≡ true
      → untagged (after c p) ≡ untagged p
  unfolding after
  tag-untagged c p tag =
      let f = not_named c.id (codes "fmt ") tag fmt_kept in
      let d = not_named c.id (codes "data") tag data_kept in
      let l = not_named c.id (codes "LIST") tag list_kept in ground (arith, f, d, l)

  fold-others :
      (cs : List Chunk) (p q : WavProbe)
      → untagged p ≡ untagged q
      → untagged (fold_chunks true (wav_chunk trim rate) (others (codes "id3 ") cs) p)
        ≡ untagged (fold_chunks true (wav_chunk trim rate) cs q)
  unfolding others
  fold-others [] p q e = unfold fold_chunks in e
  fold-others (c ∷ cs) p q e = elim (Bool-cases (is_tag_chunk (codes "id3 ") c.id)) [
    | inl tag ↦ rw tag (
        fold-others cs p (after c q) (e ∙ sym (tag-untagged c q tag))
        ∙ ap untagged (sym (fold-cons c cs q)))
    | inr kept ↦
        let same =
          after-untagged c p ∙ ap (λ x. untagged (after c x)) e ∙ sym (after-untagged c q) in
        rw kept (
          ap untagged (fold-cons c (others (codes "id3 ") cs) p)
          ∙ fold-others cs (after c p) (after c q) same
          ∙ ap untagged (sym (fold-cons c cs q)))
  ]

  fold-append_tag :
      (cs : List Chunk) (tag : Bytes) (p : WavProbe)
      → fold_chunks true (wav_chunk trim rate) (cs ++ (tag_of (codes "id3 ") tag ∷ [])) p
        ≡ after (tag_of (codes "id3 ") tag) (fold_chunks true (wav_chunk trim rate) cs p)
  fold-append_tag [] tag p = fold-cons (tag_of (codes "id3 ") tag) [] p ∙ unfold fold_chunks in refl
  fold-append_tag (c ∷ cs) tag p =
      fold-cons c (cs ++ (tag_of (codes "id3 ") tag ∷ [])) p
      ∙ fold-append_tag cs tag (after c p)
      ∙ ap (after (tag_of (codes "id3 ") tag)) (sym (fold-cons c cs p))

  after-tag :
      (tag : Bytes) (p : WavProbe)
      → 0 < length tag
      → length tag ≤ wav_max_meta_chunk
      → after (tag_of (codes "id3 ") tag) p ≡ record p { id3 = tag }
  unfolding after ◌=ₛ◌
  after-tag tag p some fits =
      let buffered : is_buffered (length tag) tag ≡ true = ground (arith, some, fits) in
      rw buffered refl

  probe_of :
      (size junk : Bytes) (cs : List Chunk)
      → IsFile (codes "RIFF") size (codes "WAVE") junk cs
      → stream_probe_wav trim rate (file_of true (codes "RIFF") size (codes "WAVE") junk cs)
        ≡ ok (fold_chunks true (wav_chunk trim rate) cs zero_wav)
  unfolding stream_probe_wav
  probe_of size junk cs h =
      let file = file_of true (codes "RIFF") size (codes "WAVE") junk cs in
      let split = file-IsSplit true (codes "RIFF") size (codes "WAVE") junk cs h in
      let walk =
        ap (λ bytes. probe_loop true (wav_chunk trim rate) (length file) bytes zero_wav)
          split.chunks
        ∙ probe_loop-chunks true (wav_chunk trim rate) (length file) junk cs zero_wav h.each
            h.junk_lem split.long in
      rw split.header (rw split.magic_lem (rw split.form_lem (unfold ◌=ₛ◌ in ap ok walk)))

  -- After `writeID3Chunk` of a well-formed WAV file, `streamProbeWAV` finds the tag, and all else that it
  -- found before: format, size of the audio and RIFF INFO. The tag is not empty and at most 16 MiB.
  pub probe-write_id3_chunk :
      (size junk tag : Bytes) (cs : List Chunk)
      → IsFile (codes "RIFF") size (codes "WAVE") junk cs
      → 0 < length tag
      → length tag ≤ wav_max_meta_chunk
      → (write_id3_chunk
            (codes "RIFF")
            (codes "id3 ")
            true
            tag
            (file_of true (codes "RIFF") size (codes "WAVE") junk cs)
          >>= stream_probe_wav trim rate)
        ≡ (stream_probe_wav trim rate (file_of true (codes "RIFF") size (codes "WAVE") junk cs)
            >>= λ p. ok (record p { id3 = tag }))
  probe-write_id3_chunk size junk tag cs h some fits =
      let new = tagged true (codes "RIFF") (codes "id3 ") (codes "WAVE") tag cs in
      let kept = others (codes "id3 ") cs in
      let sized : length tag < 2 ^ 32 = omega arith in
      let is_file =
        tagged-IsFile true (codes "RIFF") (codes "id3 ") (codes "WAVE") size junk tag cs h refl
          sized in
      let walked =
        fold-append_tag kept tag zero_wav
        ∙ after-tag tag (fold_chunks true (wav_chunk trim rate) kept zero_wav) some fits
        ∙ ap (λ (p : WavProbe). record p { id3 = tag }) (fold-others cs zero_wav zero_wav refl) in
      ap (λ r. r >>= stream_probe_wav trim rate)
        (write_id3_chunk-tagged true (codes "RIFF") (codes "id3 ") (codes "WAVE") size junk tag cs h
          refl sized)
      ∙ probe_of (size_of true new) [] new is_file
      ∙ ap ok walked
      ∙ sym
          (ap (λ r. r >>= λ (p : WavProbe). ok (record p { id3 = tag })) (probe_of size junk cs h))
