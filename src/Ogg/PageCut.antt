-- ===== src/Ogg/PageCut.antt =====
-- A page of go_backend/ogg_edit.go whose file is cut short.
use musi_flac.Prelude.{
  ℕ, zero, suc, ◌+◌, ◌-◌, ◌≤◌, ◌<◌, ◌≡◌, refl, sym, ap, ◌∙◌, inl, inr, Bool-cases, ◌||◌, [], ◌∷◌,
  ◌++◌, arith, length, take, length-take, length-append, Bytes, ltb, ◌==◌, if◌then◌else◌, err,
}
use musi_flac.Ogg.Page.{
  OggEditPage, OggError, eof, unexpected_eof, truncated_page_header, header_bytes, page_bytes,
  serialize, ogg_crc, read_full, read_header, read_next_ogg_edit_page, sum, byte_size,
}
use musi_flac.Ogg.PageTrip.{
  IsPage, read_full-append, length-header_bytes, read_header-append, magic_of_header,
  size_of_header,
}

-- The answer to a page of which only the first `n` bytes are there, by the number of its segments: io.EOF
-- before the page, right behind its header, and right behind its segment table.
unfoldable pub cut_error : ℕ → ℕ → OggError
cut_error segments n =
    if n == 0 || n == 27 || n == 27 + segments
    then eof
    else if ltb n 27
    then truncated_page_header
    else unexpected_eof

-- The error of `io.ReadFull` where some bytes are missing.
abbrev short_error : ℕ → OggError
short_error n = if n == 0 then eof else unexpected_eof

read_full_short : (n : ℕ) (s : Bytes) → length s < n → read_full n s ≡ err (short_error (length s))
unfolding read_full
read_full_short n [] h = ground (arith, h)
read_full_short n (x ∷ s) h = ground (arith, h)

take-append_past :
    (n : ℕ) (s rest : Bytes) → length s ≤ n → take n (s ++ rest) ≡ s ++ take (n - length s) rest
take-append_past n [] rest h = ap (λ k. take k rest) (omega arith)
take-append_past zero (x ∷ s) rest h = absurd (omega (arith, h))
take-append_past (suc n) (x ∷ s) rest h =
    ap (◌∷◌ x)
      (take-append_past n s rest (omega (arith, h)) ∙ ap (λ k. s ++ take k rest) (omega (arith, h)))

module _ (p : OggEditPage) (crc : ℕ) where
  read-header_short :
      (s : Bytes)
      → length s < 27
      → read_next_ogg_edit_page s ≡ err (if length s == 0 then eof else truncated_page_header)
  unfolding read_next_ogg_edit_page read_header
  read-header_short s h = ground (arith, h, read_full_short 27 s h)

  read-segments_short :
      (s : Bytes)
      → IsPage p
      → length s < length p.segments
      → read_next_ogg_edit_page (header_bytes p crc ++ s) ≡ err (short_error (length s))
  unfolding read_next_ogg_edit_page
  read-segments_short s v h = ground (
    arith,
    read_header-append (header_bytes p crc) s (sym (length-header_bytes p crc)),
    magic_of_header p crc,
    size_of_header p crc v,
    read_full_short (length p.segments) s h,
  )

  read-payload_short :
      (s : Bytes)
      → IsPage p
      → length s < length p.payload
      → read_next_ogg_edit_page (header_bytes p crc ++ (p.segments ++ s))
        ≡ err (short_error (length s))
  unfolding read_next_ogg_edit_page
  read-payload_short s v h = ground (
    arith,
    read_header-append (header_bytes p crc) (p.segments ++ s) (sym (length-header_bytes p crc)),
    magic_of_header p crc,
    size_of_header p crc v,
    read_full-append (length p.segments) p.segments s refl,
    read_full_short (sum p.segments) s (omega (arith, h, v.payload_size)),
  )

  read-page_bytes_short :
      (n : ℕ)
      → IsPage p
      → n < byte_size p
      → read_next_ogg_edit_page (take n (page_bytes p crc)) ≡ err (cut_error (length p.segments) n)
  unfolding page_bytes cut_error byte_size
  read-page_bytes_short n v h =
      let head = header_bytes p crc in
      let rest = p.segments ++ p.payload in
      let head_size : length head ≡ 27 = length-header_bytes p crc in
      let rest_size = length-append p.segments p.payload in
      elim (Bool-cases (ltb n 27)) [
        | inl early ↦
            let short : length (take n (head ++ rest)) ≡ n =
              ground
                (arith, length-take n (head ++ rest), length-append head rest, head_size, early) in
            read-header_short (take n (head ++ rest)) (ground (arith, short, early))
            ∙ ground (arith, short, early)
        | inr later ↦
            let inside : take n (head ++ rest) ≡ head ++ take (n - 27) rest =
              take-append_past n head rest (ground (arith, head_size, later))
              ∙ ap (λ k. head ++ take (n - k) rest) head_size in
            elim (Bool-cases (ltb n (27 + length p.segments))) [
              | inl table ↦
                  let short : length (take (n - 27) rest) ≡ n - 27 =
                    ground (arith, length-take (n - 27) rest, rest_size, h) in
                  ap read_next_ogg_edit_page inside
                  ∙ read-segments_short (take (n - 27) rest) v (ground (arith, short, table, later))
                  ∙ ground (arith, short, table, later)
              | inr behind ↦
                  let size = length p.segments in
                  let short : length (take (n - 27 - size) p.payload) ≡ n - 27 - size =
                    ground (arith, length-take (n - 27 - size) p.payload, h, behind) in
                  ap read_next_ogg_edit_page (
                    inside
                    ∙ ap (λ t. head ++ t)
                        (take-append_past (n - 27) p.segments p.payload (ground (arith, behind))))
                  ∙ read-payload_short (take (n - 27 - size) p.payload) v
                      (ground (arith, short, h, behind))
                  ∙ ground (arith, short, h, behind)
            ]
      ]

-- A page of which only the first `n` bytes are there, fewer than it has: io.EOF if there is none, if the
-- file ends right behind the header, or right behind the segment table; the error of a truncated header
-- inside the header; io.ErrUnexpectedEOF inside the segment table or the data.
pub read-cut :
    (p : OggEditPage) (n : ℕ)
    → IsPage p
    → n < byte_size p
    → read_next_ogg_edit_page (take n (serialize p)) ≡ err (cut_error (length p.segments) n)
unfolding serialize
read-cut p n v h = read-page_bytes_short p (ogg_crc (page_bytes p 0)) n v h
