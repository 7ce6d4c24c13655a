-- ===== src/Ape/RoundTrip.antt =====
-- Tags of go_backend/ape_tags.go that are written, read again and replaced.
use musi_flac.Prelude.{
  ℕ, ◌+◌, ◌-◌, ◌%◌, ◌^◌, ◌≡◌, refl, sym, ap, ◌∙◌, false, [], ◌++◌, arith, length, length-append,
  append_assoc, append-nil, Bytes, ok, some,
}
use musi_flac.Ape.Tag.{ApeTag, parse_ape_tag_from_footer, try_footer, read_ape_tags_from_reader}
use musi_flac.Ape.Write.{
  items_bytes, written_version, tag_size, block, header_flags, footer_flags, tag_bytes, existing_at,
}
use musi_flac.Ape.Layout.{
  IsWritable, read_at-middle, parse-items_bytes, version_field, tag_size_field, item_count_field,
  block_flags_field, preamble_field, length-block, footer_bits,
}

-- What a reader makes of a written tag: its version number filled in, and no read-only flag.
unfoldable pub as_read : ApeTag → ApeTag
as_read tag = record { version = written_version tag; items = tag.items; read_only = false }

-- The footer of a tag leads to the tag, wherever it stands.
module _ (tag : ApeTag) (w : IsWritable tag) where
  footer : Bytes
  footer = block tag footer_flags

  module _ (before after file : Bytes)
      (e : file ≡ before ++ (items_bytes tag.items ++ (footer ++ after))) where
    try_footer-written :
        try_footer file (length before + length (items_bytes tag.items)) ≡ ok (as_read tag)
    unfolding try_footer parse_ape_tag_from_footer as_read footer
    try_footer-written =
        let is = items_bytes tag.items in
        let v = written_version tag in
        let s = tag_size tag in
        let c = length tag.items % 2 ^ 32 in
        ground (
          arith,
          w.few,
          w.size_ok,
          w.version_ok,
          read_at-middle (before ++ is) footer after file 32 (length before + length is)
              (e ∙ sym (append_assoc before is (footer ++ after)))
              (sym (length-block v s c footer_flags)) (sym (length-append before is)),
          read_at-middle before is (footer ++ after) file (s - 32)
              (length before + length is - (s - 32)) e,
          version_field v s c footer_flags,
          tag_size_field v s c footer_flags,
          item_count_field v s c footer_flags,
          block_flags_field v s c footer_flags,
          preamble_field v s c footer_flags,
          footer_bits,
          parse-items_bytes tag.items w.items_ok,
        )

    existing_at-written :
        existing_at file (length before + length (items_bytes tag.items))
        ≡ some (length (items_bytes tag.items) + 64 + length after)
    unfolding existing_at footer
    existing_at-written =
        let is = items_bytes tag.items in
        let v = written_version tag in
        let s = tag_size tag in
        let c = length tag.items % 2 ^ 32 in
        ground (
          arith,
          w.size_ok,
          read_at-middle (before ++ is) footer after file 32 (length before + length is)
              (e ∙ sym (append_assoc before is (footer ++ after)))
              (sym (length-block v s c footer_flags)) (sym (length-append before is)),
          ap length e,
          length-append before (is ++ (footer ++ after)),
          length-append is (footer ++ after),
          length-append footer after,
          length-block v s c footer_flags,
          tag_size_field v s c footer_flags,
          block_flags_field v s c footer_flags,
          preamble_field v s c footer_flags,
          footer_bits,
        )

  header : Bytes
  header = block tag header_flags

  -- The tag's bytes behind some others, split at its items.
  split_tag :
      (base after : Bytes)
      → base ++ (tag_bytes tag ++ after)
        ≡ (base ++ header) ++ (items_bytes tag.items ++ (footer ++ after))
  unfolding tag_bytes header footer
  split_tag base after =
      let is = items_bytes tag.items in
      rw
        (
          append_assoc header (is ++ footer) after,
          append_assoc is footer after,
          append_assoc base header (is ++ (footer ++ after)),
        )
        refl

  pub length-tag : length (tag_bytes tag) ≡ length (items_bytes tag.items) + 64
  unfolding tag_bytes
  length-tag =
      let is = items_bytes tag.items in
      let v = written_version tag in
      let s = tag_size tag in
      let c = length tag.items % 2 ^ 32 in
      omega (
        arith,
        length-append (block tag header_flags) (is ++ block tag footer_flags),
        length-append is (block tag footer_flags),
        length-block v s c header_flags,
        length-block v s c footer_flags,
      )

  -- Behind any bytes, the tag is read back, and its size is found.
  module _ (base : Bytes) where
    pub read-appended : read_ape_tags_from_reader (base ++ tag_bytes tag) ≡ ok (as_read tag)
    unfolding read_ape_tags_from_reader header
    read-appended =
        let is = items_bytes tag.items in
        let file = base ++ tag_bytes tag in
        ground (
          arith,
          length-append base (tag_bytes tag),
          length-tag,
          length-append base header,
          length-block (written_version tag) (tag_size tag) (length tag.items % 2 ^ 32)
              header_flags,
          ap (λ o. try_footer file o) {x = length file - 32}
              {y = length (base ++ header) + length is}
              (omega (
                arith,
                length-append base (tag_bytes tag),
                length-tag,
                length-append base header,
                length-block (written_version tag) (tag_size tag) (length tag.items % 2 ^ 32)
                    header_flags,
              )),
          try_footer-written (base ++ header) [] file
              (ap (λ b. base ++ b) (sym (append-nil (tag_bytes tag))) ∙ split_tag base []),
        )

    -- The tag, and whatever stands behind it, is all of what is to be replaced: the tag at the end
    -- of the file, or 128 bytes before it.
    module _ (after : Bytes) where
      pub file_size :
          length (base ++ (tag_bytes tag ++ after))
          ≡ length base + length (tag_bytes tag) + length after
      file_size =
          omega (
            arith,
            length-append base (tag_bytes tag ++ after),
            length-append (tag_bytes tag) after,
          )

      pub found_at :
          (offset : ℕ)
          → offset + length after + 32 ≡ length (base ++ (tag_bytes tag ++ after))
          → existing_at (base ++ (tag_bytes tag ++ after)) offset
            ≡ some (length (tag_bytes tag) + length after)
      unfolding header
      found_at offset o =
          let is = items_bytes tag.items in
          let file = base ++ (tag_bytes tag ++ after) in
          ap (λ k. existing_at file k) {x = offset} {y = length (base ++ header) + length is}
            (omega (
              arith,
              o,
              file_size,
              length-tag,
              length-append base header,
              length-block (written_version tag) (tag_size tag) (length tag.items % 2 ^ 32)
                  header_flags,
            ))
          ∙ existing_at-written (base ++ header) after file (split_tag base after)
          ∙ ap (λ k. some (k + length after)) (sym length-tag)
