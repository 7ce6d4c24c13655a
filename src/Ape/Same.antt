-- ===== src/Ape/Same.antt =====
-- The two readers of go_backend/ape_tags.go, `ReadAPETags` and `ReadAPETagsFromReader`.
use musi_flac.Prelude.{ℕ, ◌+◌, ◌-◌, ◌≡◌, refl, true, arith, leb, length, Bytes}
use musi_flac.Ape.Tag.{
  ape_tag_header_size, try_footer, parse_ape_tag_from_footer, read_ape_tag_at_offset, read_ape_tags,
  read_ape_tags_from_reader,
}

-- Where 32 bytes are left at the offset, the two tries are the same.
same_try :
    (file : Bytes) (offset : ℕ)
    → leb (offset + ape_tag_header_size) (length file) ≡ true
    → read_ape_tag_at_offset file offset ≡ try_footer file offset
unfolding read_ape_tag_at_offset try_footer parse_ape_tag_from_footer
same_try file offset h = rw h refl

-- The two readers give the same tag, or the same error, for the same bytes.
pub read_ape_tags-same : (file : Bytes) → read_ape_tags file ≡ read_ape_tags_from_reader file
unfolding read_ape_tags read_ape_tags_from_reader
read_ape_tags-same file = ground (
  arith,
  same_try file (length file - ape_tag_header_size),
  same_try file (length file - ape_tag_header_size - 128),
)
