-- ===== src/Ape/Write.antt =====
-- Writing of APEv2 tags in go_backend/ape_tags.go, from the bytes of a file to its bytes after.
use musi_flac.Prelude.{
  ℕ, ◌+◌, ◌-◌, ◌%◌, ◌^◌, not, ◌||◌, List, [], ◌∷◌, ◌++◌, ltb, leb, ◌==◌, if◌then◌else◌, length,
  take, replicate, Bytes, put_le, Result, ok, err, ◌>>=◌, ◌>>◌, guard, Option, none, some,
}
use musi_flac.Ape.Tag.{
  ApeTagItem, ApeTag, ApeError, empty_tag, truncate_failed, ape_tag_preamble, ape_tag_header_size,
  ape_tag_version_2000, has_bit, read_at, tag_size_of, flags_of, has_preamble,
}

unfoldable pub build_ape_header_footer : ℕ → ℕ → ℕ → ℕ → Bytes
build_ape_header_footer version tag_size item_count flags =
    ape_tag_preamble
    ++ (put_le 4 version
        ++ (put_le 4 tag_size ++ (put_le 4 item_count ++ (put_le 4 flags ++ replicate 8 0))))

-- The loop over the items.
unfoldable pub items_bytes : List ApeTagItem → Bytes
items_bytes [] = []
items_bytes (i ∷ is) =
    put_le 4 (length i.value % 2 ^ 32)
    ++ (put_le 4 i.flags ++ (i.key ++ (0 ∷ (i.value ++ items_bytes is))))

abbrev pub written_version : ApeTag → ℕ
written_version tag = if tag.version == 0 then ape_tag_version_2000 else tag.version

abbrev pub tag_size : ApeTag → ℕ
tag_size tag = (length (items_bytes tag.items) + ape_tag_header_size) % 2 ^ 32

-- The header or the footer of a tag, by its flags.
abbrev pub block : ApeTag → ℕ → Bytes
block tag flags =
    build_ape_header_footer (written_version tag) (tag_size tag) (length tag.items % 2 ^ 32) flags

abbrev pub header_flags : ℕ
header_flags = 2 ^ 29 + 2 ^ 31

abbrev pub footer_flags : ℕ
footer_flags = 2 ^ 31

unfoldable pub tag_bytes : ApeTag → Bytes
tag_bytes tag = block tag header_flags ++ (items_bytes tag.items ++ block tag footer_flags)

unfoldable pub marshal_ape_tag : ApeTag → Result ApeError Bytes
marshal_ape_tag tag = do guard (leb 1 (length tag.items)) empty_tag; ok (tag_bytes tag)

-- One round of the loop of `findExistingAPETagSize`: `none` is its `continue`.
unfoldable pub existing_at : Bytes → ℕ → Option ℕ
existing_at file offset = elim (read_at file ape_tag_header_size offset) [
  | err _ ↦ none
  | ok footer ↦
      if not (has_preamble footer) || has_bit (flags_of footer) 29
      then none
      else some (
          tag_size_of footer
          + (if has_bit (flags_of footer) 31 then ape_tag_header_size else 0)
          + (length file - (offset + ape_tag_header_size)))
]

-- The offset of the first round is negative for a file of less than 32 bytes.
unfoldable pub find_existing_ape_tag_size : Bytes → ℕ
find_existing_ape_tag_size file =
    if ltb (length file) ape_tag_header_size
    then 0
    else elim (existing_at file (length file - ape_tag_header_size)) [
      | some size ↦ size
      | none ↦
          if ltb (ape_tag_header_size + 128) (length file)
          then elim (existing_at file (length file - ape_tag_header_size - 128)) [
            | some size ↦ size
            | none ↦ 0
          ]
          else 0
    ]

-- os.Truncate refuses a negative size.
unfoldable pub write_ape_tags : Bytes → ApeTag → Result ApeError Bytes
write_ape_tags file tag = do
  let existing = find_existing_ape_tag_size file
  tag_data ← marshal_ape_tag tag
  guard (leb existing (length file)) truncate_failed
  ok (take (length file - existing) file ++ tag_data)
