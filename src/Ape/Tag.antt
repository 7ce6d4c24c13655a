-- ===== src/Ape/Tag.antt =====
-- Reading of APEv2 tags in go_backend/ape_tags.go. A file, or an io.ReaderAt with its size, is the
-- list of its bytes; a ReadAt fails only where it reaches past the end. `int64` does not wrap here.
use musi_flac.Prelude.{
  ℕ, zero, suc, ◌+◌, ◌-◌, ◌/◌, ◌%◌, ◌^◌, Bool, not, ◌||◌, List, [], ◌∷◌, ltb, leb, ◌==◌,
  if◌then◌else◌, length, take, drop, slice, Bytes, le, codes, ◌=ₛ◌, Result, ok, err, ◌>>=◌, ◌>>◌,
  guard, Option, none, some,
}

pub record ApeTagItem : Type 0 where
  pub key : Bytes
  pub value : Bytes
  pub flags : ℕ

pub record ApeTag : Type 0 where
  pub version : ℕ
  pub items : List ApeTagItem
  pub read_only : Bool

-- The errors of the file, one for each message.
pub data ApeError : Type 0 where
  file_too_small invalid_footer_offset read_failed no_preamble : ApeError
  unsupported_version size_too_small too_many_items header_found items_before_start : ApeError
  no_tag_found empty_tag truncate_failed : ApeError

abbrev pub ape_tag_preamble : Bytes
ape_tag_preamble = codes "APETAGEX"

abbrev pub ape_tag_header_size : ℕ
ape_tag_header_size = 32

abbrev pub ape_tag_version_2000 : ℕ
ape_tag_version_2000 = 2000

-- A test of one bit: `flags & (1 << k) != 0`.
unfoldable pub has_bit : ℕ → ℕ → Bool
has_bit flags k = flags / 2 ^ k % 2 == 1

-- `ReadAt` into a slice of `n` bytes.
unfoldable pub read_at : Bytes → ℕ → ℕ → Result ApeError Bytes
read_at file n offset =
    if leb (offset + n) (length file) then ok (take n (drop offset file)) else err read_failed

-- The scan for the zero byte that ends a key: the key, and what follows the zero byte.
unfoldable pub split_key : Bytes → Option (Bytes × Bytes)
split_key [] = none
split_key (c ∷ s) =
    let rest = split_key s in
    if c == 0
    then some ([], s)
    else elim rest [ none ↦ none | some (key, after) ↦ some (c ∷ key, after) ]

-- The loop, with `count` rounds to go: `data[pos:]` is `rest`. Where an item is cut short the loop
-- stops with the items it has. `int` has 64 bits, so `valueSize` is not negative.
unfoldable pub parse_ape_items : ℕ → Bytes → List ApeTagItem
parse_ape_items zero rest = []
parse_ape_items (suc count) rest =
    if leb 8 (length rest)
    then elim (split_key (drop 8 rest)) [
      | none ↦ []
      | some (key, after) ↦
          let value_size = le (take 4 rest) in
          let items = parse_ape_items count (drop value_size after) in
          if leb value_size (length after)
          then record {
            key = key;
            value = take value_size after;
            flags = le (take 4 (drop 4 rest));
          }
            ∷ items
          else []
    ]
    else []

-- The fields of a footer.
abbrev pub version_of : Bytes → ℕ
version_of footer = le (slice footer 8 12)

abbrev pub tag_size_of : Bytes → ℕ
tag_size_of footer = le (slice footer 12 16)

abbrev pub item_count_of : Bytes → ℕ
item_count_of footer = le (slice footer 16 20)

abbrev pub flags_of : Bytes → ℕ
flags_of footer = le (slice footer 20 24)

abbrev pub has_preamble : Bytes → Bool
has_preamble footer = take 8 footer =ₛ ape_tag_preamble

unfoldable pub parse_ape_tag_from_footer : Bytes → ℕ → Bytes → Result ApeError ApeTag
parse_ape_tag_from_footer file footer_offset footer = do
  guard (version_of footer == ape_tag_version_2000 || version_of footer == 1000) unsupported_version
  guard (leb ape_tag_header_size (tag_size_of footer)) size_too_small
  guard (leb (item_count_of footer) 1000) too_many_items
  guard (not (has_bit (flags_of footer) 29)) header_found
  let items_size = tag_size_of footer - ape_tag_header_size
  guard (leb items_size footer_offset) items_before_start
  items_data ← read_at file items_size (footer_offset - items_size)
  ok (record {
    version = version_of footer;
    items = parse_ape_items (item_count_of footer) items_data;
    read_only = has_bit (flags_of footer) 0;
  })

-- The one of the two tries of `ReadAPETagsFromReader`, at an offset.
unfoldable pub try_footer : Bytes → ℕ → Result ApeError ApeTag
try_footer file offset = do
  footer ← read_at file ape_tag_header_size offset
  guard (has_preamble footer) no_preamble
  parse_ape_tag_from_footer file offset footer

-- The first try may fail by its read too, but the read of the last 32 bytes of a file that has them
-- does not.
unfoldable pub read_ape_tags_from_reader : Bytes → Result ApeError ApeTag
read_ape_tags_from_reader file =
    if ltb (length file) ape_tag_header_size
    then err file_too_small
    else elim (try_footer file (length file - ape_tag_header_size)) [
      | ok tag ↦ ok tag
      | err _ ↦
          if ltb (ape_tag_header_size + 128) (length file)
          then elim (try_footer file (length file - ape_tag_header_size - 128)) [
            | ok tag ↦ ok tag
            | err _ ↦ err no_tag_found
          ]
          else err no_tag_found
    ]

unfoldable pub read_ape_tag_at_offset : Bytes → ℕ → Result ApeError ApeTag
read_ape_tag_at_offset file footer_offset = do
  guard (leb (footer_offset + ape_tag_header_size) (length file)) invalid_footer_offset
  footer ← read_at file ape_tag_header_size footer_offset
  guard (has_preamble footer) no_preamble
  guard (version_of footer == ape_tag_version_2000 || version_of footer == 1000) unsupported_version
  guard (leb ape_tag_header_size (tag_size_of footer)) size_too_small
  guard (leb (item_count_of footer) 1000) too_many_items
  guard (not (has_bit (flags_of footer) 29)) header_found
  let items_size = tag_size_of footer - ape_tag_header_size
  guard (leb items_size footer_offset) items_before_start
  items_data ← read_at file items_size (footer_offset - items_size)
  ok (record {
    version = version_of footer;
    items = parse_ape_items (item_count_of footer) items_data;
    read_only = has_bit (flags_of footer) 0;
  })

unfoldable pub read_ape_tags : Bytes → Result ApeError ApeTag
read_ape_tags file =
    if ltb (length file) ape_tag_header_size
    then err file_too_small
    else elim (read_ape_tag_at_offset file (length file - ape_tag_header_size)) [
      | ok tag ↦ ok tag
      | err _ ↦
          if ltb (ape_tag_header_size + 128) (length file)
          then elim (read_ape_tag_at_offset file (length file - ape_tag_header_size - 128)) [
            | ok tag ↦ ok tag
            | err _ ↦ err no_tag_found
          ]
          else err no_tag_found
    ]
