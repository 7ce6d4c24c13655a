-- ===== src/Ape/Layout.antt =====
-- The layout of an APEv2 tag of go_backend/ape_tags.go: its items and the fields of its footer.
use musi_flac.Prelude.{
  ℕ, ◌+◌, ◌%◌, ◌^◌, ◌≤◌, ◌<◌, ◌≡◌, ◌⊎◌, refl, true, false, List, [], ◌∷◌, ◌++◌, arith, length, take,
  drop, All, length-append, take-append_eq, drop-append_eq, Bytes, IsU32, put_le, le, ◌=ₛ◌, ok,
  some,
}
use musi_flac.Ape.Tag.{
  ApeTagItem, ApeTag, ape_tag_header_size, has_bit, read_at, split_key, parse_ape_items, version_of,
  tag_size_of, item_count_of, flags_of, has_preamble,
}
use musi_flac.Ape.Write.{build_ape_header_footer, items_bytes, footer_flags}

-- A key without a zero byte, and numbers that fit their fields.
pub record IsItem (i : ApeTagItem) : Type 0 where
  pub key_ok : All (λ c. 0 < c) i.key
  pub value_ok : IsU32 (length i.value)
  pub flags_ok : IsU32 i.flags

-- A tag that the reader's limits admit.
pub record IsWritable (tag : ApeTag) : Type 0 where
  pub filled : 1 ≤ length tag.items
  pub few : length tag.items ≤ 1000
  pub items_ok : All IsItem tag.items
  pub size_ok : length (items_bytes tag.items) + ape_tag_header_size < 2 ^ 32
  pub version_ok : (tag.version ≡ 0) ⊎ (tag.version ≡ 1000) ⊎ (tag.version ≡ 2000)

-- Part of a file, by its place.
pub read_at-middle :
    (a b c : Bytes) (file : Bytes) (n offset : ℕ)
    → file ≡ a ++ (b ++ c)
    → n ≡ length b
    → offset ≡ length a
    → read_at file n offset ≡ ok b
unfolding read_at
read_at-middle a b c file n offset f h o = ground (
  arith,
  drop-append_eq offset a (b ++ c) o,
  take-append_eq n b c h,
  length-append a (b ++ c),
  length-append b c,
)

split_key-append :
    (key after : Bytes) → All (λ c. 0 < c) key → split_key (key ++ (0 ∷ after)) ≡ some (key, after)
unfolding split_key
split_key-append [] after h = refl
split_key-append (c ∷ key) after h = ground (arith, split_key-append key after h.1)

-- The two numbers in front of an item.
size_field :
    (v f : ℕ) (rest : Bytes)
    → le (take 4 (put_le 4 (v % 2 ^ 32) ++ (put_le 4 f ++ rest))) ≡ v % 2 ^ 32
unfolding le put_le
size_field v f rest = omega arith

flags_field :
    (v f : ℕ) (rest : Bytes)
    → IsU32 f
    → le (take 4 (drop 4 (put_le 4 v ++ (put_le 4 f ++ rest)))) ≡ f
unfolding le put_le
flags_field v f rest h = omega arith

after_fields : (v f : ℕ) (rest : Bytes) → drop 8 (put_le 4 v ++ (put_le 4 f ++ rest)) ≡ rest
unfolding put_le
after_fields v f rest = refl

length_fields :
    (v f : ℕ) (rest : Bytes) → length (put_le 4 v ++ (put_le 4 f ++ rest)) ≡ 8 + length rest
unfolding put_le
length_fields v f rest = omega arith

-- The items come back from what is written for them.
pub parse-items_bytes :
    (is : List ApeTagItem) → All IsItem is → parse_ape_items (length is) (items_bytes is) ≡ is
unfolding parse_ape_items items_bytes
parse-items_bytes [] h = refl
parse-items_bytes (i ∷ is) h =
    let after = i.value ++ items_bytes is in
    let rest = i.key ++ (0 ∷ after) in
    ground (
      arith,
      h.0.value_ok,
      size_field (length i.value) i.flags rest,
      flags_field (length i.value % 2 ^ 32) i.flags rest h.0.flags_ok,
      after_fields (length i.value % 2 ^ 32) i.flags rest,
      length_fields (length i.value % 2 ^ 32) i.flags rest,
      split_key-append i.key after h.0.key_ok,
      length-append i.value (items_bytes is),
      take-append_eq (length i.value) i.value (items_bytes is) refl,
      drop-append_eq (length i.value) i.value (items_bytes is) refl,
      parse-items_bytes is h.1,
    )

-- The fields of a header or footer.
module _ (v s c f : ℕ) where
  pub version_field : IsU32 v → version_of (build_ape_header_footer v s c f) ≡ v
  unfolding build_ape_header_footer put_le le
  version_field h = omega arith

  pub tag_size_field : IsU32 s → tag_size_of (build_ape_header_footer v s c f) ≡ s
  unfolding build_ape_header_footer put_le le
  tag_size_field h = omega arith

  pub item_count_field : IsU32 c → item_count_of (build_ape_header_footer v s c f) ≡ c
  unfolding build_ape_header_footer put_le le
  item_count_field h = omega arith

  pub block_flags_field : IsU32 f → flags_of (build_ape_header_footer v s c f) ≡ f
  unfolding build_ape_header_footer put_le le
  block_flags_field h = omega arith

  pub preamble_field : has_preamble (build_ape_header_footer v s c f) ≡ true
  unfolding build_ape_header_footer put_le ◌=ₛ◌
  preamble_field = refl

  pub length-block : length (build_ape_header_footer v s c f) ≡ 32
  unfolding build_ape_header_footer put_le
  length-block = refl

pub footer_bits :
    (has_bit footer_flags 29 ≡ false)
    × (has_bit footer_flags 31 ≡ true)
    × (has_bit footer_flags 0 ≡ false)
unfolding has_bit
footer_bits = (refl, refl, refl)
