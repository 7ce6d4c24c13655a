-- ===== src/Ape/Tests.antt =====
-- Runs of the APEv2 code of go_backend/ape_tags.go, and its theorems at concrete inputs.
use musi_flac.Prelude.{
  to_upper-KeepsCapitals, ◌≤◌, ◌-◌, ◌≡◌, refl, inl, inr, true, false, [], ◌∷◌, ◌++◌, arith, length,
  replicate, Bytes, put_le, codes, ◌=ₛ◌, to_upper, to_upper_byte, ok, none,
}
use musi_flac.Ape.Tag.{ApeTagItem, ApeTag, ape_tag_header_size, read_ape_tags_from_reader, read_at}
use musi_flac.Ape.Write.{
  items_bytes, tag_bytes, marshal_ape_tag, existing_at, find_existing_ape_tag_size, write_ape_tags,
  build_ape_header_footer,
}
use musi_flac.Ape.Merge.{kept_items, has, upper_all, item_keys, of_key, merge_ape_items}
use musi_flac.Ape.Fields.{ape_keys_from_fields, year-kept}
use musi_flac.Ape.Layout.{IsWritable}
use musi_flac.Ape.RoundTrip.{as_read}
use musi_flac.Ape.Replace.{read-write_ape_tags, write_ape_tags-replaces}

abbrev title : ApeTagItem
title = record { key = codes "Title"; value = codes "One"; flags = 0 }

abbrev cover : ApeTagItem
cover = record { key = codes "Cover"; value = 0 ∷ 255 ∷ []; flags = 2 }

abbrev artist : ApeTagItem
artist = record { key = codes "ARTIST"; value = codes "A"; flags = 0 }

abbrev old_tag : ApeTag
old_tag = record { version = 0; items = title ∷ cover ∷ []; read_only = false }

abbrev new_tag : ApeTag
new_tag = record { version = 1000; items = artist ∷ []; read_only = true }

old_tag-IsWritable : IsWritable old_tag
unfolding items_bytes put_le
old_tag-IsWritable = record {
  filled = omega arith;
  few = omega arith;
  items_ok = (
    record {
      key_ok = (omega arith, (omega arith, (omega arith, (omega arith, (omega arith, tt)))));
      value_ok = omega arith;
      flags_ok = omega arith;
    },
    (
      record {
        key_ok = (omega arith, (omega arith, (omega arith, (omega arith, (omega arith, tt)))));
        value_ok = omega arith;
        flags_ok = omega arith;
      },
      tt,
    ),
  );
  size_ok = omega arith;
  version_ok = inl refl;
}

new_tag-IsWritable : IsWritable new_tag
unfolding items_bytes put_le
new_tag-IsWritable = record {
  filled = omega arith;
  few = omega arith;
  items_ok = (
    record {
      key_ok = (
        omega arith,
        (omega arith, (omega arith, (omega arith, (omega arith, (omega arith, tt))))),
      );
      value_ok = omega arith;
      flags_ok = omega arith;
    },
    tt,
  );
  size_ok = omega arith;
  version_ok = inr (inl refl);
}

abbrev audio : Bytes
audio = codes "MAC audio"

abbrev written : Bytes
written = audio ++ tag_bytes new_tag

write_on_audio : write_ape_tags audio new_tag ≡ ok written
unfolding write_ape_tags marshal_ape_tag find_existing_ape_tag_size
write_on_audio = refl

no_tag : find_existing_ape_tag_size audio ≤ length audio
unfolding find_existing_ape_tag_size
no_tag = omega arith

read-write_ape_tags_example :
    (out : Bytes) × (write_ape_tags audio new_tag ≡ ok out)
    × (read_ape_tags_from_reader out ≡ ok (as_read new_tag))
read-write_ape_tags_example = read-write_ape_tags audio new_tag new_tag-IsWritable no_tag

-- An ID3v1 tag without text.
abbrev id3v1 : Bytes
id3v1 = codes "TAG" ++ replicate 125 0

not_taken :
    existing_at
      (audio ++ (tag_bytes old_tag ++ id3v1))
      (length (audio ++ (tag_bytes old_tag ++ id3v1)) - ape_tag_header_size)
    ≡ none
unfolding existing_at read_at tag_bytes items_bytes build_ape_header_footer put_le ◌=ₛ◌
not_taken = refl

write_ape_tags-replaces_example :
    write_ape_tags (audio ++ (tag_bytes old_tag ++ id3v1)) new_tag ≡ ok (audio ++ tag_bytes new_tag)
write_ape_tags-replaces_example =
    write_ape_tags-replaces old_tag new_tag audio id3v1 old_tag-IsWritable new_tag-IsWritable
      (inr (refl, not_taken))

-- A cleared title is gone, and the cover stays.
cleared_title :
    merge_ape_items to_upper (title ∷ cover ∷ []) (artist ∷ []) (codes "Title" ∷ [])
    ≡ cover ∷ artist ∷ []
unfolding merge_ape_items kept_items has upper_all item_keys to_upper to_upper_byte ◌=ₛ◌
cleared_title = refl

abbrev year : ApeTagItem
year = record { key = codes "Year"; value = codes "1999"; flags = 0 }

-- The date is cleared, and the year stays.
year-kept_example :
    of_key to_upper
      (codes "YEAR")
      (merge_ape_items to_upper (year ∷ cover ∷ []) [] (ape_keys_from_fields (codes "date" ∷ [])))
    ≡ of_key to_upper (codes "YEAR") (year ∷ cover ∷ [])
unfolding has item_keys
year-kept_example =
    year-kept to_upper (year ∷ cover ∷ []) [] (codes "date" ∷ []) to_upper-KeepsCapitals
