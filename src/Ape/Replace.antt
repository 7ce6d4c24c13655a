-- ===== src/Ape/Replace.antt =====
-- `WriteAPETags` of go_backend/ape_tags.go on files with and without a tag.
use musi_flac.Prelude.{
  ◌≤◌, ◌+◌, ◌-◌, ◌≡◌, ◌⊎◌, sym, inl, inr, [], ◌++◌, arith, length, take, take-append_eq, append-nil,
  Bytes, ok, none,
}
use musi_flac.Ape.Tag.{ApeTag, ape_tag_header_size, read_ape_tags_from_reader}
use musi_flac.Ape.Write.{
  tag_bytes, marshal_ape_tag, existing_at, find_existing_ape_tag_size, write_ape_tags,
}
use musi_flac.Ape.Layout.{IsWritable}
use musi_flac.Ape.RoundTrip.{as_read, read-appended, found_at, file_size, length-tag}

-- A tag at the end of a file is found.
found_last :
    (tag : ApeTag) (base : Bytes)
    → IsWritable tag
    → find_existing_ape_tag_size (base ++ tag_bytes tag) ≡ length (tag_bytes tag)
unfolding find_existing_ape_tag_size
found_last tag base w = rw (sym (append-nil (tag_bytes tag))) (
    ground (
      arith,
      file_size tag w base [],
      length-tag tag w,
      append-nil (tag_bytes tag),
      found_at tag w base [] (length (base ++ (tag_bytes tag ++ [])) - 32),
    ))

-- A tag with 128 bytes behind it is found, unless they end in something that is taken for a tag.
found_before :
    (tag : ApeTag) (base after : Bytes)
    → IsWritable tag
    → length after ≡ 128
    → let file = base ++ (tag_bytes tag ++ after) in
      existing_at file (length file - ape_tag_header_size) ≡ none
      → find_existing_ape_tag_size (base ++ (tag_bytes tag ++ after)) ≡ length (tag_bytes tag) + 128
unfolding find_existing_ape_tag_size
found_before tag base after w h none_last =
    let file = base ++ (tag_bytes tag ++ after) in
    ground (
      arith,
      file_size tag w base after,
      length-tag tag w,
      found_at tag w base after (length file - ape_tag_header_size - 128),
    )

-- Where the tag that is found in a file is not larger than the file, a write of a tag within the
-- reader's limits succeeds, and what it makes of the file reads back as the tag, with its version
-- number filled in and no read-only flag, whatever stood in the file before.
pub read-write_ape_tags :
    (file : Bytes) (tag : ApeTag)
    → IsWritable tag
    → find_existing_ape_tag_size file ≤ length file
    → (out : Bytes) × (write_ape_tags file tag ≡ ok out)
      × (read_ape_tags_from_reader out ≡ ok (as_read tag))
unfolding write_ape_tags marshal_ape_tag
read-write_ape_tags file tag w fits = (
  take (length file - find_existing_ape_tag_size file) file ++ tag_bytes tag,
  ground (arith, w.filled, fits),
  read-appended tag w (take (length file - find_existing_ape_tag_size file) file),
)

-- For tags within the reader's limits, a write replaces the tag of an earlier write exactly: what
-- stood before it is kept, and nothing of the old tag is left. So it does where an ID3v1 tag of 128
-- bytes follows the old tag, unless its last 32 bytes are taken for an APE footer; the ID3v1 tag
-- goes with the old tag.
pub write_ape_tags-replaces :
    (old new : ApeTag) (base after : Bytes)
    → IsWritable old
    → IsWritable new
    → (after ≡ [])
      ⊎ ((length after ≡ 128)
          × (existing_at
                (base ++ (tag_bytes old ++ after))
                (length (base ++ (tag_bytes old ++ after)) - ape_tag_header_size)
              ≡ none))
    → write_ape_tags (base ++ (tag_bytes old ++ after)) new ≡ ok (base ++ tag_bytes new)
unfolding write_ape_tags marshal_ape_tag
write_ape_tags-replaces old new base after w v h =
    let file = base ++ (tag_bytes old ++ after) in
    let size : find_existing_ape_tag_size file ≡ length (tag_bytes old) + length after = elim h [
      | inl e ↦ ground (arith, e, append-nil (tag_bytes old), found_last old base w)
      | inr (n, none_last) ↦ ground (arith, n, found_before old base after w n none_last)
    ] in
    ground (
      arith,
      v.filled,
      size,
      file_size old w base after,
      take-append_eq (length file - (length (tag_bytes old) + length after)) base
          (tag_bytes old ++ after),
    )
