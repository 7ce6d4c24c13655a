-- ===== src/Ogg/Page.antt =====
-- Ogg pages of go_backend/ogg_edit.go: the checksum, `serialize` and `readNextOggEditPage`.
-- An io.Reader is the list of the bytes that are still to be read; its only error is its end.
use Prim.Native.Nat.{bit_and, bit_xor}
use musi_flac.Prelude.{
  ℕ, zero, suc, ◌+◌, ◌*◌, ◌/◌, ◌%◌, ◌^◌, Bool, true, false, ◌&&◌, [], ◌∷◌, ◌++◌, leb, ◌==◌,
  if◌then◌else◌, length, take, drop, get_or, slice, Bytes, put_le, le, codes, ◌=ₛ◌, Result, ok, err,
  ◌>>=◌, ◌>>◌, guard,
}

pub record OggEditPage : Type 0 where
  pub header_type : ℕ
  pub granule : ℕ
  pub serial : ℕ
  pub seq : ℕ
  pub segments : Bytes
  pub payload : Bytes

-- The errors of the file, one for each message; `eof` and `unexpected_eof` are those of package io.
pub data OggError : Type 0 where
  eof unexpected_eof truncated_page_header invalid_page : OggError
  header_shares_page header_incomplete too_many_pages multiplexed : OggError
  stream_too_short unsupported_codec comment_not_found : OggError
  comment_block_too_short bad_vendor_length truncated_comment_list truncated_comment : OggError
  edit_refused no_comments : OggError

-- One of the eight rounds that make an entry of `oggCRCTable`.
crc_round : ℕ → ℕ
crc_round r =
    let shifted = r * 2 % 2 ^ 32 in
    if bit_and r 0x8000_0000 == 0 then shifted else bit_xor shifted 0x04c1_1db7

crc_rounds : ℕ → ℕ → ℕ
crc_rounds zero r = r
crc_rounds (suc n) r = crc_rounds n (crc_round r)

unfoldable pub ogg_crc_table : ℕ → ℕ
unfolding crc_round crc_rounds
ogg_crc_table i = crc_rounds 8 (i * 2 ^ 24 % 2 ^ 32)

ogg_crc_from : ℕ → Bytes → ℕ
ogg_crc_from crc [] = crc
ogg_crc_from crc (b ∷ bs) =
    ogg_crc_from (bit_xor (crc * 2 ^ 8 % 2 ^ 32) (ogg_crc_table (bit_xor (crc / 2 ^ 24 % 256) b)))
      bs

unfoldable pub ogg_crc : Bytes → ℕ
unfolding ogg_crc_from ogg_crc_table
ogg_crc = ogg_crc_from 0

-- The 27 bytes of a page header, with its checksum field.
unfoldable pub header_bytes : OggEditPage → ℕ → Bytes
header_bytes p crc =
    codes "OggS"
    ++ (0
        ∷ p.header_type
        ∷ (put_le 8 p.granule
            ++ (put_le 4 p.serial
                ++ (put_le 4 p.seq ++ (put_le 4 crc ++ (length p.segments % 256 ∷ []))))))

unfoldable pub page_bytes : OggEditPage → ℕ → Bytes
page_bytes p crc = header_bytes p crc ++ (p.segments ++ p.payload)

-- The checksum is taken over the whole page with its own field zero.
unfoldable pub serialize : OggEditPage → Bytes
serialize p = page_bytes p (ogg_crc (page_bytes p 0))

abbrev is_empty : Bytes → Bool
is_empty [] = true
is_empty (b ∷ bs) = false

-- `io.ReadFull` into a slice of `n` bytes: what it reads, and what is left.
unfoldable pub read_full : ℕ → Bytes → Result OggError (Bytes × Bytes)
read_full n r =
    if leb n (length r)
    then ok (take n r, drop n r)
    else if is_empty r
    then err eof
    else err unexpected_eof

unfoldable pub sum : Bytes → ℕ
sum [] = 0
sum (s ∷ ss) = s + sum ss

-- The read of the header, with the errors that the function makes of those of package io.
unfoldable pub read_header : Bytes → Result OggError (Bytes × Bytes)
read_header r = elim (read_full 27 r) [
  | ok got ↦ ok got
  | err eof ↦ err eof
  | err _ ↦ err truncated_page_header
]

unfoldable pub read_next_ogg_edit_page : Bytes → Result OggError (OggEditPage × Bytes)
read_next_ogg_edit_page r = do
  (header, r₁) ← read_header r
  guard (slice header 0 4 =ₛ codes "OggS" && get_or header 4 0 == 0) invalid_page
  (segments, r₂) ← read_full (get_or header 26 0) r₁
  (payload, r₃) ← read_full (sum segments) r₂
  ok (
    record {
      header_type = get_or header 5 0;
      granule = le (slice header 6 14);
      serial = le (slice header 14 18);
      seq = le (slice header 18 22);
      segments = segments;
      payload = payload;
    },
    r₃,
  )

unfoldable pub byte_size : OggEditPage → ℕ
byte_size p = 27 + length p.segments + length p.payload
