-- ===== src/Ogg/PageTrip.antt =====
-- A page of go_backend/ogg_edit.go is read back as it was written.
use musi_flac.Prelude.{
  ℕ, ◌^◌, ◌≤◌, ◌<◌, ◌≡◌, refl, sym, ◌++◌, arith, length, All, length-append, take-append_eq,
  drop-append_eq, append_assoc, Bytes, IsByte, IsU32, put_le, le, le-put_le_4, le-put_le_8, ◌=ₛ◌,
  ok, slice, get_or, codes, true, ◌&&◌, ◌==◌,
}
use musi_flac.Ogg.Page.{
  OggEditPage, header_bytes, page_bytes, serialize, ogg_crc, read_full, read_header,
  read_next_ogg_edit_page, sum, byte_size,
}

-- What the fields of a Go page are, and the size that `readNextOggEditPage` gives its data.
pub record IsPage (p : OggEditPage) : Type 0 where
  pub header_type_in : IsByte p.header_type
  pub granule_in : p.granule < 2 ^ 64
  pub serial_in : IsU32 p.serial
  pub seq_in : IsU32 p.seq
  pub segments_in : All IsByte p.segments
  pub segments_size : length p.segments ≤ 255
  pub payload_size : sum p.segments ≡ length p.payload

pub read_full-append :
    (n : ℕ) (s rest : Bytes) → n ≡ length s → read_full n (s ++ rest) ≡ ok (s, rest)
unfolding read_full
read_full-append n s rest h =
    ground (arith, length-append s rest, take-append_eq n s rest h, drop-append_eq n s rest h)

pub length-header_bytes : (p : OggEditPage) (crc : ℕ) → length (header_bytes p crc) ≡ 27
unfolding header_bytes put_le
length-header_bytes p crc = refl

pub read_header-append : (h rest : Bytes) → 27 ≡ length h → read_header (h ++ rest) ≡ ok (h, rest)
unfolding read_header
read_header-append h rest e = rw (read_full-append 27 h rest e, read_header)

-- The fields that the reader takes from the header.
module _ (p : OggEditPage) (crc : ℕ) where
  pub magic_of_header :
      (slice (header_bytes p crc) 0 4 =ₛ codes "OggS" && get_or (header_bytes p crc) 4 0 == 0)
      ≡ true
  unfolding header_bytes put_le ◌=ₛ◌
  magic_of_header = refl

  pub size_of_header : IsPage p → get_or (header_bytes p crc) 26 0 ≡ length p.segments
  unfolding header_bytes put_le
  size_of_header v = omega (arith, v.segments_size)

  granule_of_header : IsPage p → le (slice (header_bytes p crc) 6 14) ≡ p.granule
  unfolding header_bytes put_le le
  granule_of_header v = unfold put_le le in le-put_le_8 p.granule v.granule_in

  serial_of_header : IsPage p → le (slice (header_bytes p crc) 14 18) ≡ p.serial
  unfolding header_bytes put_le le
  serial_of_header v = unfold put_le le in le-put_le_4 p.serial v.serial_in

  seq_of_header : IsPage p → le (slice (header_bytes p crc) 18 22) ≡ p.seq
  unfolding header_bytes put_le le
  seq_of_header v = unfold put_le le in le-put_le_4 p.seq v.seq_in

  pub type_of_header : get_or (header_bytes p crc) 5 0 ≡ p.header_type
  unfolding header_bytes put_le
  type_of_header = refl

-- The reader takes the bytes of `page_bytes` apart, whatever the checksum says.
pub read-page_bytes :
    (p : OggEditPage) (crc : ℕ) (rest : Bytes)
    → IsPage p
    → read_next_ogg_edit_page (page_bytes p crc ++ rest) ≡ ok (p, rest)
unfolding read_next_ogg_edit_page page_bytes
read-page_bytes p crc rest v = ground (
  arith,
  append_assoc (header_bytes p crc) (p.segments ++ p.payload) rest,
  append_assoc p.segments p.payload rest,
  read_header-append (header_bytes p crc) (p.segments ++ (p.payload ++ rest))
      (sym (length-header_bytes p crc)),
  magic_of_header p crc,
  size_of_header p crc v,
  granule_of_header p crc v,
  serial_of_header p crc v,
  seq_of_header p crc v,
  type_of_header p crc,
  read_full-append (length p.segments) p.segments (p.payload ++ rest) refl,
  read_full-append (sum p.segments) p.payload rest v.payload_size,
)

-- A page whose fields fit reads back as it was written, and the reader stops right behind it.
pub read-serialize :
    (p : OggEditPage) (rest : Bytes)
    → IsPage p
    → read_next_ogg_edit_page (serialize p ++ rest) ≡ ok (p, rest)
unfolding serialize
read-serialize p rest v = read-page_bytes p (ogg_crc (page_bytes p 0)) rest v

pub length-serialize : (p : OggEditPage) → length (serialize p) ≡ byte_size p
unfolding serialize page_bytes byte_size
length-serialize p =
    let crc = ogg_crc (page_bytes p 0) in
    omega (
      arith,
      length-append (header_bytes p crc) (p.segments ++ p.payload),
      length-append p.segments p.payload,
      length-header_bytes p crc,
    )
