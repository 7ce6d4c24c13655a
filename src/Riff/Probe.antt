-- ===== src/Riff/Probe.antt =====
-- `streamProbeWAV`, `streamProbeAIFF` and `parseRIFFInfo` of go_backend/wav_aiff.go.
use musi_flac.Prelude.{
  ℕ, zero, suc, ◌+◌, ◌*◌, Bool, true, false, not, ◌&&◌, ◌||◌, List, [], ltb, leb, ◌==◌,
  if◌then◌else◌, length, take, drop, slice, Bytes, le, be, codes, ◌=ₛ◌, Result, ok, err, ◌>>=◌,
}
use musi_flac.Prelude.Dict.{insert}
use musi_flac.Id3.Text.{trim_right_zeros}
use musi_flac.Riff.{RiffError, not_a_wave_file, not_an_aiff_file, read_header, read_uint32, pad_of}

-- What a chunk does to a probe: the walk goes on, or returns.
pub data Step (P : Type 0) : Type 0 where
  goes_on : P → Step P
  returns : P → Step P

unfoldable pub proceed : {P : Type 0} → (P → P) → Step P → P
proceed next (goes_on p) = next p
proceed next (returns p) = p

-- The walk over the chunks. `step` has the id, the size and the bytes of a chunk, fewer than its size
-- where the file ends.
module _ {P : Type 0} (little : Bool) (step : Bytes → ℕ → Bytes → P → Step P) where
  unfoldable pub probe_loop : ℕ → Bytes → P → P
  probe_loop zero bytes p = p
  probe_loop (suc fuel) bytes p =
      let size = read_uint32 little (slice bytes 4 8) in
      let body = drop 8 bytes in
      let after = drop (size + pad_of size) body in
      if ltb (length bytes) 8
      then p
      else proceed (probe_loop fuel after) (step (take 4 bytes) size (take size body) p)

abbrev pub wav_max_meta_chunk : ℕ
wav_max_meta_chunk = 16 * 1048576

-- `size > 0 && size <= wavMaxMetaChunk`, and `io.ReadFull` gives all of it.
abbrev pub is_buffered : ℕ → Bytes → Bool
is_buffered size body = ltb 0 size && leb size wav_max_meta_chunk && length body == size

pub record WavProbe : Type 0 where
  pub sample_rate : ℕ
  pub bit_depth : ℕ
  pub channels : ℕ
  pub byte_rate : ℕ
  pub data_size : ℕ
  pub id3 : Bytes
  pub info : List (Bytes × Bytes)

pub record AiffProbe : Type 0 where
  pub sample_rate : ℕ
  pub bit_depth : ℕ
  pub channels : ℕ
  pub num_frames : ℕ
  pub id3 : Bytes
  pub name_chunk : Bytes
  pub auth_chunk : Bytes
  pub anno_chunk : Bytes
  pub copyright_chunk : Bytes

abbrev pub zero_wav : WavProbe
zero_wav = record {
  sample_rate = 0;
  bit_depth = 0;
  channels = 0;
  byte_rate = 0;
  data_size = 0;
  id3 = [];
  info = [];
}

abbrev pub zero_aiff : AiffProbe
zero_aiff = record {
  sample_rate = 0;
  bit_depth = 0;
  channels = 0;
  num_frames = 0;
  id3 = [];
  name_chunk = [];
  auth_chunk = [];
  anno_chunk = [];
  copyright_chunk = [];
}

-- The fields of a `fmt ` chunk, where it has them.
unfoldable pub with_format : Bytes → WavProbe → WavProbe
with_format buf p =
    let bits = le (slice buf 14 16) in
    let valid = le (slice buf 18 20) in
    let is_extensible = le (slice buf 0 2) == 0xfffe && leb 26 (length buf) in
    if ltb (length buf) 16 then p else record p {
      channels = le (slice buf 2 4);
      sample_rate = le (slice buf 4 8);
      byte_rate = le (slice buf 8 12);
      bit_depth = if is_extensible && ltb 0 valid then valid else bits;
    }

-- `trim` is TrimSpace of package strings, `rate` the sample rate of the 80-bit number, in float64.
module _ (trim : Bytes → Bytes) (rate : Bytes → ℕ) where
  -- The loop of `parseRIFFInfo`, behind `INFO`.
  unfoldable pub info_loop : ℕ → Bytes → List (Bytes × Bytes) → List (Bytes × Bytes)
  info_loop zero buf info = info
  info_loop (suc fuel) buf info =
      let size = le (slice buf 4 8) in
      let body = drop 8 buf in
      let info' = insert (take 4 buf) (trim (trim_right_zeros (take size body))) info in
      let rest = info_loop fuel (drop (size + pad_of size) body) info' in
      if ltb (length buf) 8 || size == 0 || ltb (length body) size then info else rest

  unfoldable pub parse_riff_info : Bytes → List (Bytes × Bytes) → List (Bytes × Bytes)
  parse_riff_info buf info =
      if ltb (length buf) 4 || not (take 4 buf =ₛ codes "INFO")
      then info
      else info_loop (length buf) (drop 4 buf) info

  unfoldable pub wav_chunk : Bytes → ℕ → Bytes → WavProbe → Step WavProbe
  wav_chunk id size body p =
      if id =ₛ codes "fmt "
      then if ltb (length body) size then returns p else goes_on (with_format body p)
      else if id =ₛ codes "data"
      then goes_on (record p { data_size = size })
      else if (id =ₛ codes "id3 ") || (id =ₛ codes "ID3 ")
      then goes_on (if is_buffered size body then record p { id3 = body } else p)
      else if id =ₛ codes "LIST"
      then goes_on
          (if is_buffered size body then record p { info = parse_riff_info body p.info } else p)
      else goes_on p

  unfoldable pub stream_probe_wav : Bytes → Result RiffError WavProbe
  stream_probe_wav file = read_header file >>= λ header.
      if not (take 4 header =ₛ codes "RIFF") || not (slice header 8 12 =ₛ codes "WAVE")
      then err not_a_wave_file
      else ok (probe_loop true wav_chunk (length file) (drop 12 file) zero_wav)

  unfoldable pub with_common : Bytes → AiffProbe → AiffProbe
  with_common buf p = if ltb (length buf) 18 then p else record p {
    channels = be (slice buf 0 2);
    num_frames = be (slice buf 2 6);
    bit_depth = be (slice buf 6 8);
    sample_rate = rate (slice buf 8 18);
  }

  -- The chunks of text.
  unfoldable pub with_text : Bytes → Bytes → AiffProbe → AiffProbe
  with_text id buf p =
      let val = trim_right_zeros (trim buf) in
      if id =ₛ codes "NAME"
      then record p { name_chunk = val }
      else if id =ₛ codes "AUTH"
      then record p { auth_chunk = val }
      else if id =ₛ codes "ANNO"
      then record p { anno_chunk = val }
      else if id =ₛ codes "(c) "
      then record p { copyright_chunk = val }
      else p

  unfoldable pub aiff_chunk : Bytes → ℕ → Bytes → AiffProbe → Step AiffProbe
  aiff_chunk id size body p =
      if id =ₛ codes "COMM"
      then if ltb (length body) size then returns p else goes_on (with_common body p)
      else if (id =ₛ codes "ID3 ") || (id =ₛ codes "id3 ")
      then goes_on (if is_buffered size body then record p { id3 = body } else p)
      else goes_on (if is_buffered size body then with_text id body p else p)

  unfoldable pub stream_probe_aiff : Bytes → Result RiffError AiffProbe
  stream_probe_aiff file = read_header file >>= λ header.
      let form = slice header 8 12 in
      if not (take 4 header =ₛ codes "FORM")
        || not ((form =ₛ codes "AIFF") || (form =ₛ codes "AIFC"))
      then err not_an_aiff_file
      else ok (probe_loop false aiff_chunk (length file) (drop 12 file) zero_aiff)
