-- ===== src/Id3/Text.antt =====
-- The texts of ID3v2 frames in go_backend/audio_metadata.go, and the package functions they use.
use musi_flac.Prelude.{
  ℕ, ◌+◌, ◌*◌, ◌/◌, ◌%◌, Bool, true, false, not, ◌&&◌, ◌||◌, [], ◌∷◌, ◌++◌, Option, none, some, ltb,
  leb, ◌==◌, if◌then◌else◌, length, get_or, drop, Bytes, ◌=ₛ◌, codes, ℤ, pos, ltb_ℤ,
}
use musi_flac.Progress.Delta.{is_listed}

-- TrimSpace, ToUpper, ToLower and EqualFold of package strings; of package strconv, whether Atoi gives no error, the
-- number it gives, also with one, and Itoa; DetectContentType of package http.
pub record Packages : Type 0 where
  pub trim_space : Bytes → Bytes
  pub to_upper : Bytes → Bytes
  pub to_lower : Bytes → Bytes
  pub equal_fold : Bytes → Bytes → Bool
  pub is_number : Bytes → Bool
  pub atoi : Bytes → ℤ
  pub itoa : ℤ → Bytes
  pub detect_content_type : Bytes → Bytes

-- `strings.TrimRight(s, "\x00")`
unfoldable pub trim_right_zeros : Bytes → Bytes
trim_right_zeros [] = []
trim_right_zeros (c ∷ s) =
    let rest = trim_right_zeros s in if c == 0 && (rest =ₛ []) then [] else c ∷ rest

-- What is before and behind the first such byte.
unfoldable pub split_byte : ℕ → Bytes → Option (Bytes × Bytes)
split_byte x [] = none
split_byte x (c ∷ s) =
    let rest : Option (Bytes × Bytes) = elim (split_byte x s) [
      | none ↦ none
      | some (before, after) ↦ some (c ∷ before, after)
    ] in
    if c == x then some ([], s) else rest

-- What is before and behind the first pair of zeros at an even place.
unfoldable pub split_wide_zero : Bytes → Option (Bytes × Bytes)
split_wide_zero [] = none
split_wide_zero (a ∷ []) = none
split_wide_zero (a ∷ b ∷ s) =
    let rest : Option (Bytes × Bytes) = elim (split_wide_zero s) [
      | none ↦ none
      | some (before, after) ↦ some (a ∷ b ∷ before, after)
    ] in
    if a == 0 && b == 0 then some ([], s) else rest

-- The conversion of a rune below 2 ^ 16 to a string; a surrogate becomes U+FFFD.
unfoldable pub rune_bytes : ℕ → Bytes
rune_bytes r =
    if ltb r 0x80
    then r ∷ []
    else if ltb r 0x800
    then (0xc0 + r / 64) ∷ (0x80 + r % 64) ∷ []
    else if leb 0xd800 r && leb r 0xdfff
    then 0xef ∷ 0xbf ∷ 0xbd ∷ []
    else (0xe0 + r / 4096) ∷ (0x80 + r / 64 % 64) ∷ (0x80 + r % 64) ∷ []

unfoldable pub decode_utf16_data : Bytes → Bool → Bytes
decode_utf16_data [] little_endian = []
decode_utf16_data (a ∷ []) little_endian = []
decode_utf16_data (a ∷ b ∷ rest) little_endian =
    let r = if little_endian then a + 256 * b else 256 * a + b in
    let later = decode_utf16_data rest little_endian in if r == 0 then [] else rune_bytes r ++ later

unfoldable pub decode_utf16 : Bytes → Bytes
decode_utf16 bytes =
    if ltb (length bytes) 2
    then []
    else if get_or bytes 0 0 == 0xff && get_or bytes 1 0 == 0xfe
    then decode_utf16_data (drop 2 bytes) true
    else if get_or bytes 0 0 == 0xfe && get_or bytes 1 0 == 0xff
    then decode_utf16_data (drop 2 bytes) false
    else decode_utf16_data bytes false

unfoldable pub extract_text_frame : Bytes → Bytes
extract_text_frame [] = []
extract_text_frame (encoding ∷ text) =
    if encoding == 1
    then decode_utf16 text
    else if encoding == 2
    then decode_utf16_data text false
    else trim_right_zeros text

abbrev pub is_wide : ℕ → Bool
is_wide encoding = encoding == 1 || encoding == 2

unfoldable pub extract_lang_text_frame : Bytes → Bytes
extract_lang_text_frame bytes =
    let encoding = get_or bytes 0 0 in
    let rest = drop 4 bytes in
    let wide : Bytes = elim (split_wide_zero rest) [ none ↦ [] | some (_, after) ↦ after ] in
    let narrow : Bytes = elim (split_byte 0 rest) [
      | none ↦ rest
      | some (_, after) ↦ if after =ₛ [] then rest else after
    ] in
    let text = if is_wide encoding then wide else narrow in
    if ltb (length bytes) 5 || (text =ₛ []) then [] else extract_text_frame (encoding ∷ text)

unfoldable pub first_text_value : Bytes → Bytes
first_text_value s = elim (split_byte 0 s) [ none ↦ s | some (before, _) ↦ before ]

module _ (go : Packages) where
  -- The description and the value.
  unfoldable pub extract_user_text_frame : Bytes → Bytes × Bytes
  extract_user_text_frame bytes =
      let encoding = get_or bytes 0 0 in
      let split =
        if is_wide encoding then split_wide_zero (drop 1 bytes) else split_byte 0 (drop 1 bytes) in
      let both : Bytes × Bytes = elim split [
        | none ↦ ([], [])
        | some (description, value) ↦ if value =ₛ [] then ([], []) else (
          go.trim_space (extract_text_frame (encoding ∷ description)),
          go.trim_space (extract_text_frame (encoding ∷ value)),
        )
      ] in
      if ltb (length bytes) 2 then ([], []) else both

  -- `s[:idx]` and `s[idx+1:]` at the first `/`, unless it comes first; else the text and nothing.
  unfoldable pub split_slash : Bytes → Bytes × Bytes
  split_slash s = elim (split_byte b'/' s) [
    | none ↦ (s, [])
    | some (before, after) ↦ if before =ₛ [] then (s, []) else (before, after)
  ]

  -- The number and the total of a text such as `3/12`. Atoi gives 0 for an empty text.
  unfoldable pub parse_index_pair : Bytes → ℤ × ℤ
  parse_index_pair text =
      let s = go.trim_space text in
      let (first, second) = split_slash s in
      if s =ₛ []
      then (pos 0, pos 0)
      else (go.atoi (go.trim_space first), go.atoi (go.trim_space second))

  unfoldable pub parse_positive_int : Bytes → ℤ
  parse_positive_int value =
      if go.trim_space value =ₛ [] then pos 0 else go.atoi (go.trim_space value)

  -- `"%d/%d"`, the number alone, or nothing.
  unfoldable pub format_index_value : ℤ → ℤ → Bytes
  format_index_value number total =
      if not (ltb_ℤ (pos 0) number)
      then []
      else if ltb_ℤ (pos 0) total
      then go.itoa number ++ (b'/' ∷ go.itoa total)
      else go.itoa number

  -- `isTruthyTagValue`
  unfoldable pub is_truthy_tag_value : Bytes → Bool
  is_truthy_tag_value v =
      let text = go.to_lower (go.trim_space v) in
      (text =ₛ codes "1")
      || (text =ₛ codes "true")
      || (text =ₛ codes "yes")
      || (text =ₛ codes "explicit")

  unfoldable pub is_lyrics_description : Bytes → Bool
  is_lyrics_description description = is_listed (go.to_lower (go.trim_space description)) (
      codes "lyrics"
      ∷ codes "lyric"
      ∷ codes "unsyncedlyrics"
      ∷ codes "unsynced lyrics"
      ∷ codes "syncedlyrics"
      ∷ codes "synced lyrics"
      ∷ codes "uslt"
      ∷ codes "sylt"
      ∷ codes "lrc"
      ∷ [])
