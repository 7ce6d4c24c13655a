-- ===== src/Id3/Panic.antt =====
-- Genres that make `cleanGenre` of go_backend/audio_metadata.go panic, and the reader with it.
use musi_flac.Prelude.{
  ℕ, ◌+◌, ◌≤◌, ◌≡◌, refl, ap, ◌∙◌, Bool, true, false, ◌||◌, [], ◌∷◌, ◌++◌, none, some, leb, ◌==◌,
  length, Bytes, codes, ◌=ₛ◌, arith, negsuc, length-append,
}
use musi_flac.Id3.{Frame, serialize_id3v24_tag}
use musi_flac.Id3.Text.{
  Packages, split_byte, extract_text_frame, first_text_value, trim_right_zeros,
}
use musi_flac.Id3.Genres.{clean_genre, genre_at}
use musi_flac.Id3.Apply.{zero_metadata, apply_id3_frame, apply_other, with_genre}
use musi_flac.Id3.Frames.{AreWritable}
use musi_flac.Id3.Walk.{panicked, finished, go_on, read_id3v2, is_wanted, max_id3_frame_bytes}
use musi_flac.Id3.ReadBack.{read-serialize_id3v24}
use musi_flac.Id3.Seen.{seen, resume, all_seen, IsReadable}

-- A number in parentheses.
abbrev pub parenthesised : Bytes → Bytes
parenthesised number = b'(' ∷ (number ++ (b')' ∷ []))

-- A frame with a genre as UTF-8.
abbrev pub genre_frame : Bytes → Frame
genre_frame genre = record { id = codes "TCON"; payload = 3 ∷ genre }

unfoldable pub has_byte : ℕ → Bytes → Bool
has_byte x [] = false
has_byte x (b ∷ s) = b == x || has_byte x s

is_empty-end : (s : Bytes) (c : ℕ) → (s ++ (c ∷ []) =ₛ []) ≡ false
unfolding ◌=ₛ◌
is_empty-end [] c = refl
is_empty-end (b ∷ s) c = refl

trim_right_zeros-end :
    (s : Bytes) (c : ℕ) → (c == 0) ≡ false → trim_right_zeros (s ++ (c ∷ [])) ≡ s ++ (c ∷ [])
unfolding trim_right_zeros
trim_right_zeros-end [] c h = ground (arith, h)
trim_right_zeros-end (b ∷ s) c h = ground (arith, trim_right_zeros-end s c h, is_empty-end s c)

split_byte-none :
    (x c : ℕ) (s : Bytes)
    → has_byte x s ≡ false
    → (c == x) ≡ false
    → split_byte x (s ++ (c ∷ [])) ≡ none
unfolding split_byte has_byte
split_byte-none x c [] e h = ground (arith, h)
split_byte-none x c (b ∷ s) e h = ground (arith, e, split_byte-none x c s (ground (arith, e)) h)

split_byte-end :
    (x : ℕ) (s : Bytes) → has_byte x s ≡ false → split_byte x (s ++ (x ∷ [])) ≡ some (s, [])
unfolding split_byte has_byte
split_byte-end x [] e = ground arith
split_byte-end x (b ∷ s) e = ground (arith, e, split_byte-end x s (ground (arith, e)))

module _ (go : Packages) where
  -- The genre is a number in parentheses, and the number is negative.
  clean_genre-panics :
      (number : Bytes) (n : ℕ)
      → has_byte b')' number ≡ false
      → go.is_number number ≡ true
      → go.atoi number ≡ negsuc n
      → clean_genre go (parenthesised number) ≡ none
  unfolding clean_genre genre_at ◌=ₛ◌
  clean_genre-panics number n plain numeric negative =
      let split : split_byte b')' (parenthesised number) ≡ some (b'(' ∷ number, []) =
        split_byte-end b')' (b'(' ∷ number) (unfold has_byte in ground (arith, plain)) in
      ground (arith, split, numeric, negative)

  -- The text of the genre's frame is the genre.
  genre_text :
      (number : Bytes)
      → has_byte 0 number ≡ false
      → first_text_value (extract_text_frame (3 ∷ parenthesised number)) ≡ parenthesised number
  unfolding first_text_value extract_text_frame
  genre_text number plain =
      let trimmed = trim_right_zeros-end (b'(' ∷ number) b')' refl in
      let whole =
        split_byte-none 0 b')' (b'(' ∷ number) (unfold has_byte in ground (arith, plain)) refl in
      ground (arith, trimmed, whole)

  with_genre-panics :
      (value : Bytes) → clean_genre go value ≡ none → with_genre go value zero_metadata ≡ none
  unfolding with_genre
  with_genre-panics value panics = ground (arith, panics)

  seen-genre :
      (payload : Bytes)
      → length payload ≤ max_id3_frame_bytes
      → clean_genre go (first_text_value (extract_text_frame payload)) ≡ none
      → seen go (record { id = codes "TCON"; payload = payload }) zero_metadata ≡ none
  unfolding seen apply_id3_frame apply_other is_wanted ◌=ₛ◌
  seen-genre payload fits panics =
      let fit : leb (length payload) max_id3_frame_bytes ≡ true = ground (arith, fits) in
      let value = first_text_value (extract_text_frame payload) in
      rw fit (with_genre-panics value panics)

  -- A file whose tag holds one frame, a genre that is a negative number in parentheses such as `(-1)`,
  -- makes the reader panic, if Atoi takes the number, it has no zero and no further parenthesis, and the
  -- frame is within the limits of the tag and of the reader.
  pub read_id3v2-panics :
      (number audio : Bytes) (n : ℕ)
      → has_byte b')' number ≡ false
      → has_byte 0 number ≡ false
      → go.is_number number ≡ true
      → go.atoi number ≡ negsuc n
      → AreWritable (genre_frame (parenthesised number) ∷ [])
      → length number + 3 ≤ max_id3_frame_bytes
      → read_id3v2 go (serialize_id3v24_tag (genre_frame (parenthesised number) ∷ []) ++ audio)
        ≡ panicked
  unfolding all_seen resume go_on
  read_id3v2-panics number audio n plain no_zero numeric negative h fits =
      let frame = genre_frame (parenthesised number) in
      let readable : IsReadable go frame = record {
        frame_lem = h.each.0;
        no_footer = unfold ◌=ₛ◌ in refl;
      } in
      let none_seen = seen-genre frame.payload (omega (arith, length-append number (b')' ∷ []))) (
        ap (clean_genre go) (genre_text number no_zero)
        ∙ clean_genre-panics number n plain numeric negative) in
      read-serialize_id3v24 go (frame ∷ []) audio h (readable, tt)
      ∙ ap (λ o. go_on finished (resume (all_seen go []) o)) none_seen
