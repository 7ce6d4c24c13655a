-- ===== src/Ogg/Listed.antt =====
-- What `parseVorbisComments` of go_backend/audio_metadata_ogg.go makes of a list of comments.
use musi_flac.Prelude.{
  KeepsCapitals, is_capital, ◌≡◌, ◌⊎◌, refl, ap, ◌∙◌, inl, inr, true, false, ◌||◌, List, [], ◌∷◌,
  Option, none, some, arith, ◌==◌, if◌then◌else◌, Bool-cases, Bytes, codes, ◌=ₛ◌, =ₛ_iff, =ₛ_self,
  All, ℤ,
}
use musi_flac.Id3.Text.{Packages, split_byte}
use musi_flac.Id3.Apply.{AudioMetadata}
use musi_flac.Vorbis.{before_equals, comment_of, has_key}
use musi_flac.Vorbis.Set.{IsKey, own}
use musi_flac.Ogg.Reader.{
  Reading, with_track, with_disc, with_opus_gain, with_gain, with_shared, with_comment, apply_pair,
  apply_comment, finished,
}

-- The fields of one text that the editor and the reader know under one key alone.
pub data PlainField : Type 0 where
  title album genre isrc composer copyright : PlainField

abbrev pub field_of : PlainField → Bytes
field_of title = codes "title"
field_of album = codes "album"
field_of genre = codes "genre"
field_of isrc = codes "isrc"
field_of composer = codes "composer"
field_of copyright = codes "copyright"

abbrev pub key_of : PlainField → Bytes
key_of title = codes "TITLE"
key_of album = codes "ALBUM"
key_of genre = codes "GENRE"
key_of isrc = codes "ISRC"
key_of composer = codes "COMPOSER"
key_of copyright = codes "COPYRIGHT"

abbrev pub value_of : PlainField → AudioMetadata → Bytes
value_of title m = m.title
value_of album m = m.album
value_of genre m = m.genre
value_of isrc m = m.isrc
value_of composer m = m.composer
value_of copyright m = m.copyright

abbrev texts : AudioMetadata → Bytes × Bytes × Bytes × Bytes × Bytes × Bytes
texts m = (m.title, m.album, m.genre, m.isrc, m.composer, m.copyright)

texts_kept :
    (f : PlainField) (m m' : AudioMetadata) → texts m' ≡ texts m → value_of f m' ≡ value_of f m
texts_kept title m m' e = ap (λ t. t.0) e
texts_kept album m m' e = ap (λ t. t.1) e
texts_kept genre m m' e = ap (λ t. t.2) e
texts_kept isrc m m' e = ap (λ t. t.3) e
texts_kept composer m m' e = ap (λ t. t.4) e
texts_kept copyright m m' e = ap (λ t. t.5) e

-- A text is one of two only if they are the same.
pub exclusive : (k i j : Bytes) → (i =ₛ j) ≡ false → (k =ₛ i) ≡ true → (k =ₛ j) ≡ false
exclusive k i j apart same = rw ((=ₛ_iff k i).0 same) apart

module _ (go : Packages) (parse_int16 : Bytes → Option ℤ) (gain_text : ℤ → Bytes) where
  texts-track :
      (value : Bytes) (m : AudioMetadata)
      → texts (with_track go parse_int16 gain_text value m) ≡ texts m
  unfolding with_track
  texts-track value m = refl

  texts-disc :
      (value : Bytes) (m : AudioMetadata)
      → texts (with_disc go parse_int16 gain_text value m) ≡ texts m
  unfolding with_disc
  texts-disc value m = refl

  texts-gain :
      (key value : Bytes) (m : AudioMetadata)
      → texts (with_gain go parse_int16 gain_text key value m) ≡ texts m
  unfolding with_gain with_opus_gain
  texts-gain key value m = ground arith

  texts-shared :
      (key value : Bytes) (m : AudioMetadata)
      → texts (with_shared go parse_int16 gain_text key value m) ≡ texts m
  unfolding with_shared
  texts-shared key value m =
      ground (arith, texts-track value m, texts-disc value m, texts-gain key value m)

  with_comment-value :
      (f : PlainField) (key value : Bytes) (m : AudioMetadata)
      → value_of f (with_comment go parse_int16 gain_text key value m)
        ≡ (if key =ₛ key_of f then value else value_of f m)
  unfolding with_comment ◌=ₛ◌
  with_comment-value title key value m =
      ground (arith, texts_kept title m _ (texts-shared key value m))
  with_comment-value album key value m = ground (
    arith,
    texts_kept album m _ (texts-shared key value m),
    exclusive key (codes "TITLE") (codes "ALBUM") refl,
  )
  with_comment-value genre key value m = ground (
    arith,
    texts_kept genre m _ (texts-shared key value m),
    exclusive key (codes "TITLE") (codes "GENRE") refl,
    exclusive key (codes "ALBUM") (codes "GENRE") refl,
  )
  with_comment-value isrc key value m = ground (
    arith,
    texts_kept isrc m _ (texts-shared key value m),
    exclusive key (codes "TITLE") (codes "ISRC") refl,
    exclusive key (codes "ALBUM") (codes "ISRC") refl,
    exclusive key (codes "GENRE") (codes "ISRC") refl,
  )
  with_comment-value composer key value m = ground (
    arith,
    texts_kept composer m _ (texts-shared key value m),
    exclusive key (codes "TITLE") (codes "COMPOSER") refl,
    exclusive key (codes "ALBUM") (codes "COMPOSER") refl,
    exclusive key (codes "GENRE") (codes "COMPOSER") refl,
    exclusive key (codes "ISRC") (codes "COMPOSER") refl,
  )
  with_comment-value copyright key value m = ground (
    arith,
    texts_kept copyright m _ (texts-shared key value m),
    exclusive key (codes "TITLE") (codes "COPYRIGHT") refl,
    exclusive key (codes "ALBUM") (codes "COPYRIGHT") refl,
    exclusive key (codes "GENRE") (codes "COPYRIGHT") refl,
    exclusive key (codes "ISRC") (codes "COPYRIGHT") refl,
    exclusive key (codes "COMPOSER") (codes "COPYRIGHT") refl,
  )

-- The keys of artists are none of these.
artists_apart :
    (f : PlainField)
    → ((codes "ARTIST" =ₛ key_of f) ≡ false)
      × ((codes "ALBUMARTIST" =ₛ key_of f) ≡ false)
      × ((codes "ALBUM_ARTIST" =ₛ key_of f) ≡ false)
      × ((codes "ALBUM ARTIST" =ₛ key_of f) ≡ false)
unfolding ◌=ₛ◌
artists_apart title = (refl, refl, refl, refl)
artists_apart album = (refl, refl, refl, refl)
artists_apart genre = (refl, refl, refl, refl)
artists_apart isrc = (refl, refl, refl, refl)
artists_apart composer = (refl, refl, refl, refl)
artists_apart copyright = (refl, refl, refl, refl)

pub key_of-capital : (f : PlainField) → is_capital (key_of f) ≡ true
key_of-capital title = refl
key_of-capital album = refl
key_of-capital genre = refl
key_of-capital isrc = refl
key_of-capital composer = refl
key_of-capital copyright = refl

key_of_filled : (f : PlainField) → ([] =ₛ key_of f) ≡ false
unfolding ◌=ₛ◌
key_of_filled title = refl
key_of_filled album = refl
key_of_filled genre = refl
key_of_filled isrc = refl
key_of_filled composer = refl
key_of_filled copyright = refl

before-split :
    (c : Bytes)
    → before_equals c
      ≡ (elim (split_byte b'=' c) as (λ _. Option Bytes) [ none ↦ none | some (key, _) ↦ some key ])
unfolding before_equals split_byte
before-split [] = refl
before-split (x ∷ c) = ground (arith, before-split c)

split-comment_of :
    (key v : Bytes)
    → All (λ c. (c == b'=') ≡ false) key
    → split_byte b'=' (comment_of key v) ≡ some (key, v)
unfolding split_byte comment_of
split-comment_of [] v h = refl
split-comment_of (c ∷ key) v h = ground (arith, h.0, split-comment_of key v h.1)

split_cases :
    (c : Bytes)
    → (split_byte b'=' c ≡ none) ⊎ ((k : Bytes) × (v : Bytes) × (split_byte b'=' c ≡ some (k, v)))
split_cases c = go (split_byte b'=' c)
  where
    go : (o : Option (Bytes × Bytes)) → (o ≡ none) ⊎ ((k : Bytes) × (v : Bytes) × (o ≡ some (k, v)))
    go none = inl refl
    go (some (k, v)) = inr (k, v, refl)

module _ (go : Packages) (parse_int16 : Bytes → Option ℤ) (gain_text : ℤ → Bytes) where
  apply_pair-value :
      (f : PlainField) (key value : Bytes) (r : Reading)
      → value_of f (apply_pair go parse_int16 gain_text key value r).metadata
        ≡ (if key =ₛ key_of f then value else value_of f r.metadata)
  unfolding apply_pair
  apply_pair-value f key value r =
      let (a, b, c, d) = artists_apart f in
      elim (Bool-cases (key =ₛ codes "ARTIST")) [
        | inl artist ↦ rw artist (rw (exclusive key (codes "ARTIST") (key_of f) a artist) refl)
        | inr other ↦
            rw other
              (elim (Bool-cases (
                (key =ₛ codes "ALBUMARTIST")
                || (key =ₛ codes "ALBUM_ARTIST")
                || (key =ₛ codes "ALBUM ARTIST"))) [
                  | inl album_artist ↦
                      let differs : (key =ₛ key_of f) ≡ false = ground (
                        arith,
                        album_artist,
                        exclusive key (codes "ALBUMARTIST") (key_of f) b,
                        exclusive key (codes "ALBUM_ARTIST") (key_of f) c,
                        exclusive key (codes "ALBUM ARTIST") (key_of f) d,
                      ) in
                      rw album_artist (rw differs refl)
                  | inr tag ↦
                      rw tag (with_comment-value go parse_int16 gain_text f key value r.metadata)
                ])
      ]

  pub apply_comment-none :
      (c : Bytes) (r : Reading)
      → split_byte b'=' c ≡ none
      → apply_comment go parse_int16 gain_text c r ≡ r
  unfolding apply_comment
  apply_comment-none c r none_there = ground (arith, none_there)

  apply_comment-pair :
      (c k v : Bytes) (r : Reading)
      → split_byte b'=' c ≡ some (k, v)
      → apply_comment go parse_int16 gain_text c r
        ≡ apply_pair go parse_int16 gain_text (go.to_upper k) v r
  unfolding apply_comment
  apply_comment-pair c k v r there = ground (arith, there)

  apply_comment-other :
      (f : PlainField) (c : Bytes) (r : Reading)
      → KeepsCapitals go.to_upper
      → has_key go.to_upper (key_of f) c ≡ false
      → value_of f (apply_comment go parse_int16 gain_text c r).metadata ≡ value_of f r.metadata
  apply_comment-other f c r keeps other = elim (split_cases c) [
    | inl none_there ↦
        ap (λ (r' : Reading). value_of f r'.metadata) (apply_comment-none c r none_there)
    | inr (k, v, there) ↦
        let before : before_equals c ≡ some k = before-split c ∙ ground (arith, there) in
        let key : go.to_upper (key_of f) ≡ key_of f = keeps (key_of f) (key_of-capital f) in
        let empty : go.to_upper [] ≡ [] = keeps [] refl in
        let differs : (go.to_upper k =ₛ key_of f) ≡ false = elim (Bool-cases (k =ₛ [])) [
          | inl blank ↦ rw ((=ₛ_iff k []).0 blank) (rw empty (key_of_filled f))
          | inr filled ↦ unfold has_key in ground (arith, other, before, key, filled)
        ] in
        ap (λ (r' : Reading). value_of f r'.metadata) (apply_comment-pair c k v r there)
        ∙ apply_pair-value f (go.to_upper k) v r
        ∙ ground (arith, differs)
  ]

  apply_comment-own :
      (f : PlainField) (v : Bytes) (r : Reading)
      → KeepsCapitals go.to_upper
      → IsKey (key_of f)
      → value_of f (apply_comment go parse_int16 gain_text (comment_of (key_of f) v) r).metadata ≡ v
  apply_comment-own f v r keeps k =
      let key : go.to_upper (key_of f) ≡ key_of f = keeps (key_of f) (key_of-capital f) in
      ap (λ (r' : Reading). value_of f r'.metadata)
        (apply_comment-pair (comment_of (key_of f) v) (key_of f) v r
          (split-comment_of (key_of f) v k.plain))
      ∙ apply_pair-value f (go.to_upper (key_of f)) v r
      ∙ ground (arith, key, =ₛ_self (key_of f))

  -- All comments of a list, one after another.
  unfoldable pub apply_all : List Bytes → Reading → Reading
  apply_all [] r = r
  apply_all (c ∷ cs) r = apply_all cs (apply_comment go parse_int16 gain_text c r)

  pub apply_all-none :
      (f : PlainField) (cs : List Bytes) (r : Reading)
      → KeepsCapitals go.to_upper
      → own go.to_upper (key_of f) cs ≡ []
      → value_of f (apply_all cs r).metadata ≡ value_of f r.metadata
  unfolding apply_all own
  apply_all-none f [] r keeps none_there = refl
  apply_all-none f (c ∷ cs) r keeps none_there =
      elim (Bool-cases (has_key go.to_upper (key_of f) c)) [
        | inl own_key ↦ absurd (ground (arith, own_key, none_there))
        | inr other ↦
            apply_all-none f cs _ keeps (ground (arith, other, none_there))
            ∙ apply_comment-other f c r keeps other
      ]

  pub apply_all-one :
      (f : PlainField) (v : Bytes) (cs : List Bytes) (r : Reading)
      → KeepsCapitals go.to_upper
      → IsKey (key_of f)
      → own go.to_upper (key_of f) cs ≡ comment_of (key_of f) v ∷ []
      → value_of f (apply_all cs r).metadata ≡ v
  unfolding apply_all own
  apply_all-one f v [] r keeps k one = cc
  apply_all-one f v (c ∷ cs) r keeps k one = elim (Bool-cases (has_key go.to_upper (key_of f) c)) [
    | inl own_key ↦
        let this : c ≡ comment_of (key_of f) v = ground (arith, own_key, one) in
        let later : own go.to_upper (key_of f) cs ≡ [] = ground (arith, own_key, one) in
        apply_all-none f cs _ keeps later
        ∙ ap (λ c'. value_of f (apply_comment go parse_int16 gain_text c' r).metadata) this
        ∙ apply_comment-own f v r keeps k
    | inr other ↦ apply_all-one f v cs _ keeps k (ground (arith, other, one))
  ]

  pub finished-value :
      (f : PlainField) (r : Reading)
      → value_of f (finished go parse_int16 gain_text r) ≡ value_of f r.metadata
  unfolding finished
  finished-value title r = refl
  finished-value album r = refl
  finished-value genre r = refl
  finished-value isrc r = refl
  finished-value composer r = refl
  finished-value copyright r = refl
