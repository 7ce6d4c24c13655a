-- ===== src/Vorbis/Keys.antt =====
-- The keys of `applyVorbisFieldEdits` of go_backend/metadata.go, which are in capital letters.
use musi_flac.Prelude.{
  is_capital, KeepsCapitals, ◌≡◌, refl, subst, inl, inr, Bool, true, false, not, ◌&&◌, ◌||◌, List,
  [], ◌∷◌, none, some, arith, Bool-cases, Option-cases, Bytes, codes, ◌=ₛ◌, =ₛ_iff, All, All-append,
}
use musi_flac.Prelude.Dict.{lookup}
use musi_flac.Id3.Text.{Packages}
use musi_flac.Vorbis.{before_equals, has_key}
use musi_flac.Vorbis.Set.{IsKey, own}
use musi_flac.Vorbis.Fields.{simple_keys, has_field}
use musi_flac.Vorbis.Untouched.{
  touched_by, touched_rows, touched_aliases, touched_index, touched_rest, is_plain, literal-IsKey,
}
use musi_flac.Vorbis.Filtered.{filtered, Spared}

-- Rows of `simpleKeys`, as Go may visit them.
abbrev pub AreRows : List (Bytes × Bytes) → Type 0
AreRows rows = All (λ row. lookup row.0 simple_keys ≡ some row.1) rows

pub lookup-All :
    (Q : Bytes → Type 0) (f k : Bytes) (m : List (Bytes × Bytes))
    → All (λ row. Q row.1) m
    → lookup f m ≡ some k
    → Q k
unfolding lookup
lookup-All Q f k [] h e = cc
lookup-All Q f k ((j, v) ∷ m) h e = elim (Bool-cases (j =ₛ f)) [
  | inl same ↦ subst Q (ground (arith, e, same)) h.0
  | inr other ↦ lookup-All Q f k m h.1 (ground (arith, e, other))
]

-- A test of every key of a list.
abbrev pub are : (Bytes → Bool) → List Bytes → Bool
are q [] = true
are q (k ∷ ks) = q k && are q ks

pub are_All : (q : Bytes → Bool) (ks : List Bytes) → are q ks ≡ true → All (λ k. q k ≡ true) ks
are_All q [] h = tt
are_All q (k ∷ ks) h = (ground (arith, h), are_All q ks (ground (arith, h)))

-- The keys that the parts behind `simpleKeys` can touch.
abbrev pub rest_keys : List Bytes
rest_keys =
    codes "LABEL"
    ∷ codes "PUBLISHER"
    ∷ codes "YEAR"
    ∷ codes "ARTIST"
    ∷ codes "ALBUMARTIST"
    ∷ codes "ALBUM ARTIST"
    ∷ codes "ALBUM_ARTIST"
    ∷ codes "TRACKNUMBER"
    ∷ codes "TRACK"
    ∷ codes "DISCNUMBER"
    ∷ codes "DISC"
    ∷ codes "SYNCEDLYRICS"
    ∷ codes "LYRICS"
    ∷ codes "UNSYNCEDLYRICS"
    ∷ []

abbrev keys_of : List (Bytes × Bytes) → List Bytes
keys_of [] = []
keys_of ((_, key) ∷ rows) = key ∷ keys_of rows

module _ (go : Packages) (pieces : Bytes → List Bytes) (fields : List (Bytes × Bytes))
    (Q : Bytes → Type 0) where
  touched_by-All :
      (field : Bytes) (keys : List Bytes)
      → All Q keys
      → All Q (touched_by go pieces fields field keys)
  unfolding touched_by
  touched_by-All field keys h =
      elim (lookup field fields) as (λ o. All Q (elim o [ none ↦ [] | some _ ↦ keys ])) [
        | none ↦ tt
        | some v ↦ h
      ]

  touched_index-All :
      (number_field total_field : Bytes) (keys : List Bytes)
      → All Q keys
      → All Q (touched_index go pieces fields number_field total_field keys)
  unfolding touched_index
  touched_index-All number_field total_field keys h =
      elim (Bool-cases
        (has_field go pieces fields number_field || has_field go pieces fields total_field)) [
          | inl there ↦ rw there h
          | inr absent ↦ rw absent tt
        ]

  pub touched_rest-All : All Q rest_keys → All Q (touched_rest go pieces fields)
  unfolding touched_rest touched_aliases
  touched_rest-All
        (
          label,
          (
            publisher,
            (
              year,
              (
                artist,
                (
                  album_artist,
                  (
                    album_artist',
                    (
                      album_artist'',
                      (track, (track', (disc, (disc', (synced, (lyrics, (unsynced, end))))))),
                    ),
                  ),
                ),
              ),
            ),
          ),
        ) =
      All-append Q _ _
        (All-append Q _ _ (touched_by-All (codes "label") _ (label, (publisher, tt))) (
          All-append Q _ _ (touched_by-All (codes "date") _ (year, tt)) (
            All-append Q _ _ (touched_by-All (codes "genre") [] tt)
              (All-append Q _ _ (touched_by-All (codes "copyright") [] tt) tt))))
        (All-append Q _ _ (touched_by-All (codes "artist") _ (artist, tt)) (
          All-append Q _ _
            (touched_by-All (codes "album_artist") _
              (album_artist, (album_artist', (album_artist'', tt))))
            (All-append Q _ _
              (touched_index-All (codes "track_number") (codes "track_total") _
                (track, (track', tt)))
              (All-append Q _ _
                (touched_index-All (codes "disc_number") (codes "disc_total") _ (disc, (disc', tt)))
                (touched_by-All (codes "lyrics") _ (synced, (lyrics, (unsynced, tt))))))))

  pub touched_rows-All :
      (rows : List (Bytes × Bytes))
      → All (λ row. Q row.1) rows
      → All Q (touched_rows go pieces fields rows)
  unfolding touched_rows
  touched_rows-All [] h = tt
  touched_rows-All ((field, key) ∷ rows) h =
      All-append Q _ _ (touched_by-All field (key ∷ []) (h.0, tt)) (touched_rows-All rows h.1)

pub simple_keys-IsKey : All (λ row. IsKey row.1) simple_keys
unfolding ◌=ₛ◌
simple_keys-IsKey =
    let key = λ (k : Bytes) (filled : (k =ₛ []) ≡ false) (plain : is_plain k ≡ true).
      literal-IsKey k filled plain in
    (
      key (codes "TITLE") refl refl,
      (
        key (codes "ALBUM") refl refl,
        (
          key (codes "DATE") refl refl,
          (
            key (codes "ISRC") refl refl,
            (
              key (codes "GENRE") refl refl,
              (
                key (codes "ORGANIZATION") refl refl,
                (
                  key (codes "COPYRIGHT") refl refl,
                  (
                    key (codes "COMPOSER") refl refl,
                    (
                      key (codes "COMMENT") refl refl,
                      (
                        key (codes "ITUNESADVISORY") refl refl,
                        (
                          key (codes "RELEASETYPE") refl refl,
                          (
                            key (codes "BARCODE") refl refl,
                            (
                              key (codes "BARCODE") refl refl,
                              (
                                key (codes "COMPILATION") refl refl,
                                (
                                  key (codes "REPLAYGAIN_TRACK_GAIN") refl refl,
                                  (
                                    key (codes "REPLAYGAIN_TRACK_PEAK") refl refl,
                                    (
                                      key (codes "REPLAYGAIN_ALBUM_GAIN") refl refl,
                                      (key (codes "REPLAYGAIN_ALBUM_PEAK") refl refl, tt),
                                    ),
                                  ),
                                ),
                              ),
                            ),
                          ),
                        ),
                      ),
                    ),
                  ),
                ),
              ),
            ),
          ),
        ),
      ),
    )

-- A test of the key of every row.
pub rows_All :
    (q : Bytes → Bool) (rows : List (Bytes × Bytes))
    → are q (keys_of rows) ≡ true
    → All (λ row. q row.1 ≡ true) rows
rows_All q [] h = tt
rows_All q ((field, key) ∷ rows) h = (ground (arith, h), rows_All q rows (ground (arith, h)))

pub simple_keys_capital : All (λ row. is_capital row.1 ≡ true) simple_keys
simple_keys_capital = rows_All is_capital simple_keys refl

pub simple_keys_apart :
    All (λ row. are (λ j. is_capital j && not (j =ₛ row.1)) rest_keys ≡ true) simple_keys
unfolding ◌=ₛ◌
simple_keys_apart =
    rows_All (λ k. are (λ j. is_capital j && not (j =ₛ k)) rest_keys) simple_keys refl

pub AreRows_all :
    (Q : Bytes → Type 0) (rows : List (Bytes × Bytes))
    → All (λ row. Q row.1) simple_keys
    → AreRows rows
    → All (λ row. Q row.1) rows
AreRows_all Q [] h r = tt
AreRows_all Q ((field, key) ∷ rows) h r =
    (lookup-All Q field key simple_keys h r.0, AreRows_all Q rows h r.1)

pub AreRows-IsKey : (rows : List (Bytes × Bytes)) → AreRows rows → All (λ row. IsKey row.1) rows
AreRows-IsKey rows r = AreRows_all IsKey rows simple_keys-IsKey r

module _ (go : Packages) where
  -- The comment is under one of the keys.
  unfoldable pub has_any : List Bytes → Bytes → Bool
  has_any [] c = false
  has_any (key ∷ keys) c = has_key go.to_upper key c || has_any keys c

  pub Spared-any :
      (keys some_keys : List Bytes)
      → ((c : Bytes) → has_any some_keys c ≡ true → has_any keys c ≡ true)
      → All (Spared go (λ c. not (has_any keys c))) some_keys
  unfolding has_any
  Spared-any keys [] sub = tt
  Spared-any keys (k ∷ ks) sub = (
    λ c own. ground (arith, sub c (ground (arith, own))),
    Spared-any keys ks (λ c later. sub c (ground (arith, later))),
  )

  pub own-filtered :
      (key : Bytes) (cs : List Bytes)
      → own go.to_upper key cs ≡ filtered (has_key go.to_upper key) cs
  unfolding own filtered
  own-filtered key [] = refl
  own-filtered key (c ∷ cs) = ground (arith, own-filtered key cs)

  -- A comment is under one key only.
  pub Spared-other :
      (key k : Bytes)
      → KeepsCapitals go.to_upper
      → is_capital key ≡ true
      → (is_capital k && not (k =ₛ key)) ≡ true
      → Spared go (has_key go.to_upper key) k
  unfolding has_key
  Spared-other key k keeps capital other c own = elim (Option-cases (before_equals c)) [
    | inl none_there ↦ rw (none_there, has_key) refl
    | inr (before, there) ↦
        let a : go.to_upper k ≡ k = keeps k (ground (arith, other)) in
        let b : go.to_upper key ≡ key = keeps key capital in
        let e : (go.to_upper before =ₛ k) ≡ true = ground (arith, own, there, a) in
        let d : (k =ₛ key) ≡ false = ground (arith, other) in
        rw (there, has_key) (rw b (rw ((=ₛ_iff (go.to_upper before) k).0 e) (ground (arith, d))))
  ]

  pub Spared-all :
      (key : Bytes)
      → KeepsCapitals go.to_upper
      → is_capital key ≡ true
      → (ks : List Bytes) → All (λ k. (is_capital k && not (k =ₛ key)) ≡ true) ks
      → All (Spared go (has_key go.to_upper key)) ks
  Spared-all key keeps capital [] h = tt
  Spared-all key keeps capital (k ∷ ks) h =
      (Spared-other key k keeps capital h.0, Spared-all key keeps capital ks h.1)
