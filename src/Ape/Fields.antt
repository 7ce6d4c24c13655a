-- ===== src/Ape/Fields.antt =====
-- `apeKeysFromFields` of go_backend/ape_tags.go: which items of a tag an edit of some fields drops.
-- Of the map of fields only its keys are read, so `fields` is the list of them. A set of keys, in
-- which an addition is made twice or in another order, is the same set: it is a list here.
use musi_flac.Prelude.{
  is_capital, KeepsCapitals, not, ◌≡◌, refl, sym, Bool, true, false, ◌&&◌, ◌||◌, List, [], ◌∷◌,
  ◌++◌, arith, if◌then◌else◌, Bytes, codes, ◌=ₛ◌, =ₛ_iff, to_upper, to_upper_byte, subst,
}
use musi_flac.Ape.Tag.{ApeTagItem}
use musi_flac.Ape.Merge.{
  has, upper_all, item_keys, of_key, merge_ape_items, of_key-merge, of_key-none,
}

-- `mapping`: a field, and the key that the writer gives it.
abbrev pub mapping : List (Bytes × Bytes)
mapping =
    (codes "title", codes "TITLE")
    ∷ (codes "artist", codes "ARTIST")
    ∷ (codes "album", codes "ALBUM")
    ∷ (codes "album_artist", codes "ALBUM ARTIST")
    ∷ (codes "date", codes "DATE")
    ∷ (codes "genre", codes "GENRE")
    ∷ (codes "track_number", codes "TRACK")
    ∷ (codes "disc_number", codes "DISC")
    ∷ (codes "isrc", codes "ISRC")
    ∷ (codes "lyrics", codes "LYRICS")
    ∷ (codes "label", codes "LABEL")
    ∷ (codes "copyright", codes "COPYRIGHT")
    ∷ (codes "composer", codes "COMPOSER")
    ∷ (codes "comment", codes "COMMENT")
    ∷ (codes "explicit", codes "ITUNESADVISORY")
    ∷ (codes "album_type", codes "RELEASETYPE")
    ∷ (codes "upc", codes "BARCODE")
    ∷ (codes "compilation", codes "COMPILATION")
    ∷ (codes "replaygain_track_gain", codes "REPLAYGAIN_TRACK_GAIN")
    ∷ (codes "replaygain_track_peak", codes "REPLAYGAIN_TRACK_PEAK")
    ∷ (codes "replaygain_album_gain", codes "REPLAYGAIN_ALBUM_GAIN")
    ∷ (codes "replaygain_album_peak", codes "REPLAYGAIN_ALBUM_PEAK")
    ∷ []

-- The tests that follow the loop, each of a field and the key it adds.
abbrev pub aliases : List (Bytes × Bytes)
aliases =
    (codes "date", codes "DATE")
    ∷ (codes "disc_number", codes "DISCNUMBER")
    ∷ (codes "disc_total", codes "DISCNUMBER")
    ∷ (codes "track_number", codes "TRACKNUMBER")
    ∷ (codes "track_total", codes "TRACKNUMBER")
    ∷ (codes "album_artist", codes "ALBUMARTIST")
    ∷ (codes "label", codes "PUBLISHER")
    ∷ (codes "lyrics", codes "UNSYNCEDLYRICS")
    ∷ (codes "lyrics", codes "SYNCEDLYRICS")
    ∷ []

-- The keys of the entries whose field is there. The loop has strings.ToUpper of a key of `mapping`,
-- which has no small letters.
unfoldable pub present_keys : List Bytes → List (Bytes × Bytes) → List Bytes
present_keys fields [] = []
present_keys fields ((field, key) ∷ entries) =
    let rest = present_keys fields entries in if has field fields then to_upper key ∷ rest else rest

unfoldable pub ape_keys_from_fields : List Bytes → List Bytes
ape_keys_from_fields fields = present_keys fields mapping ++ present_keys fields aliases

-- Whether an entry is in a table.
unfoldable pub has_entry : Bytes → Bytes → List (Bytes × Bytes) → Bool
has_entry field key [] = false
has_entry field key ((f, k) ∷ entries) = f =ₛ field && k =ₛ key || has_entry field key entries

has-present :
    (fields : List Bytes) (field key : Bytes) (entries : List (Bytes × Bytes))
    → has field fields ≡ true
    → has_entry field key entries ≡ true
    → has (to_upper key) (present_keys fields entries) ≡ true
unfolding present_keys has_entry has
has-present fields field key [] h e = cc
has-present fields field key ((f, k) ∷ entries) h e = ground (
  arith,
  has-present fields field key entries h,
  =ₛ_iff f field,
  =ₛ_iff k key,
  =ₛ_iff (to_upper k) (to_upper key),
)

to_upper_idem : (s : Bytes) → to_upper (to_upper s) ≡ to_upper s
unfolding to_upper to_upper_byte
to_upper_idem [] = refl
to_upper_idem (c ∷ s) = ground (arith, to_upper_idem s)

has-upper_all :
    (k : Bytes) (ks : List Bytes)
    → has k ks ≡ true
    → has (to_upper k) (upper_all to_upper ks) ≡ true
unfolding has upper_all
has-upper_all k [] h = cc
has-upper_all k (j ∷ ks) h =
    ground (arith, has-upper_all k ks, =ₛ_iff j k, =ₛ_iff (to_upper j) (to_upper k))

present_keys-append :
    (fields : List Bytes) (a b : List (Bytes × Bytes))
    → present_keys fields (a ++ b) ≡ present_keys fields a ++ present_keys fields b
unfolding present_keys
present_keys-append fields [] b = refl
present_keys-append fields (e ∷ a) b = ground (arith, present_keys-append fields a b)

-- A key of the override set without a new item is gone.
overridden-gone :
    (existing new : List ApeTagItem) (override : List Bytes) (k : Bytes)
    → has k (upper_all to_upper override) ≡ true
    → has k (item_keys to_upper new) ≡ false
    → of_key to_upper k (merge_ape_items to_upper existing new override) ≡ []
overridden-gone existing new override k h quiet =
    ground (arith, of_key-merge to_upper k existing new override, of_key-none to_upper k new)

-- A field that is edited, and for which nothing new is written under a key that the tables have for
-- it, is gone from the merged tag under this key, whatever the old tag had of it.
pub cleared_field-gone :
    (existing new : List ApeTagItem) (fields : List Bytes) (field key : Bytes)
    → has field fields ≡ true
    → has_entry field key (mapping ++ aliases) ≡ true
    → has (to_upper key) (item_keys to_upper new) ≡ false
    → of_key to_upper
        (to_upper key)
        (merge_ape_items to_upper existing new (ape_keys_from_fields fields))
      ≡ []
unfolding ape_keys_from_fields
cleared_field-gone existing new fields field key h e quiet =
    let keys = present_keys fields (mapping ++ aliases) in
    let listed =
      has-upper_all (to_upper key) keys (has-present fields field key (mapping ++ aliases) h e) in
    rw (sym (present_keys-append fields mapping aliases)) (
      overridden-gone existing new keys (to_upper key)
        (subst (λ k. has k (upper_all to_upper keys) ≡ true) (to_upper_idem key) listed) quiet)

-- No entry of a table adds the key.
unfoldable spares : Bytes → List (Bytes × Bytes) → Bool
spares k [] = true
spares k ((field, key) ∷ entries) =
    is_capital (to_upper key) && not (to_upper key =ₛ k) && spares k entries

not-present :
    (upper : Bytes → Bytes) (k : Bytes) (fields : List Bytes) (entries : List (Bytes × Bytes))
    → KeepsCapitals upper
    → spares k entries ≡ true
    → has k (upper_all upper (present_keys fields entries)) ≡ false
unfolding present_keys spares has upper_all
not-present upper k fields [] keeps h = refl
not-present upper k fields ((field, key) ∷ entries) keeps h = ground (
  arith,
  keeps (to_upper key) (ground (arith, h)),
  h,
  not-present upper k fields entries keeps (ground (arith, h)),
)

-- No set of edited fields drops the items of the key `YEAR`, also where the date is among them: after an
-- edit, the tag has of that key the new items if the edit writes any, and else the old ones.
pub year-kept :
    (upper : Bytes → Bytes) (existing new : List ApeTagItem) (fields : List Bytes)
    → KeepsCapitals upper
    → of_key upper (codes "YEAR") (merge_ape_items upper existing new (ape_keys_from_fields fields))
      ≡ (if has (codes "YEAR") (item_keys upper new)
          then of_key upper (codes "YEAR") new
          else of_key upper (codes "YEAR") existing)
unfolding ape_keys_from_fields
year-kept upper existing new fields keeps =
    let keys = present_keys fields (mapping ++ aliases) in
    let kept =
      not-present upper (codes "YEAR") fields (mapping ++ aliases) keeps
        (unfold spares to_upper to_upper_byte ◌=ₛ◌ in refl) in
    rw (sym (present_keys-append fields mapping aliases))
      (ground (arith, of_key-merge upper (codes "YEAR") existing new keys, kept))
