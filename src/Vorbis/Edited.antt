-- ===== src/Vorbis/Edited.antt =====
-- What `applyVorbisFieldEdits` of go_backend/metadata.go leaves of every key.
use musi_flac.Prelude.{
  is_capital, KeepsCapitals, ◌≡◌, refl, sym, ap, ◌∙◌, subst, inl, inr, Bool, true, not, ◌&&◌, ◌||◌,
  List, [], ◌∷◌, ◌++◌, some, arith, if◌then◌else◌, Option-cases, Bytes, codes, ◌=ₛ◌, All,
  All-append, All-right,
}
use musi_flac.Prelude.Dict.{lookup}
use musi_flac.Id3.Text.{Packages}
use musi_flac.Vorbis.{comment_of, has_key, set_or_clear_comment}
use musi_flac.Vorbis.Set.{IsKey, own, set_or_clear_comment-IsReplaced}
use musi_flac.Vorbis.Fields.{
  simple_keys, simple_edits, rest_edits, has_field, apply_vorbis_field_edits,
}
use musi_flac.Vorbis.Untouched.{
  touched_by, touched_rows, touched_rest, touched, touched_by_found, touched_by_missing,
  on_field_found, simple_edits-filtered, rest_edits-filtered, apply_vorbis_field_edits-filtered,
}
use musi_flac.Vorbis.Filtered.{filtered, Spared}
use musi_flac.Vorbis.Keys.{
  AreRows, lookup-All, are, are_All, rest_keys, touched_rest-All, touched_rows-All,
  simple_keys-IsKey, rows_All, simple_keys_capital, simple_keys_apart, AreRows_all, AreRows-IsKey,
  has_any, Spared-any, own-filtered, Spared-other, Spared-all,
}

module _ (go : Packages) (pieces : Bytes → List Bytes) (fields : List (Bytes × Bytes)) where
  -- An edit keeps every comment that is under no key it touches, and what is no comment, in their order:
  -- it touches the keys of the fields it has, and the other names of these.
  pub apply_vorbis_field_edits-foreign :
      (rows : List (Bytes × Bytes)) (cs : List Bytes)
      → AreRows rows
      → let foreign = filtered (λ c. not (has_any go (touched go pieces fields rows) c)) in
        foreign (apply_vorbis_field_edits go pieces fields rows cs) ≡ foreign cs
  apply_vorbis_field_edits-foreign rows cs r =
      let keys = touched go pieces fields rows in
      apply_vorbis_field_edits-filtered go pieces fields (λ c. not (has_any go keys c)) rows cs
        (AreRows-IsKey rows r) (Spared-any go keys keys (λ c h. h))

  -- An edit keeps the comments of a key that it never writes or clears, whatever fields it has: so those
  -- of `UPC`, where a barcode may stand, also when the field `upc` is set or cleared.
  pub apply_vorbis_field_edits-upc :
      (rows : List (Bytes × Bytes)) (cs : List Bytes)
      → KeepsCapitals go.to_upper
      → AreRows rows
      → own go.to_upper (codes "UPC") (apply_vorbis_field_edits go pieces fields rows cs)
        ≡ own go.to_upper (codes "UPC") cs
  unfolding touched ◌=ₛ◌
  apply_vorbis_field_edits-upc rows cs keeps r =
      let upc = codes "UPC" in
      let Q = λ (k : Bytes). (is_capital k && not (k =ₛ upc)) ≡ true in
      let spared : (ks : List Bytes) → All Q ks → All (Spared go (has_key go.to_upper upc)) ks =
        Spared-all go upc keeps refl in
      let front =
        touched_rows-All go pieces fields Q rows (
          AreRows_all Q rows (rows_All (λ k. is_capital k && not (k =ₛ upc)) simple_keys refl) r) in
      let back =
        touched_rest-All go pieces fields Q
          (are_All (λ k. is_capital k && not (k =ₛ upc)) rest_keys refl) in
      own-filtered go upc (apply_vorbis_field_edits go pieces fields rows cs)
      ∙ apply_vorbis_field_edits-filtered go pieces fields (has_key go.to_upper upc) rows cs
          (AreRows-IsKey rows r) (spared _ (All-append Q _ _ front back))
      ∙ sym (own-filtered go upc cs)

  -- No row behind writes the key for a field that the edit has.
  unfoldable pub is_last : Bytes → List (Bytes × Bytes) → Bool
  is_last key [] = true
  is_last key ((field, k) ∷ rows) =
      (not (k =ₛ key) || not (has_field go pieces fields field)) && is_last key rows

  simple_edits-append :
      (front rows : List (Bytes × Bytes)) (cs : List Bytes)
      → simple_edits go pieces fields (front ++ rows) cs
        ≡ simple_edits go pieces fields rows (simple_edits go pieces fields front cs)
  unfolding simple_edits
  simple_edits-append [] rows cs = refl
  simple_edits-append ((field, key) ∷ front) rows cs = simple_edits-append front rows _

  last-Spared :
      (key : Bytes) (rows : List (Bytes × Bytes))
      → KeepsCapitals go.to_upper
      → is_capital key ≡ true
      → AreRows rows
      → is_last key rows ≡ true
      → All (Spared go (has_key go.to_upper key)) (touched_rows go pieces fields rows)
  unfolding is_last touched_rows touched_by has_field
  last-Spared key [] keeps capital r last = tt
  last-Spared key ((field, k) ∷ rows) keeps capital r last =
      let spared = Spared go (has_key go.to_upper key) in
      let later = last-Spared key rows keeps capital r.1 (ground (arith, last)) in
      let k-is =
        lookup-All (λ k. is_capital k ≡ true) field k simple_keys simple_keys_capital r.0 in
      All-append (Spared go (has_key go.to_upper key)) _ _
        (elim (Option-cases (lookup field fields)) [
          | inl missing ↦
              subst (All spared) (sym (touched_by_missing go pieces fields field (k ∷ []) missing))
                tt
          | inr (v, there) ↦
              subst (All spared) (sym (touched_by_found go pieces fields field v (k ∷ []) there))
                (Spared-other go key k keeps capital (ground (arith, last, there, k-is)), tt)
        ])
        later

  -- For a field of `simpleKeys` that the edit has, its key has afterwards the one comment of the new
  -- value, or none where it is empty, whatever stood there, if no field of the edit that Go visits later
  -- has the same key (only `upc` and `barcode` share one).
  pub apply_vorbis_field_edits-last :
      (front back : List (Bytes × Bytes)) (field key v : Bytes) (cs : List Bytes)
      → KeepsCapitals go.to_upper
      → AreRows (front ++ ((field, key) ∷ back))
      → lookup field fields ≡ some v
      → is_last key back ≡ true
      → own go.to_upper key
          (apply_vorbis_field_edits go pieces fields (front ++ ((field, key) ∷ back)) cs)
        ≡ (if v =ₛ [] then [] else comment_of key v ∷ [])
  unfolding apply_vorbis_field_edits simple_edits
  apply_vorbis_field_edits-last front back field key v cs keeps r there last =
      let own_test = has_key go.to_upper key in
      let rows =
        All-right (λ (row : Bytes × Bytes). lookup row.0 simple_keys ≡ some row.1) front
          ((field, key) ∷ back) r in
      let before = simple_edits go pieces fields front cs in
      let mine = set_or_clear_comment go.to_upper key v before in
      let after = simple_edits go pieces fields back mine in
      let is_key = lookup-All IsKey field key simple_keys simple_keys-IsKey rows.0 in
      let apart =
        lookup-All (λ k. are (λ j. is_capital j && not (j =ₛ k)) rest_keys ≡ true) field key
          simple_keys simple_keys_apart rows.0 in
      let capital =
        lookup-All (λ k. is_capital k ≡ true) field key simple_keys simple_keys_capital rows.0 in
      let rest_spared : All (Spared go own_test) (touched_rest go pieces fields) =
        touched_rest-All go pieces fields (Spared go own_test) (
          Spared-all go key keeps capital rest_keys
            (are_All (λ k. is_capital k && not (k =ₛ key)) rest_keys apart)) in
      ap (λ t. own go.to_upper key (rest_edits go pieces fields t))
        (simple_edits-append front ((field, key) ∷ back) cs
          ∙ ap (simple_edits go pieces fields back) (
              on_field_found go pieces fields own_test field v
                (set_or_clear_comment go.to_upper key) before there))
      ∙ own-filtered go key (rest_edits go pieces fields after)
      ∙ rest_edits-filtered go pieces fields own_test after rest_spared
      ∙ simple_edits-filtered go pieces fields own_test back mine (AreRows-IsKey back rows.1)
          (last-Spared key back keeps capital rows.1 last)
      ∙ sym (own-filtered go key mine)
      ∙ (set_or_clear_comment-IsReplaced go.to_upper key v before is_key).own_are
