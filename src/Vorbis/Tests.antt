-- ===== src/Vorbis/Tests.antt =====
-- Changes of Vorbis comments of go_backend/metadata.go, at concrete inputs.
use musi_flac.Prelude.{
  to_upper-KeepsCapitals, ◌≡◌, refl, List, [], ◌∷◌, true, Bytes, codes, ◌=ₛ◌, to_upper,
  to_upper_byte,
}
use musi_flac.Vorbis.{comment_of, before_equals, has_key, remove_comment_key, set_or_clear_comment}
use musi_flac.Prelude.{not, negsuc}
use musi_flac.Prelude.Dict.{lookup}
use musi_flac.Id3.Text.{Packages}
use musi_flac.Vorbis.Set.{own}
use musi_flac.Vorbis.Fields.{has_field, apply_vorbis_field_edits}
use musi_flac.Vorbis.Untouched.{touched}
use musi_flac.Vorbis.Filtered.{filtered}
use musi_flac.Vorbis.Keys.{AreRows, has_any}
use musi_flac.Vorbis.Edited.{
  is_last, apply_vorbis_field_edits-foreign, apply_vorbis_field_edits-upc,
  apply_vorbis_field_edits-last,
}

abbrev comments : List Bytes
comments = codes "Title=Old" ∷ codes "GENRE=Jazz" ∷ codes "TITLE=Other" ∷ []

abbrev title : Bytes
title = codes "TITLE"

abbrev one : Bytes → List Bytes
one s = s ∷ []

abbrev plain : Packages
plain = record {
  trim_space = λ s. s;
  to_upper = to_upper;
  to_lower = λ s. s;
  equal_fold = λ s t. s =ₛ t;
  is_number = λ s. true;
  atoi = λ s. negsuc 0;
  itoa = λ n. [];
  detect_content_type = λ s. [];
}

abbrev edit : List (Bytes × Bytes)
edit = (codes "title", codes "New") ∷ (codes "upc", []) ∷ []

abbrev rows : List (Bytes × Bytes)
rows =
    (codes "upc", codes "BARCODE")
    ∷ (codes "title", title)
    ∷ (codes "barcode", codes "BARCODE")
    ∷ []

rows-AreRows : AreRows rows
unfolding lookup ◌=ₛ◌
rows-AreRows = (refl, (refl, (refl, tt)))

apply_vorbis_field_edits-foreign_example :
    filtered
      (λ c. not (has_any plain (touched plain one edit rows) c))
      (apply_vorbis_field_edits plain one edit rows comments)
    ≡ filtered (λ c. not (has_any plain (touched plain one edit rows) c)) comments
apply_vorbis_field_edits-foreign_example =
    apply_vorbis_field_edits-foreign plain one edit rows comments rows-AreRows

apply_vorbis_field_edits-upc_example :
    own to_upper
      (codes "UPC")
      (apply_vorbis_field_edits plain one edit rows (codes "UPC=7" ∷ comments))
    ≡ own to_upper (codes "UPC") (codes "UPC=7" ∷ comments)
apply_vorbis_field_edits-upc_example =
    apply_vorbis_field_edits-upc plain one edit rows (codes "UPC=7" ∷ comments)
      to_upper-KeepsCapitals rows-AreRows

apply_vorbis_field_edits-last_example :
    own to_upper title (apply_vorbis_field_edits plain one edit rows comments)
    ≡ comment_of title (codes "New") ∷ []
unfolding lookup is_last has_field ◌=ₛ◌
apply_vorbis_field_edits-last_example =
    apply_vorbis_field_edits-last plain one edit ((codes "upc", codes "BARCODE") ∷ [])
      ((codes "barcode", codes "BARCODE") ∷ []) (codes "title") title (codes "New") comments
      to_upper-KeepsCapitals rows-AreRows refl refl

new_title :
    set_or_clear_comment to_upper title (codes "New") comments
    ≡ codes "GENRE=Jazz" ∷ codes "TITLE=New" ∷ []
unfolding set_or_clear_comment remove_comment_key has_key before_equals comment_of to_upper
    to_upper_byte ◌=ₛ◌
new_title = refl
