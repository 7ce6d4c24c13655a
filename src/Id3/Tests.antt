-- ===== src/Id3/Tests.antt =====
-- An edit of a small file by go_backend/mp3_id3_write.go, and the theorems on ID3 tags at it.
use musi_flac.Prelude.{
  ◌≡◌, refl, sym, subst, All, true, false, List, [], ◌∷◌, ◌++◌, Option, none, arith, length, take,
  Bytes, codes, ◌=ₛ◌, ok, negsuc,
}
use musi_flac.Prelude.Dict.{lookup}
use musi_flac.Progress.Delta.{is_listed}
use musi_flac.Id3.{
  Frame, synchsafe_encode, remove_unsync, frame_block, frame_blocks, padding, serialize_id3v24_tag,
  read_mp3_id3v2_frames,
}
use musi_flac.Id3.Text.{Packages}
use musi_flac.Id3.Edit.{
  txxx_descriptions, added_frame, id3_text_payload, edited_frames, kept_frames, is_dropped, changes,
  simple_changes, rest_changes, on_field, set_or_clear, has_field, index_change, txxx_changes,
  cover_change, cover_path, all_ids, all_frames, all_descriptions,
}
use musi_flac.Id3.Unsync.{reads, total, reads-remove_unsync}
use musi_flac.Id3.Frames.{AreWritable, IsFrame, read-serialize_tag}
use musi_flac.Id3.Plan.{of_id, has_row, has_no_row}
use musi_flac.Id3.EditTrip.{
  new_frames, IsEdited, edit_mp3_fields-IsEdited, of_id-new_field, of_id-foreign,
}
use musi_flac.Id3.Spares.{known_ids, row_ids}
use musi_flac.Id3.Walk.{panicked, read_id3v2}
use musi_flac.Id3.Seen.{IsReadable}
use musi_flac.Id3.Kept.{HasGenre}
use musi_flac.Id3.TextField.{title}
use musi_flac.Id3.Fields.{AreShown, IsShown, edit_mp3_fields-IsShown}
use musi_flac.Id3.Panic.{parenthesised, genre_frame, has_byte, read_id3v2-panics}

-- Package functions that do as much as these texts need.
abbrev plain : Packages
plain = record {
  trim_space = λ s. s;
  to_upper = λ s. s;
  to_lower = λ s. s;
  equal_fold = λ s t. s =ₛ t;
  is_number = λ s. true;
  atoi = λ s. negsuc 0;
  itoa = λ n. [];
  detect_content_type = λ s. [];
}

-- `0xff 0x00` stands for `0xff`.
unsync_bytes : remove_unsync (1 ∷ 255 ∷ 0 ∷ 255 ∷ 255 ∷ 0 ∷ 0 ∷ []) ≡ 1 ∷ 255 ∷ 255 ∷ 255 ∷ 0 ∷ []
unfolding remove_unsync
unsync_bytes = refl

reads-remove_unsync_example :
    reads (2 ∷ 2 ∷ []) (record { source = 1 ∷ 255 ∷ 0 ∷ 255 ∷ 255 ∷ 0 ∷ []; after_ff = false })
    ≡ take (total (2 ∷ 2 ∷ [])) (remove_unsync (1 ∷ 255 ∷ 0 ∷ 255 ∷ 255 ∷ 0 ∷ []))
reads-remove_unsync_example = reads-remove_unsync (2 ∷ 2 ∷ []) (1 ∷ 255 ∷ 0 ∷ 255 ∷ 255 ∷ 0 ∷ [])

abbrev rating : Frame
rating = record { id = codes "POPM"; payload = 7 ∷ [] }

abbrev old_title : Frame
old_title = record { id = codes "TIT2"; payload = 3 ∷ codes "old" }

abbrev new_title : Frame
new_title = record { id = codes "TIT2"; payload = 3 ∷ codes "new" }

abbrev audio : Bytes
audio = 255 ∷ 251 ∷ []

popm-IsFrame : IsFrame rating
popm-IsFrame = record { named = refl; started = refl; filled = omega arith; fits = omega arith }

old-IsFrame : IsFrame old_title
old-IsFrame = record { named = refl; started = refl; filled = omega arith; fits = omega arith }

new-IsFrame : IsFrame new_title
new-IsFrame = record { named = refl; started = refl; filled = omega arith; fits = omega arith }

old_writable : AreWritable (old_title ∷ rating ∷ [])
unfolding frame_blocks frame_block synchsafe_encode padding
old_writable = record { each = (old-IsFrame, (popm-IsFrame, tt)); fits = omega arith }

new_writable : AreWritable (rating ∷ new_title ∷ [])
unfolding frame_blocks frame_block synchsafe_encode padding
new_writable = record { each = (popm-IsFrame, (new-IsFrame, tt)); fits = omega arith }

abbrev file : Bytes
file = serialize_id3v24_tag (old_title ∷ rating ∷ []) ++ audio

read-serialize_tag_example :
    read_mp3_id3v2_frames file
    ≡ ok (old_title ∷ rating ∷ [], length (serialize_id3v24_tag (old_title ∷ rating ∷ [])))
read-serialize_tag_example = read-serialize_tag (old_title ∷ rating ∷ []) audio old_writable

abbrev retitled : List (Bytes × Bytes)
retitled = (codes "title", codes "new") ∷ []

abbrev no_file : Bytes → Option Bytes
no_file path = none

new_frames_of :
    new_frames plain retitled txxx_descriptions no_file (old_title ∷ rating ∷ [])
    ≡ rating ∷ new_title ∷ []
unfolding new_frames edited_frames kept_frames is_dropped changes simple_changes rest_changes
    on_field set_or_clear has_field index_change txxx_changes cover_change cover_path all_ids
    all_frames all_descriptions added_frame lookup is_listed ◌=ₛ◌
new_frames_of = refl

edit_mp3_fields-IsEdited_example :
    IsEdited plain retitled txxx_descriptions no_file file
      (old_title ∷ rating ∷ [])
      (length (serialize_id3v24_tag (old_title ∷ rating ∷ [])))
edit_mp3_fields-IsEdited_example =
    edit_mp3_fields-IsEdited plain retitled txxx_descriptions no_file file (old_title ∷ rating ∷ [])
      (length (serialize_id3v24_tag (old_title ∷ rating ∷ []))) read-serialize_tag_example
      (subst AreWritable (sym new_frames_of) new_writable)

of_id-new_field_example :
    of_id
      (codes "TIT2")
      (new_frames plain retitled txxx_descriptions no_file (old_title ∷ rating ∷ []))
    ≡ added_frame plain (codes "TIT2") (codes "new") (id3_text_payload (codes "new"))
unfolding has_row has_no_row ◌=ₛ◌ lookup
of_id-new_field_example =
    of_id-new_field plain retitled txxx_descriptions no_file (codes "title") (codes "TIT2")
      (codes "new") (old_title ∷ rating ∷ []) refl refl

of_id-foreign_example :
    of_id
      (codes "POPM")
      (new_frames plain retitled txxx_descriptions no_file (old_title ∷ rating ∷ []))
    ≡ of_id (codes "POPM") (old_title ∷ rating ∷ [])
unfolding known_ids row_ids is_listed ◌=ₛ◌
of_id-foreign_example =
    of_id-foreign plain retitled txxx_descriptions no_file (codes "POPM") (old_title ∷ rating ∷ [])
      refl

popm-IsReadable : IsReadable plain rating
unfolding ◌=ₛ◌
popm-IsReadable = record { frame_lem = popm-IsFrame; no_footer = refl }

new-IsReadable : IsReadable plain new_title
unfolding ◌=ₛ◌
new-IsReadable = record { frame_lem = new-IsFrame; no_footer = refl }

popm-HasGenre : HasGenre plain rating
unfolding ◌=ₛ◌
popm-HasGenre = record { genre = []; cleaned = λ e. cc }

new-HasGenre : HasGenre plain new_title
unfolding ◌=ₛ◌
new-HasGenre = record { genre = []; cleaned = λ e. cc }

retitled_shown : AreShown plain retitled txxx_descriptions no_file (old_title ∷ rating ∷ [])
retitled_shown = record {
  writable = subst AreWritable (sym new_frames_of) new_writable;
  readable =
      subst (All (IsReadable plain)) (sym new_frames_of) (popm-IsReadable, (new-IsReadable, tt));
  genres = subst (All (HasGenre plain)) (sym new_frames_of) (popm-HasGenre, (new-HasGenre, tt));
}

edit_mp3_fields-IsShown_example :
    IsShown plain retitled txxx_descriptions no_file title (codes "new") file
unfolding lookup ◌=ₛ◌
edit_mp3_fields-IsShown_example =
    edit_mp3_fields-IsShown plain retitled txxx_descriptions no_file title (codes "new") file
      (old_title ∷ rating ∷ []) (length (serialize_id3v24_tag (old_title ∷ rating ∷ [])))
      read-serialize_tag_example refl retitled_shown (omega arith)

minus_one_writable : AreWritable (genre_frame (parenthesised (codes "-1")) ∷ [])
unfolding frame_blocks frame_block synchsafe_encode padding
minus_one_writable = record {
  each = (record { named = refl; started = refl; filled = omega arith; fits = omega arith }, tt);
  fits = omega arith;
}

read_id3v2-panics_example :
    read_id3v2 plain (serialize_id3v24_tag (genre_frame (parenthesised (codes "-1")) ∷ []) ++ audio)
    ≡ panicked
unfolding has_byte
read_id3v2-panics_example =
    read_id3v2-panics plain (codes "-1") audio 0 refl refl refl refl minus_one_writable
      (omega arith)
