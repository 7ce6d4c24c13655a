-- ===== src/Id3/EditTrip.antt =====
-- What `EditMP3Fields` of go_backend/mp3_id3_write.go makes of a file: the tag it writes, and the audio.
use musi_flac.Prelude.{
  ℕ, ◌≡◌, refl, ap, ◌∙◌, true, false, ◌||◌, List, [], ◌++◌, Option, some, arith, if◌then◌else◌,
  Bytes, codes, ◌=ₛ◌, =ₛ_iff, append-nil, drop, length, ok,
}
use musi_flac.Prelude.Dict.{lookup}
use musi_flac.Progress.Delta.{is_listed}
use musi_flac.Id3.{Frame, read_mp3_id3v2_frames, serialize_id3v24_tag}
use musi_flac.Id3.Text.{Packages}
use musi_flac.Id3.Frames.{AreWritable, read-serialize_tag}
use musi_flac.Id3.Edit.{
  Change, id3_text_payload, all_ids, all_frames, simple_keys, added_frame, simple_changes,
  rest_changes, changes, edited_frames, splice_file, edit_mp3_fields,
}
use musi_flac.Id3.Plan.{
  of_id, is_listed-append, of_id-edited, all_frames-append, all_ids-append, has_row, other_ids,
  are_apart, apart_of_row,
}
use musi_flac.Id3.Rows.{simple_row}
use musi_flac.Id3.Spares.{
  Spares-all, rest_changes-Spares, simple_changes-Spares, row_ids, known_ids,
}

not_txxx : (id : Bytes) → is_listed id other_ids ≡ false → (id =ₛ codes "TXXX") ≡ false
unfolding is_listed
not_txxx id other = ground (arith, other, =ₛ_iff (codes "TXXX") id, =ₛ_iff id (codes "TXXX"))

simple_keys_apart : are_apart simple_keys ≡ true
unfolding are_apart is_listed ◌=ₛ◌
simple_keys_apart = refl

-- An edit in two halves.
of_id-halves :
    (go : Packages) (id : Bytes) (cs more : List Change) (frames : List Frame)
    → (id =ₛ codes "TXXX") ≡ false
    → of_id id (edited_frames go (cs ++ more) frames)
      ≡ (if is_listed id (all_ids cs) || is_listed id (all_ids more) then [] else of_id id frames)
        ++ (of_id id (all_frames cs) ++ of_id id (all_frames more))
of_id-halves go id cs more frames other =
    of_id-edited go id (cs ++ more) frames other
    ∙ ap
        (λ dropped. (if dropped then [] else of_id id frames) ++ of_id id (all_frames (cs ++ more)))
        (all_ids-append id cs more)
    ∙ ap
        (λ added.
          (if is_listed id (all_ids cs) || is_listed id (all_ids more) then [] else of_id id frames)
          ++ added)
        (all_frames-append id cs more)

module _ (go : Packages) (fields descriptions : List (Bytes × Bytes))
    (read_file : Bytes → Option Bytes) where
  -- The frames of the new tag, for a tag with these frames.
  unfoldable pub new_frames : List Frame → List Frame
  new_frames frames = edited_frames go (changes go fields descriptions read_file frames) frames

  -- An edit of a file whose tag has been read: the new tag, the audio as it was, and what is read of both.
  pub record IsEdited (file : Bytes) (frames : List Frame) (audio_start : ℕ) : Type 0 where
    pub tag : Bytes
    pub serialized : tag ≡ serialize_id3v24_tag (new_frames frames)
    pub written :
        edit_mp3_fields go fields descriptions read_file file ≡ ok (tag ++ drop audio_start file)
    pub read_back :
        read_mp3_id3v2_frames (tag ++ drop audio_start file) ≡ ok (new_frames frames, length tag)

  -- `EditMP3Fields` of a file whose tag can be read writes a tag from which the edited frames are read
  -- back, and behind it the audio unchanged, where all edited frames can be written.
  pub edit_mp3_fields-IsEdited :
      (file : Bytes) (frames : List Frame) (audio_start : ℕ)
      → read_mp3_id3v2_frames file ≡ ok (frames, audio_start)
      → AreWritable (new_frames frames)
      → IsEdited file frames audio_start
  unfolding edit_mp3_fields splice_file new_frames
  edit_mp3_fields-IsEdited file frames audio_start gives h = record {
    tag = serialize_id3v24_tag (new_frames frames);
    serialized = refl;
    written = rw gives refl;
    read_back = read-serialize_tag (new_frames frames) (drop audio_start file) h;
  }

  -- For a field of `simpleKeys` that the edit has, the new tag has the frame of its value, or none if the
  -- value is blank; nothing of the old frames of that id is left.
  pub of_id-new_field :
      (key id v : Bytes) (frames : List Frame)
      → has_row key id simple_keys ≡ true
      → lookup key fields ≡ some v
      → of_id id (new_frames frames) ≡ added_frame go id v (id3_text_payload v)
  unfolding new_frames changes
  of_id-new_field key id v frames row there =
      let cs = simple_changes go fields simple_keys in
      let more = rest_changes go fields descriptions read_file frames in
      let apart = apart_of_row key id simple_keys simple_keys_apart row in
      let (frames_none, ids_none) =
        Spares-all id more (rest_changes-Spares go fields id descriptions read_file frames apart) in
      let (mine, dropped) = simple_row go fields key id v simple_keys row there in
      of_id-halves go id cs more frames (not_txxx id apart)
      ∙ ground (arith, frames_none, ids_none, mine, dropped, append-nil (of_id id (all_frames cs)))

  -- A frame whose id is none that the edit knows stays, in order, whatever is edited.
  pub of_id-foreign :
      (id : Bytes) (frames : List Frame)
      → is_listed id known_ids ≡ false
      → of_id id (new_frames frames) ≡ of_id id frames
  unfolding new_frames changes known_ids
  of_id-foreign id frames foreign =
      let cs = simple_changes go fields simple_keys in
      let more = rest_changes go fields descriptions read_file frames in
      let split = is_listed-append id (row_ids simple_keys) other_ids in
      let apart : is_listed id other_ids ≡ false = ground (arith, foreign, split) in
      let first =
        Spares-all id cs
          (simple_changes-Spares go fields id simple_keys (ground (arith, foreign, split))) in
      let second =
        Spares-all id more (rest_changes-Spares go fields id descriptions read_file frames apart) in
      of_id-halves go id cs more frames (not_txxx id apart)
      ∙ ground (arith, first, second, append-nil (of_id id frames))
