-- ===== src/Id3/Fields.antt =====
-- What the application reads of a field that `EditMP3Fields` of go_backend/mp3_id3_write.go has set.
use musi_flac.Prelude.{
  ℕ, ◌≤◌, ◌<◌, ◌≡◌, refl, sym, ap, ◌∙◌, subst, true, false, ◌&&◌, List, [], ◌∷◌, ◌++◌, Option, none,
  some, leb, if◌then◌else◌, length, drop, All, Bytes, ◌=ₛ◌, =ₛ_iff, arith, Bool-cases, inl, inr, ok,
}
use musi_flac.Prelude.Dict.{lookup}
use musi_flac.Id3.{Frame, read_mp3_id3v2_frames}
use musi_flac.Id3.Text.{Packages, extract_text_frame, first_text_value, trim_right_zeros}
use musi_flac.Id3.Apply.{AudioMetadata, zero_metadata, apply_id3_frame}
use musi_flac.Id3.Edit.{simple_keys, added_frame, id3_text_payload, edit_mp3_fields}
use musi_flac.Id3.Plan.{of_id, has_row, has_no_row}
use musi_flac.Id3.Frames.{AreWritable}
use musi_flac.Id3.EditTrip.{new_frames, edit_mp3_fields-IsEdited, of_id-new_field}
use musi_flac.Id3.Walk.{finished, go_on, read_id3v2, is_wanted, max_id3_frame_bytes}
use musi_flac.Id3.ReadBack.{read-serialize_id3v24}
use musi_flac.Id3.Seen.{seen, resume, all_seen, IsReadable}
use musi_flac.Id3.Kept.{HasGenre, apply_id3_frame-other}
use musi_flac.Id3.TextField.{
  TextField, title, artist, album, album_artist, label, copyright, composer, isrc, key_of, id_of,
  value_of, Gives,
}

module _ (go : Packages) where
  -- A frame of the text's id gives its value.
  apply_id3_frame-own :
      (f : TextField) (payload : Bytes) (m : AudioMetadata)
      → Gives f
          (first_text_value (extract_text_frame payload))
          (apply_id3_frame go 4 (id_of f) payload m)
  unfolding apply_id3_frame ◌=ₛ◌
  apply_id3_frame-own title payload m = refl
  apply_id3_frame-own artist payload m = refl
  apply_id3_frame-own album payload m = refl
  apply_id3_frame-own album_artist payload m = refl
  apply_id3_frame-own label payload m = refl
  apply_id3_frame-own copyright payload m = refl
  apply_id3_frame-own composer payload m = refl
  apply_id3_frame-own isrc payload m = refl

  wanted : (f : TextField) → is_wanted (id_of f) ≡ true
  unfolding is_wanted ◌=ₛ◌
  wanted title = refl
  wanted artist = refl
  wanted album = refl
  wanted album_artist = refl
  wanted label = refl
  wanted copyright = refl
  wanted composer = refl
  wanted isrc = refl

  seen-other :
      (f : TextField) (frame : Frame) (m : AudioMetadata)
      → HasGenre go frame
      → (frame.id =ₛ id_of f) ≡ false
      → Gives f (value_of f m) (seen go frame m)
  unfolding seen
  seen-other f frame m h other =
      elim (Bool-cases (is_wanted frame.id && leb (length frame.payload) max_id3_frame_bytes)) [
        | inl visited ↦ rw visited (apply_id3_frame-other go f frame m h other)
        | inr passed ↦ rw passed refl
      ]

  seen-own :
      (f : TextField) (frame : Frame) (m : AudioMetadata)
      → frame.id ≡ id_of f
      → length frame.payload ≤ max_id3_frame_bytes
      → Gives f (first_text_value (extract_text_frame frame.payload)) (seen go frame m)
  unfolding seen
  seen-own f frame m same fits =
      let w = wanted f in
      let visited : (is_wanted frame.id && leb (length frame.payload) max_id3_frame_bytes) ≡ true =
        ground (arith, ap is_wanted same, w, fits) in
      rw visited (
        subst
          (λ id.
            Gives f (first_text_value (extract_text_frame frame.payload))
              (apply_id3_frame go 4 id frame.payload m))
          (sym same) (apply_id3_frame-own f frame.payload m))

  -- What follows a frame goes on from what it gives.
  resumed :
      (f : TextField) (v w : Bytes) (next : AudioMetadata → Option AudioMetadata)
      (o : Option AudioMetadata)
      → Gives f v o
      → ((m : AudioMetadata) → value_of f m ≡ v → Gives f w (next m))
      → Gives f w (resume next o)
  unfolding resume
  resumed f v w next none g each = absurd g
  resumed f v w next (some m) g each = each m g

  all_seen-none :
      (f : TextField) (frames : List Frame) (m : AudioMetadata)
      → All (HasGenre go) frames
      → of_id (id_of f) frames ≡ []
      → Gives f (value_of f m) (all_seen go frames m)
  unfolding all_seen of_id
  all_seen-none f [] m h e = refl
  all_seen-none f (frame ∷ frames) m h e =
      let other : (frame.id =ₛ id_of f) ≡ false = ground (arith, e) in
      let rest : of_id (id_of f) frames ≡ [] = ground (arith, e) in
      resumed f (value_of f m) (value_of f m) (all_seen go frames) (seen go frame m)
        (seen-other f frame m h.0 other)
        (λ m' same. rw (sym same) (all_seen-none f frames m' h.1 rest))

  all_seen-one :
      (f : TextField) (own : Frame) (frames : List Frame) (m : AudioMetadata)
      → All (HasGenre go) frames
      → of_id (id_of f) frames ≡ own ∷ []
      → length own.payload ≤ max_id3_frame_bytes
      → Gives f (first_text_value (extract_text_frame own.payload)) (all_seen go frames m)
  unfolding all_seen of_id
  all_seen-one f own [] m h e fits = cc
  all_seen-one f own (frame ∷ frames) m h e fits =
      let v = first_text_value (extract_text_frame own.payload) in
      elim (Bool-cases (frame.id =ₛ id_of f)) [
        | inl same ↦
            let this : frame ≡ own = ground (arith, e, same) in
            let rest : of_id (id_of f) frames ≡ [] = ground (arith, e, same) in
            resumed f v v (all_seen go frames) (seen go frame m)
              (subst (λ (x : Frame). Gives f v (seen go x m)) (sym this)
                (seen-own f own m
                  (ap (λ (x : Frame). x.id) (sym this) ∙ (=ₛ_iff frame.id (id_of f)).0 same) fits))
              (λ m' at. rw (sym at) (all_seen-none f frames m' h.1 rest))
        | inr other ↦
            let rest : of_id (id_of f) frames ≡ own ∷ [] = ground (arith, e, other) in
            resumed f (value_of f m) v (all_seen go frames) (seen go frame m)
              (seen-other f frame m h.0 other) (λ m' at. all_seen-one f own frames m' h.1 rest fits)
      ]

row_of : (f : TextField) → has_row (key_of f) (id_of f) simple_keys ≡ true
unfolding has_row has_no_row ◌=ₛ◌
row_of title = refl
row_of artist = refl
row_of album = refl
row_of album_artist = refl
row_of label = refl
row_of copyright = refl
row_of composer = refl
row_of isrc = refl

zero_text : (f : TextField) → value_of f zero_metadata ≡ []
zero_text title = refl
zero_text artist = refl
zero_text album = refl
zero_text album_artist = refl
zero_text label = refl
zero_text copyright = refl
zero_text composer = refl
zero_text isrc = refl

-- A value without a panic.
finished_of :
    (f : TextField) (v : Bytes) (o : Option AudioMetadata)
    → Gives f v o
    → (m : AudioMetadata) × (go_on finished o ≡ finished m) × (value_of f m ≡ v)
unfolding go_on
finished_of f v none g = absurd g
finished_of f v (some m) g = (m, refl, g)

module _ (go : Packages) (fields descriptions : List (Bytes × Bytes))
    (read_file : Bytes → Option Bytes) where
  -- The frames after an edit can be written, read, and shown.
  pub record AreShown (frames : List Frame) : Type 0 where
    pub writable : AreWritable (new_frames go fields descriptions read_file frames)
    pub readable : All (IsReadable go) (new_frames go fields descriptions read_file frames)
    pub genres : All (HasGenre go) (new_frames go fields descriptions read_file frames)

  -- What the application shows of a text that has been edited.
  pub record IsShown (f : TextField) (v file : Bytes) : Type 0 where
    pub out : Bytes
    pub metadata : AudioMetadata
    pub edited : edit_mp3_fields go fields descriptions read_file file ≡ ok out
    pub read_back : read_id3v2 go out ≡ finished metadata
    pub shown :
        value_of f metadata
        ≡ (if go.trim_space v =ₛ [] then [] else first_text_value (trim_right_zeros v))

  -- `EditMP3Fields` with a title, artist, album, album artist, label, copyright, composer or ISRC gives a
  -- file of which the application reads just that text, up to its first zero, or none if it is blank, for
  -- a file whose tag can be read, where the edited frames can be written, start no footer, and hold no
  -- genre that makes the reader panic, and the text is not longer than the reader's limit.
  pub edit_mp3_fields-IsShown :
      (f : TextField) (v file : Bytes) (frames : List Frame) (audio_start : ℕ)
      → read_mp3_id3v2_frames file ≡ ok (frames, audio_start)
      → lookup (key_of f) fields ≡ some v
      → AreShown frames
      → length v < max_id3_frame_bytes
      → IsShown f v file
  unfolding added_frame extract_text_frame
  edit_mp3_fields-IsShown f v file frames audio_start gives there h fits =
      let new = new_frames go fields descriptions read_file frames in
      let edit =
        edit_mp3_fields-IsEdited go fields descriptions read_file file frames audio_start gives
          h.writable in
      let audio = drop audio_start file in
      let own =
        of_id-new_field go fields descriptions read_file (key_of f) (id_of f) v frames (row_of f)
          there in
      let read =
        ap (λ tag. read_id3v2 go (tag ++ audio)) edit.serialized
        ∙ read-serialize_id3v24 go new audio h.writable h.readable in
      elim (Bool-cases (go.trim_space v =ₛ [])) [
        | inl blank ↦
            let shown =
              all_seen-none go f new zero_metadata h.genres (own ∙ ground (arith, blank)) in
            let (m, reads, value) =
              finished_of f (value_of f zero_metadata) (all_seen go new zero_metadata) shown in
            record {
              out = edit.tag ++ audio;
              metadata = m;
              edited = edit.written;
              read_back = read ∙ reads;
              shown = value ∙ zero_text f ∙ ground (arith, blank);
            }
        | inr text ↦
            let frame : Frame = record { id = id_of f; payload = id3_text_payload v } in
            let shown =
              all_seen-one go f frame new zero_metadata h.genres (own ∙ ground (arith, text))
                (omega arith) in
            let (m, reads, value) =
              finished_of f (first_text_value (trim_right_zeros v)) (all_seen go new zero_metadata)
                shown in
            record {
              out = edit.tag ++ audio;
              metadata = m;
              edited = edit.written;
              read_back = read ∙ reads;
              shown = value ∙ ground (arith, text);
            }
      ]
