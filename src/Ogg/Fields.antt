-- ===== src/Ogg/Fields.antt =====
-- The edit of the comments in `EditOggFields` of go_backend/ogg_edit.go: `applyVorbisFieldEdits`,
-- `applyOpusReplayGainEdits`, and the cover.
use musi_flac.Prelude.{
  ◌-◌, Bool, ◌&&◌, ◌||◌, List, [], ◌∷◌, ◌++◌, Option, none, some, leb, if◌then◌else◌, length, take,
  drop, Bytes, codes, ◌=ₛ◌, Result, ok, err, ◌>>=◌, ℤ, pos, negsuc, ltb_ℤ,
}
use musi_flac.Prelude.Dict.{lookup}
use musi_flac.Id3.Text.{Packages}
use musi_flac.Vorbis.{comment_of, remove_comment_key, set_or_clear_comment}
use musi_flac.Vorbis.Fields.{apply_vorbis_field_edits}
use musi_flac.Ogg.Page.{OggError, edit_refused}
use musi_flac.Ogg.Edit.{edit_ogg_fields}

-- `strings.TrimSuffix`
unfoldable pub trim_suffix : Bytes → Bytes → Bytes
trim_suffix suffix s =
    let n = length s - length suffix in
    if leb (length suffix) (length s) && (drop n s =ₛ suffix) then take n s else s

-- `quantized` is ParseFloat of package strconv, then `math.Round((db - 5) * 256)`, or nothing where there
-- is an error, or the number is infinite or none. `picture` is the base64 text of `buildPictureBlock`, or
-- nothing where that has an error; `read_file` is nothing where there is no such file.
module _ (go : Packages) (pieces : Bytes → List Bytes) (quantized : Bytes → Option ℤ)
    (read_file picture : Bytes → Option Bytes) (fields rows : List (Bytes × Bytes)) where
  unfoldable pub set_gain : Bytes → Bytes → List Bytes → List Bytes
  set_gain scope value cs =
      remove_comment_key go.to_upper (codes "REPLAYGAIN_" ++ (scope ++ codes "_PEAK")) (
        remove_comment_key go.to_upper (codes "REPLAYGAIN_" ++ (scope ++ codes "_GAIN"))
          (set_or_clear_comment go.to_upper (codes "R128_" ++ (scope ++ codes "_GAIN")) value cs))

  -- A number that is not in 16 bits is refused.
  unfoldable pub written_gain : Option ℤ → Result OggError Bytes
  written_gain none = err edit_refused
  written_gain (some q) =
      if ltb_ℤ q (negsuc 32767) || ltb_ℤ (pos 32767) q then err edit_refused else ok (go.itoa q)

  unfoldable pub gain_value : Bytes → Result OggError Bytes
  gain_value raw =
      let text = go.trim_space raw in
      let number = written_gain (quantized (go.trim_space (trim_suffix (codes "dB") text))) in
      if text =ₛ [] then ok [] else number

  -- One round of the loop; ToUpper of `track` and `album` is the scope.
  unfoldable pub gain_edit : Bytes → Bytes → List Bytes → Result OggError (List Bytes)
  gain_edit field scope cs = elim (lookup field fields) [
    | none ↦ ok cs
    | some raw ↦ gain_value raw >>= λ value. ok (set_gain scope value cs)
  ]

  unfoldable pub apply_opus_replay_gain_edits : List Bytes → Result OggError (List Bytes)
  apply_opus_replay_gain_edits cs =
      gain_edit (codes "replaygain_track_gain") (codes "TRACK") cs
      >>= gain_edit (codes "replaygain_album_gain") (codes "ALBUM")

  unfoldable pub put_picture : Option Bytes → List Bytes → List Bytes
  put_picture none cs = cs
  put_picture (some encoded) cs =
      remove_comment_key go.to_upper (codes "METADATA_BLOCK_PICTURE") cs
      ++ (comment_of (codes "METADATA_BLOCK_PICTURE") encoded ∷ [])

  unfoldable pub put_cover : Option Bytes → List Bytes → List Bytes
  put_cover none cs = cs
  put_cover (some cover) cs = if cover =ₛ [] then cs else put_picture (picture cover) cs

  unfoldable pub cover_edit : List Bytes → List Bytes
  cover_edit cs =
      let path : Bytes =
        go.trim_space (elim (lookup (codes "cover_path") fields) [ none ↦ [] | some v ↦ v ]) in
      if path =ₛ [] then cs else put_cover (read_file path) cs

  unfoldable pub edit_comments : Bool → Bytes → List Bytes → Result OggError (Bytes × List Bytes)
  edit_comments is_opus vendor comments =
      let edited = apply_vorbis_field_edits go pieces fields rows comments in
      (if is_opus then apply_opus_replay_gain_edits edited else ok edited) >>= λ cs.
      ok (vendor, cover_edit cs)

  -- `EditOggFields` of the bytes of a file. `rows` is `simpleKeys` in the order in which Go visits it.
  unfoldable pub edit_ogg_file : Bytes → Result OggError Bytes
  edit_ogg_file = edit_ogg_fields edit_comments
