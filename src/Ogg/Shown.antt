-- ===== src/Ogg/Shown.antt =====
-- What `ReadOggVorbisComments` of go_backend/audio_metadata_ogg.go shows of a file that `EditOggFields` of
-- go_backend/ogg_edit.go has written.
use musi_flac.Prelude.{
  KeepsCapitals, ◌≤◌, ◌<◌, ◌≡◌, refl, sym, ap, ◌∙◌, subst, inl, inr, Bool, false, List, [], ◌∷◌,
  ◌++◌, Option, some, arith, ◌==◌, Bool-cases, Option-cases, length, get_or, All, Bytes, ◌=ₛ◌,
  =ₛ_iff, Result, ok, ◌>>=◌, chain_value, ok-injective, ℤ,
}
use musi_flac.Prelude.Dict.{lookup}
use musi_flac.Id3.Text.{Packages}
use musi_flac.Id3.Apply.{AudioMetadata, zero_metadata}
use musi_flac.Ogg.Page.{OggEditPage, OggError, read_next_ogg_edit_page, serialize, byte_size}
use musi_flac.Ogg.Packets.{lace_all, join, paginate_ogg_packets}
use musi_flac.Ogg.Comments.{parse_vorbis_comment_block, serialize_vorbis_comment_block, FitsU32}
use musi_flac.Ogg.Edit.{
  Headers, codec_of, header_packet_count, collect_headers, comment_body, comment_packet,
  header_packets, serialize_pages, write_audio, rewrite_headers, edit_ogg_fields,
}
use musi_flac.Ogg.Fields.{edit_comments, edit_ogg_file}
use musi_flac.Ogg.FieldEdit.{IsVisited, edit_comments-own}
use musi_flac.Ogg.Gathering.{collect_ogg_packets, max_packet_size}
use musi_flac.Ogg.Reader.{
  Reading, max_comment, detect_ogg_stream_type, comment_data, parse_packets, shown_metadata,
  read_ogg_vorbis_comments, finished,
}
use musi_flac.Ogg.Listed.{
  PlainField, field_of, value_of, apply_all, apply_all-none, apply_all-one, finished-value,
}
use musi_flac.Ogg.Block.{parse_vorbis_comments-serialize}
use musi_flac.Ogg.Collected.{Grows}
use musi_flac.Ogg.Written.{IsBos, collect-written}
use musi_flac.Ogg.Detected.{
  framing, detect-codec_of, comment_data-comment_packet, header_packets-first, block_filled,
  PlainField-IsKey, zero_value, header_packets_few,
}

-- A step whose value is known.
known :
    {A B : Type 0} (step : Result OggError A) (next : A → Result OggError B) (value : A) (last : B)
    → step ≡ ok value
    → (step >>= next) ≡ ok last
    → next value ≡ ok last
known {A = A} step next value last is gives =
    subst (λ (t : Result OggError A). (t >>= next) ≡ ok last) is gives

edit_ogg_fields-first :
    (edit : Bool → Bytes → List Bytes → Result OggError (Bytes × List Bytes)) (file : Bytes)
    (first : OggEditPage) (rest out : Bytes)
    → read_next_ogg_edit_page file ≡ ok (first, rest)
    → edit_ogg_fields edit file ≡ ok out
    → (codec_of first.payload >>= λ is_opus.
        collect_headers 1024
          (header_packet_count is_opus)
          first.serial
          (first ∷ [])
          (byte_size first)
          rest
        >>= λ h. rewrite_headers edit is_opus first h file)
      ≡ ok out
unfolding edit_ogg_fields
edit_ogg_fields-first edit file first rest out is gives = rw (is, edit_ogg_fields) at gives

module _ (go : Packages) (pieces : Bytes → List Bytes) (quantized : Bytes → Option ℤ)
    (read_file picture : Bytes → Option Bytes) (fields rows : List (Bytes × Bytes)) where
  -- The parts of a file that the edit takes apart, and the comments that it writes.
  pub record Opened (file : Bytes) : Type 0 where
    pub first : OggEditPage
    pub rest : Bytes
    pub first_is : read_next_ogg_edit_page file ≡ ok (first, rest)
    pub is_opus : Bool
    pub codec_is : codec_of first.payload ≡ ok is_opus
    pub h : Headers
    pub headers_are :
        collect_headers 1024
          (header_packet_count is_opus)
          first.serial
          (first ∷ [])
          (byte_size first)
          rest
        ≡ ok h
    pub body : Bytes
    pub body_is : comment_body is_opus (get_or h.packets 1 []) ≡ ok body
    pub vendor : Bytes
    pub comments : List Bytes
    pub parsed : parse_vorbis_comment_block body ≡ ok (vendor, comments)
    pub vendor' : Bytes
    pub comments' : List Bytes
    pub edited :
        edit_comments go pieces quantized read_file picture fields rows is_opus vendor comments
        ≡ ok (vendor', comments')

  abbrev pub new_packets : {file : Bytes} → Opened file → List Bytes
  new_packets o =
      header_packets o.is_opus
        (comment_packet o.is_opus (serialize_vorbis_comment_block o.vendor' o.comments'))
        o.h.packets

  -- The limits of the reader: 100 comments of 512 KiB each, packets of 10 MiB, 80 pages, and no setup
  -- packet that is empty.
  pub record FitsReader {file : Bytes} (o : Opened file) : Type 0 where
    pub vendor_fits : FitsU32 o.vendor'
    pub count_fits : length o.comments' ≤ 100
    pub comments_fit : All (λ c. length c ≤ max_comment) o.comments'
    pub packets_filled : All (λ q. 0 < length q) (new_packets o)
    pub packets_fit : length (join (lace_all (new_packets o))) ≤ max_packet_size
    pub pages_fit : length (paginate_ogg_packets (new_packets o) o.first.serial 1) ≤ 79

  -- What the edit writes, but for what is behind the header pages.
  written :
      (file out : Bytes) (o : Opened file)
      → edit_ogg_file go pieces quantized read_file picture fields rows file ≡ ok out
      → (audio : Bytes) × (out
          ≡ serialize o.first
            ++ (serialize_pages (paginate_ogg_packets (new_packets o) o.first.serial 1) ++ audio))
  unfolding edit_ogg_file rewrite_headers
  written file out o gives =
      let edit = edit_comments go pieces quantized read_file picture fields rows in
      let gives₁ = edit_ogg_fields-first edit file o.first o.rest out o.first_is gives in
      let gives₂ = known (codec_of o.first.payload) _ o.is_opus out o.codec_is gives₁ in
      let gives₃ =
        known
          (collect_headers 1024 (header_packet_count o.is_opus) o.first.serial (o.first ∷ [])
            (byte_size o.first) o.rest)
          _ o.h out o.headers_are gives₂ in
      let gives₄ =
        known (comment_body o.is_opus (get_or o.h.packets 1 [])) _ o.body out o.body_is gives₃ in
      let gives₅ =
        known (parse_vorbis_comment_block o.body) _ (o.vendor, o.comments) out o.parsed gives₄ in
      let gives₆ =
        known (edit o.is_opus o.vendor o.comments) _ (o.vendor', o.comments') out o.edited gives₅ in
      let new = paginate_ogg_packets (new_packets o) o.first.serial 1 in
      let (audio, audio_is, put) =
        chain_value (write_audio o.first.serial (length new) (length o.h.pages) o.h file) _
          gives₆ in
      (audio, sym (ok-injective put))

  module _ (parse_int16 : Bytes → Option ℤ) (gain_text : ℤ → Bytes) where
    -- The reader takes the comments of a file from the packet that the edit has written.
    parse_packets-written :
        (file : Bytes) (o : Opened file) (packets : List Bytes)
        → IsBos o.first
        → FitsReader o
        → Grows (o.first.payload ∷ new_packets o) packets
        → parse_packets go parse_int16 gain_text packets
          ≡ finished go parse_int16 gain_text (
              apply_all go parse_int16 gain_text o.comments'
                (record { metadata = zero_metadata; artists = []; album_artists = [] }))
    unfolding parse_packets
    parse_packets-written file o packets bos fits (more, grown) =
        let block = serialize_vorbis_comment_block o.vendor' o.comments' in
        let (behind, cons) =
          header_packets-first o.is_opus (comment_packet o.is_opus block) o.h.packets in
        let are : packets ≡ o.first.payload ∷ comment_packet o.is_opus block ∷ (behind ++ more) =
          grown ∙ ap (λ ps. o.first.payload ∷ (ps ++ more)) cons in
        let found : comment_data (detect_ogg_stream_type packets) packets
            ≡ some (block ++ framing o.is_opus) =
          ap (λ ps. comment_data (detect_ogg_stream_type ps) ps) are
          ∙ ap
              (λ t.
                comment_data t
                  (o.first.payload ∷ comment_packet o.is_opus block ∷ (behind ++ more)))
              (detect-codec_of o.is_opus o.first.payload
                (comment_packet o.is_opus block ∷ (behind ++ more)) bos.filled o.codec_is)
          ∙ comment_data-comment_packet o.is_opus o.first.payload block (behind ++ more)
              (block_filled o.vendor' o.comments') o.codec_is in
        rw (found, parse_packets)
          (parse_vorbis_comments-serialize go parse_int16 gain_text o.vendor' o.comments'
            (framing o.is_opus) zero_metadata fits.vendor_fits fits.count_fits fits.comments_fit)

    -- With a packet there is no error but that of metadata without text.
    read-packets :
        (file p : Bytes) (packets : List Bytes)
        → (collect_ogg_packets 30 80 file).packets ≡ p ∷ packets
        → read_ogg_vorbis_comments go parse_int16 gain_text file
          ≡ shown_metadata
              (parse_packets go parse_int16 gain_text (collect_ogg_packets 30 80 file).packets)
    unfolding read_ogg_vorbis_comments
    read-packets file p packets are = elim (Option-cases (collect_ogg_packets 30 80 file).failure) [
      | inl fine ↦ rw (fine, read_ogg_vorbis_comments) refl
      | inr (e, failed) ↦
          let filled : (length (collect_ogg_packets 30 80 file).packets == 0) ≡ false =
            ap (λ ps. length ps == 0) are ∙ ground arith in
          rw (failed, read_ogg_vorbis_comments) (rw filled refl)
    ]

    -- The comments that the edit writes are the ones that the reader then applies, all of them and in
    -- their order.
    read-written :
        (file out : Bytes) (o : Opened file)
        → IsBos o.first
        → FitsReader o
        → edit_ogg_file go pieces quantized read_file picture fields rows file ≡ ok out
        → read_ogg_vorbis_comments go parse_int16 gain_text out
          ≡ shown_metadata (
              finished go parse_int16 gain_text (
                apply_all go parse_int16 gain_text o.comments'
                  (record { metadata = zero_metadata; artists = []; album_artists = [] })))
    read-written file out o bos fits gives =
        let (audio, out_is) = written file out o gives in
        let grows : Grows (o.first.payload ∷ new_packets o)
            (collect_ogg_packets 30 80 out).packets =
          subst (λ s. Grows (o.first.payload ∷ new_packets o) (collect_ogg_packets 30 80 s).packets)
            (sym out_is)
            (collect-written o.first (new_packets o) audio bos
              (header_packets_few o.is_opus _ o.h.packets) fits.packets_filled fits.packets_fit
              fits.pages_fit) in
        read-packets out o.first.payload (new_packets o ++ grows.0) grows.1
        ∙ ap shown_metadata
            (parse_packets-written file o (collect_ogg_packets 30 80 out).packets bos fits grows)

    -- After a successful edit of a plain field (title, album, genre, ISRC, composer, copyright), the metadata
    -- that the reader of tags takes from the new file has the new value, which is empty where the field was
    -- cleared, whatever the file held; it answers with that metadata, or, where it has neither title, artist
    -- nor gain, with its error for that. The first page holds one packet of 8 to 254 bytes, Go visits no edited
    -- field with the same key later, and the new comments and header packets are within the limits of the reader.
    pub edit_ogg_file-IsShown :
        (f : PlainField) (v file out : Bytes) (o : Opened file)
        → KeepsCapitals go.to_upper
        → IsVisited go pieces fields rows f
        → lookup (field_of f) fields ≡ some v
        → IsBos o.first
        → FitsReader o
        → edit_ogg_file go pieces quantized read_file picture fields rows file ≡ ok out
        → (m : AudioMetadata) × (read_ogg_vorbis_comments go parse_int16 gain_text out
            ≡ shown_metadata m)
          × (value_of f m ≡ v)
    edit_ogg_file-IsShown f v file out o keeps visited there bos fits gives =
        let start : Reading = record {
          metadata = zero_metadata;
          artists = [];
          album_artists = [];
        } in
        let applied = apply_all go parse_int16 gain_text o.comments' start in
        let own_are =
          edit_comments-own go pieces quantized read_file picture fields rows f v o.is_opus o.vendor
            o.vendor' o.comments o.comments' keeps visited there o.edited in
        let k = PlainField-IsKey f in
        (
          finished go parse_int16 gain_text applied,
          read-written file out o bos fits gives,
          finished-value go parse_int16 gain_text f applied ∙ elim (Bool-cases (v =ₛ [])) [
            | inl cleared ↦
                apply_all-none go parse_int16 gain_text f o.comments' start keeps
                  (own_are ∙ ground (arith, cleared))
                ∙ zero_value f
                ∙ sym ((=ₛ_iff v []).0 cleared)
            | inr set ↦
                apply_all-one go parse_int16 gain_text f v o.comments' start keeps k
                  (own_are ∙ ground (arith, set))
          ],
        )
