-- ===== src/Ogg/EditTrip.antt =====
-- What `EditOggFields` of go_backend/ogg_edit.go does to a file that is a sequence of pages.
use musi_flac.Prelude.{
  ℕ, ◌-◌, ◌≡◌, refl, sym, ap, ◌∙◌, Bool, false, List, [], ◌∷◌, ◌++◌, arith, length, get_or, All,
  All-append, length-append, append_assoc, Bytes, Result, ok, chain_value, ok-injective, All-right,
}
use musi_flac.Ogg.Page.{OggEditPage, OggError, byte_size, serialize}
use musi_flac.Ogg.PageTrip.{read-serialize, length-serialize}
use musi_flac.Ogg.Packets.{assemble_ogg_header_packets, paginate_ogg_packets}
use musi_flac.Ogg.PacketTrip.{assemble-paginate}
use musi_flac.Ogg.Layout.{paginate-IsRun}
use musi_flac.Ogg.Comments.{parse_vorbis_comment_block, serialize_vorbis_comment_block}
use musi_flac.Ogg.Edit.{
  Headers, codec_of, header_packet_count, collect_headers, comment_body, comment_packet,
  header_packets, serialize_pages, write_audio, rewrite_headers, edit_ogg_fields,
  read_all_ogg_edit_pages,
}
use musi_flac.Ogg.Stream.{IsPageOf, serialize_pages-append, read_back-serialize_pages}
use musi_flac.Ogg.Collect.{IsCollected, collect_headers-IsCollected}
use musi_flac.Ogg.Audio.{
  IsRun-IsPageOf, written_audio, written_audio-IsPageOf, write_audio-pages, length-header_packets,
}

module _ (edit : Bool → Bytes → List Bytes → Result OggError (Bytes × List Bytes)) where
  -- The output of a successful edit of the file of the pages `first ∷ pages`.
  pub record IsEdited (first : OggEditPage) (pages : List OggEditPage) (out : Bytes) : Type 0 where
    pub is_opus : Bool
    pub taken : List OggEditPage
    pub audio : List OggEditPage
    pub pages_is : pages ≡ taken ++ audio
    pub packets : List Bytes
    pub last : ℕ
    pub assembled :
        assemble_ogg_header_packets (first ∷ taken) (header_packet_count is_opus)
        ≡ ok (packets, last)
    pub body : Bytes
    pub body_is : comment_body is_opus (get_or packets 1 []) ≡ ok body
    pub vendor : Bytes
    pub comments : List Bytes
    pub parsed : parse_vorbis_comment_block body ≡ ok (vendor, comments)
    pub vendor' : Bytes
    pub comments' : List Bytes
    pub edited : edit is_opus vendor comments ≡ ok (vendor', comments')
    pub new_packets : List Bytes
    pub new_packets_are :
        new_packets
        ≡ header_packets is_opus
            (comment_packet is_opus (serialize_vorbis_comment_block vendor' comments'))
            packets
    pub new : List OggEditPage
    pub out_is :
        read_all_ogg_edit_pages out
        ≡ ok (first ∷ (new ++ written_audio (length new) (length (first ∷ taken)) audio))
    pub new_are :
        assemble_ogg_header_packets
          (new ++ written_audio (length new) (length (first ∷ taken)) audio)
          (length new_packets)
        ≡ ok (new_packets, length new - 1)

  -- The parts of a successful rewrite, before its output is read back.
  record IsRewritten (is_opus : Bool) (first : OggEditPage) (h : Headers) (file out : Bytes)
      : Type 0 where
    body : Bytes
    body_is : comment_body is_opus (get_or h.packets 1 []) ≡ ok body
    vendor : Bytes
    comments : List Bytes
    parsed : parse_vorbis_comment_block body ≡ ok (vendor, comments)
    vendor' : Bytes
    comments' : List Bytes
    edited : edit is_opus vendor comments ≡ ok (vendor', comments')
    new_packets : List Bytes
    new_packets_are :
        new_packets
        ≡ header_packets is_opus
            (comment_packet is_opus (serialize_vorbis_comment_block vendor' comments'))
            h.packets
    audio : Bytes
    audio_is :
        write_audio first.serial
          (length (paginate_ogg_packets new_packets first.serial 1))
          (length h.pages)
          h
          file
        ≡ ok audio
    out_is :
        out
        ≡ serialize first
          ++ (serialize_pages (paginate_ogg_packets new_packets first.serial 1) ++ audio)

  rewrite_headers-IsRewritten :
      (is_opus : Bool) (first : OggEditPage) (h : Headers) (file out : Bytes)
      → rewrite_headers edit is_opus first h file ≡ ok out
      → IsRewritten is_opus first h file out
  unfolding rewrite_headers
  rewrite_headers-IsRewritten is_opus first h file out e =
      let (body, body-is, e₁) = chain_value (comment_body is_opus (get_or h.packets 1 [])) _ e in
      let ((vendor, comments), parsed, e₂) = chain_value (parse_vorbis_comment_block body) _ e₁ in
      let ((vendor', comments'), edited, e₃) = chain_value (edit is_opus vendor comments) _ e₂ in
      let new_packets =
        header_packets is_opus
          (comment_packet is_opus (serialize_vorbis_comment_block vendor' comments')) h.packets in
      let new = paginate_ogg_packets new_packets first.serial 1 in
      let (audio, audio-is, e₄) =
        chain_value (write_audio first.serial (length new) (length h.pages) h file) _ e₃ in
      record {
        body = body;
        body_is = body-is;
        vendor = vendor;
        comments = comments;
        parsed = parsed;
        vendor' = vendor';
        comments' = comments';
        edited = edited;
        new_packets = new_packets;
        new_packets_are = refl;
        audio = audio;
        audio_is = audio-is;
        out_is = sym (ok-injective e₄);
      }

  -- What the reader makes of the output.
  IsRewritten-IsEdited :
      (is_opus : Bool) (first : OggEditPage) (pages : List OggEditPage) (h : Headers) (out : Bytes)
      → All (IsPageOf first.serial) (first ∷ pages)
      → (c : IsCollected (header_packet_count is_opus) (first ∷ []) (byte_size first) pages h)
      → IsRewritten is_opus first h (serialize_pages (first ∷ pages)) out
      → IsEdited first pages out
  unfolding serialize_pages
  IsRewritten-IsEdited is_opus first pages h out v c r =
      let serial = first.serial in
      let new = paginate_ogg_packets r.new_packets serial 1 in
      let old = length (first ∷ c.taken) in
      let audio' = written_audio (length new) old c.audio in
      let front = serialize first ++ serialize_pages c.taken in
      let audio-ok : All (IsPageOf serial) c.audio =
        All-right (IsPageOf serial) c.taken c.audio (rw c.left_is at (v.1)) in
      let file-is : serialize first ++ serialize_pages pages ≡ front ++ serialize_pages c.audio =
        ap (λ t. serialize first ++ serialize_pages t) c.left_is
        ∙ ap (λ t. serialize first ++ t) (serialize_pages-append c.taken c.audio)
        ∙ sym
            (append_assoc (serialize first) (serialize_pages c.taken) (serialize_pages c.audio)) in
      let size-is : h.size ≡ length front = omega (
        arith,
        c.size_is,
        length-append (serialize first) (serialize_pages c.taken),
        length-serialize first,
      ) in
      let written : r.audio ≡ serialize_pages audio' = ok-injective (
        sym r.audio_is
        ∙ write_audio-pages serial (length new) (length h.pages) h _ front c.audio c.rest_is file-is
            size-is audio-ok
        ∙ ap (λ n. ok (serialize_pages (written_audio (length new) n c.audio)))
            (ap length c.pages_is)) in
      let all : All (IsPageOf serial) (first ∷ (new ++ audio')) = (
        v.0,
        All-append (IsPageOf serial) new audio'
            (IsRun-IsPageOf serial 1 false new
              (paginate-IsRun r.new_packets serial 1 v.0.page.serial_in (omega arith)))
            (written_audio-IsPageOf serial (length new) old c.audio audio-ok),
      ) in
      record {
        is_opus = is_opus;
        taken = c.taken;
        audio = c.audio;
        pages_is = c.left_is;
        packets = h.packets;
        last = c.last;
        assembled = rw (← c.pages_is) c.assembled;
        body = r.body;
        body_is = r.body_is;
        vendor = r.vendor;
        comments = r.comments;
        parsed = r.parsed;
        vendor' = r.vendor';
        comments' = r.comments';
        edited = r.edited;
        new_packets = r.new_packets;
        new_packets_are = r.new_packets_are;
        new = new;
        out_is =
            ap read_all_ogg_edit_pages (
              r.out_is
              ∙ ap (λ a. serialize first ++ (serialize_pages new ++ a)) written
              ∙ ap (λ t. serialize first ++ t) (sym (serialize_pages-append new audio')))
            ∙ read_back-serialize_pages serial (first ∷ (new ++ audio')) (omega arith) all;
        new_are =
            assemble-paginate r.new_packets serial 1 audio'
              (rw r.new_packets_are (length-header_packets is_opus _ h.packets));
      }

  -- A successful edit of a file that is a sequence of pages of one stream: the output reads as the
  -- first page unchanged, then the pages of the new header packets, then the audio pages unchanged
  -- but for their numbers (these too, where the number of header pages is kept); the new header
  -- packets are the edited comments and, for Vorbis, the setup packet of the input.
  pub edit_ogg_fields-IsEdited :
      (first : OggEditPage) (pages : List OggEditPage) (out : Bytes)
      → All (IsPageOf first.serial) (first ∷ pages)
      → edit_ogg_fields edit (serialize_pages (first ∷ pages)) ≡ ok out
      → IsEdited first pages out
  unfolding edit_ogg_fields serialize_pages
  edit_ogg_fields-IsEdited first pages out v e =
      let file = serialize_pages (first ∷ pages) in
      let opened =
        rw (read-serialize first (serialize_pages pages) v.0.page, edit_ogg_fields) at e in
      let (is_opus, _, e₁) = chain_value (codec_of first.payload) _ opened in
      let (h, collected, e₂) =
        chain_value
          (collect_headers 1024 (header_packet_count is_opus) first.serial (first ∷ [])
            (byte_size first) (serialize_pages pages))
          _ e₁ in
      IsRewritten-IsEdited is_opus first pages h out v
        (collect_headers-IsCollected 1024 (header_packet_count is_opus) first.serial (first ∷ [])
          (byte_size first) pages h v.1 collected)
        (rewrite_headers-IsRewritten is_opus first h file out e₂)
