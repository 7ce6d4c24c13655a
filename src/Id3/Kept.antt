-- ===== src/Id3/Kept.antt =====
-- What `applyID3Frame` of go_backend/audio_metadata.go does to the plain texts.
use musi_flac.Prelude.{
  ◌≡◌, refl, ap, true, false, ◌||◌, some, leb, if◌then◌else◌, length, Bytes, codes, ◌=ₛ◌, =ₛ_iff,
  arith,
}
use musi_flac.Id3.{Frame}
use musi_flac.Id3.Text.{Packages, extract_text_frame, first_text_value}
use musi_flac.Id3.Genres.{clean_genre}
use musi_flac.Id3.Apply.{
  AudioMetadata, apply_id3_frame, apply_other, with_genre, with_track, with_disc, with_replay_gain,
  with_identity, with_user_lyrics,
}
use musi_flac.Id3.TextField.{
  TextField, title, artist, album, album_artist, label, copyright, composer, isrc, id_of, value_of,
  Gives, Gives-if, title-other, artist-other, album_artist-other, album-other, isrc-other,
  composer-other, label-other, copyright-other,
}

-- All plain texts.
abbrev texts : AudioMetadata → Bytes × Bytes × Bytes × Bytes × Bytes × Bytes × Bytes × Bytes
texts m = (m.title, m.artist, m.album, m.album_artist, m.label, m.copyright, m.composer, m.isrc)

differs :
    (f : TextField) (id i : Bytes)
    → (id =ₛ i) ≡ true
    → (id =ₛ id_of f) ≡ false
    → (i =ₛ id_of f) ≡ false
differs f id i same other = rw ((=ₛ_iff id i).0 same) at other

-- Where the genre of a frame is read, `cleanGenre` does not panic.
pub record HasGenre (go : Packages) (frame : Frame) : Type 0 where
  pub genre : Bytes
  pub cleaned :
      (frame.id =ₛ codes "TCON") ≡ true
      → clean_genre go (first_text_value (extract_text_frame frame.payload)) ≡ some genre

module _ (go : Packages) where
  -- A step that leaves all eight texts.
  texts_kept :
      (f : TextField) (m m' : AudioMetadata) → texts m' ≡ texts m → value_of f m' ≡ value_of f m
  texts_kept title m m' e = ap (λ t. t.0) e
  texts_kept artist m m' e = ap (λ t. t.1) e
  texts_kept album m m' e = ap (λ t. t.2) e
  texts_kept album_artist m m' e = ap (λ t. t.3) e
  texts_kept label m m' e = ap (λ t. t.4) e
  texts_kept copyright m m' e = ap (λ t. t.5) e
  texts_kept composer m m' e = ap (λ t. t.6) e
  texts_kept isrc m m' e = ap (λ t. t.7) e

  texts-user :
      (desc value : Bytes) (m : AudioMetadata)
      → texts (with_replay_gain go (go.to_upper desc) value (with_user_lyrics go desc value m))
        ≡ texts m
  unfolding with_replay_gain with_identity with_user_lyrics
  texts-user desc value m = ground arith

  texts-track : (value : Bytes) (m : AudioMetadata) → texts (with_track go value m) ≡ texts m
  unfolding with_track
  texts-track value m = refl

  texts-disc : (value : Bytes) (m : AudioMetadata) → texts (with_disc go value m) ≡ texts m
  unfolding with_disc
  texts-disc value m = refl

  genre-Gives :
      (f : TextField) (frame : Frame) (m : AudioMetadata)
      → HasGenre go frame
      → (frame.id =ₛ codes "TCON") ≡ true
      → Gives f
          (value_of f m)
          (with_genre go (first_text_value (extract_text_frame frame.payload)) m)
  genre-Gives f frame m h tcon =
      let m' : AudioMetadata = record m { genre = h.genre } in
      let step : with_genre go (first_text_value (extract_text_frame frame.payload)) m ≡ some m' =
        unfold with_genre in ground (arith, h.cleaned tcon) in
      rw step (texts_kept f m m' refl)

  apply_other-Gives :
      (f : TextField) (frame : Frame) (m : AudioMetadata)
      → HasGenre go frame
      → let value = first_text_value (extract_text_frame frame.payload) in
        Gives f (value_of f m) (apply_other go frame.id value frame.payload m)
  unfolding apply_other
  apply_other-Gives f frame m h =
      let value = first_text_value (extract_text_frame frame.payload) in
      let before = value_of f m in
      let id = frame.id in
      Gives-if f before (id =ₛ codes "TCON") _ _ (λ tcon. genre-Gives f frame m h tcon)
        (Gives-if f before (id =ₛ codes "TRCK") _ _
          (λ _. texts_kept f m (with_track go value m) (texts-track value m))
          (Gives-if f before (id =ₛ codes "TPOS") _ _
            (λ _. texts_kept f m (with_disc go value m) (texts-disc value m))
            (Gives-if f before (id =ₛ codes "TCMP") _ _ (λ _. texts_kept f m _ (ground arith))
              (Gives-if f before (id =ₛ codes "COMM") _ _ (λ _. texts_kept f m _ (ground arith))
                (Gives-if f before (id =ₛ codes "USLT") _ _ (λ _. texts_kept f m _ (ground arith))
                  (Gives-if f before (id =ₛ codes "TXXX") _ _
                    (λ _. texts_kept f m _ (texts-user _ _ m)) refl))))))

  -- A frame of another id leaves the text.
  pub apply_id3_frame-other :
      (f : TextField) (frame : Frame) (m : AudioMetadata)
      → HasGenre go frame
      → (frame.id =ₛ id_of f) ≡ false
      → Gives f (value_of f m) (apply_id3_frame go 4 frame.id frame.payload m)
  unfolding apply_id3_frame
  apply_id3_frame-other f frame m h other =
      let v = first_text_value (extract_text_frame frame.payload) in
      let before = value_of f m in
      let id = frame.id in
      let dated =
        if leb 4 (length v) then record m { year = v; date = v } else record m { year = v } in
      Gives-if f before (id =ₛ codes "TIT2") _ _
        (λ e. title-other f v m (differs f id (codes "TIT2") e other))
        (Gives-if f before (id =ₛ codes "TPE1") _ _
          (λ e. artist-other f v m (differs f id (codes "TPE1") e other))
          (Gives-if f before (id =ₛ codes "TPE2") _ _
            (λ e. album_artist-other f v m (differs f id (codes "TPE2") e other))
            (Gives-if f before (id =ₛ codes "TALB") _ _
              (λ e. album-other f v m (differs f id (codes "TALB") e other))
              (Gives-if f before ((id =ₛ codes "TYER") || (id =ₛ codes "TDRC")) _ _
                (λ e. texts_kept f m dated (ground arith))
                (Gives-if f before (id =ₛ codes "TSRC") _ _
                  (λ e. isrc-other f v m (differs f id (codes "TSRC") e other))
                  (Gives-if f before (id =ₛ codes "TCOM") _ _
                    (λ e. composer-other f v m (differs f id (codes "TCOM") e other))
                    (Gives-if f before (id =ₛ codes "TPUB") _ _
                      (λ e. label-other f v m (differs f id (codes "TPUB") e other))
                      (Gives-if f before (id =ₛ codes "TCOP") _ _
                        (λ e. copyright-other f v m (differs f id (codes "TCOP") e other))
                        (apply_other-Gives f frame m h)))))))))
