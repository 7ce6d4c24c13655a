-- ===== src/Id3/TextField.antt =====
-- The fields of a single text: their keys, their frames, and where `applyID3Frame` of
-- go_backend/audio_metadata.go stores them.
use musi_flac.Prelude.{
  ◌≡◌, refl, Bool, true, false, Option, none, some, if◌then◌else◌, Bytes, codes, ◌=ₛ◌,
}
use musi_flac.Id3.Apply.{AudioMetadata}

-- The plain texts among the simple fields.
pub data TextField : Type 0 where
  title : TextField
  artist : TextField
  album : TextField
  album_artist : TextField
  label : TextField
  copyright : TextField
  composer : TextField
  isrc : TextField

abbrev pub key_of : TextField → Bytes
key_of title = codes "title"
key_of artist = codes "artist"
key_of album = codes "album"
key_of album_artist = codes "album_artist"
key_of label = codes "label"
key_of copyright = codes "copyright"
key_of composer = codes "composer"
key_of isrc = codes "isrc"

abbrev pub id_of : TextField → Bytes
id_of title = codes "TIT2"
id_of artist = codes "TPE1"
id_of album = codes "TALB"
id_of album_artist = codes "TPE2"
id_of label = codes "TPUB"
id_of copyright = codes "TCOP"
id_of composer = codes "TCOM"
id_of isrc = codes "TSRC"

abbrev pub value_of : TextField → AudioMetadata → Bytes
value_of title m = m.title
value_of artist m = m.artist
value_of album m = m.album
value_of album_artist m = m.album_artist
value_of label m = m.label
value_of copyright m = m.copyright
value_of composer m = m.composer
value_of isrc m = m.isrc

-- A step that does not panic and keeps a text, or gives it a value.
abbrev pub Gives : TextField → Bytes → Option AudioMetadata → Type 0
Gives f v none = ⊥
Gives f v (some m) = value_of f m ≡ v

pub Gives-if :
    (f : TextField) (v : Bytes) (c : Bool) (a b : Option AudioMetadata)
    → (c ≡ true → Gives f v a)
    → Gives f v b
    → Gives f v (if c then a else b)
Gives-if f v true a b yes_ no_ = yes_ refl
Gives-if f v false a b yes_ no_ = no_

pub title-other :
    (f : TextField) (v : Bytes) (m : AudioMetadata)
    → (codes "TIT2" =ₛ id_of f) ≡ false
    → value_of f (record m { title = v }) ≡ value_of f m
unfolding ◌=ₛ◌
title-other title v m h = cc
title-other _ v m h = refl

pub artist-other :
    (f : TextField) (v : Bytes) (m : AudioMetadata)
    → (codes "TPE1" =ₛ id_of f) ≡ false
    → value_of f (record m { artist = v }) ≡ value_of f m
unfolding ◌=ₛ◌
artist-other artist v m h = cc
artist-other _ v m h = refl

pub album_artist-other :
    (f : TextField) (v : Bytes) (m : AudioMetadata)
    → (codes "TPE2" =ₛ id_of f) ≡ false
    → value_of f (record m { album_artist = v }) ≡ value_of f m
unfolding ◌=ₛ◌
album_artist-other album_artist v m h = cc
album_artist-other _ v m h = refl

pub album-other :
    (f : TextField) (v : Bytes) (m : AudioMetadata)
    → (codes "TALB" =ₛ id_of f) ≡ false
    → value_of f (record m { album = v }) ≡ value_of f m
unfolding ◌=ₛ◌
album-other album v m h = cc
album-other _ v m h = refl

pub isrc-other :
    (f : TextField) (v : Bytes) (m : AudioMetadata)
    → (codes "TSRC" =ₛ id_of f) ≡ false
    → value_of f (record m { isrc = v }) ≡ value_of f m
unfolding ◌=ₛ◌
isrc-other isrc v m h = cc
isrc-other _ v m h = refl

pub composer-other :
    (f : TextField) (v : Bytes) (m : AudioMetadata)
    → (codes "TCOM" =ₛ id_of f) ≡ false
    → value_of f (record m { composer = v }) ≡ value_of f m
unfolding ◌=ₛ◌
composer-other composer v m h = cc
composer-other _ v m h = refl

pub label-other :
    (f : TextField) (v : Bytes) (m : AudioMetadata)
    → (codes "TPUB" =ₛ id_of f) ≡ false
    → value_of f (record m { label = v }) ≡ value_of f m
unfolding ◌=ₛ◌
label-other label v m h = cc
label-other _ v m h = refl

pub copyright-other :
    (f : TextField) (v : Bytes) (m : AudioMetadata)
    → (codes "TCOP" =ₛ id_of f) ≡ false
    → value_of f (record m { copyright = v }) ≡ value_of f m
unfolding ◌=ₛ◌
copyright-other copyright v m h = cc
copyright-other _ v m h = refl
