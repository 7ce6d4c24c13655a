-- ===== src/Id3/Genres.antt =====
-- Genres of ID3 tags: `id3v1Genres` and `cleanGenre` of go_backend/audio_metadata.go.
use musi_flac.Prelude.{
  ◌&&◌, List, [], ◌∷◌, Option, none, some, ◌==◌, if◌then◌else◌, length, get_elem?, get_or, drop,
  Bytes, codes, ◌=ₛ◌, ℤ, pos, negsuc, ltb_ℤ,
}
use musi_flac.Id3.Text.{Packages, split_byte}

unfoldable pub id3v1_genres : List Bytes
id3v1_genres =
    codes "Blues"
    ∷ codes "Classic Rock"
    ∷ codes "Country"
    ∷ codes "Dance"
    ∷ codes "Disco"
    ∷ codes "Funk"
    ∷ codes "Grunge"
    ∷ codes "Hip-Hop"
    ∷ codes "Jazz"
    ∷ codes "Metal"
    ∷ codes "New Age"
    ∷ codes "Oldies"
    ∷ codes "Other"
    ∷ codes "Pop"
    ∷ codes "R&B"
    ∷ codes "Rap"
    ∷ codes "Reggae"
    ∷ codes "Rock"
    ∷ codes "Techno"
    ∷ codes "Industrial"
    ∷ codes "Alternative"
    ∷ codes "Ska"
    ∷ codes "Death Metal"
    ∷ codes "Pranks"
    ∷ codes "Soundtrack"
    ∷ codes "Euro-Techno"
    ∷ codes "Ambient"
    ∷ codes "Trip-Hop"
    ∷ codes "Vocal"
    ∷ codes "Jazz+Funk"
    ∷ codes "Fusion"
    ∷ codes "Trance"
    ∷ codes "Classical"
    ∷ codes "Instrumental"
    ∷ codes "Acid"
    ∷ codes "House"
    ∷ codes "Game"
    ∷ codes "Sound Clip"
    ∷ codes "Gospel"
    ∷ codes "Noise"
    ∷ codes "AlternRock"
    ∷ codes "Bass"
    ∷ codes "Soul"
    ∷ codes "Punk"
    ∷ codes "Space"
    ∷ codes "Meditative"
    ∷ codes "Instrumental Pop"
    ∷ codes "Instrumental Rock"
    ∷ codes "Ethnic"
    ∷ codes "Gothic"
    ∷ codes "Darkwave"
    ∷ codes "Techno-Industrial"
    ∷ codes "Electronic"
    ∷ codes "Pop-Folk"
    ∷ codes "Eurodance"
    ∷ codes "Dream"
    ∷ codes "Southern Rock"
    ∷ codes "Comedy"
    ∷ codes "Cult"
    ∷ codes "Gangsta"
    ∷ codes "Top 40"
    ∷ codes "Christian Rap"
    ∷ codes "Pop/Funk"
    ∷ codes "Jungle"
    ∷ codes "Native American"
    ∷ codes "Cabaret"
    ∷ codes "New Wave"
    ∷ codes "Psychedelic"
    ∷ codes "Rave"
    ∷ codes "Showtunes"
    ∷ codes "Trailer"
    ∷ codes "Lo-Fi"
    ∷ codes "Tribal"
    ∷ codes "Acid Punk"
    ∷ codes "Acid Jazz"
    ∷ codes "Polka"
    ∷ codes "Retro"
    ∷ codes "Musical"
    ∷ codes "Rock & Roll"
    ∷ codes "Hard Rock"
    ∷ codes "Folk"
    ∷ codes "Folk-Rock"
    ∷ codes "National Folk"
    ∷ codes "Swing"
    ∷ codes "Fast Fusion"
    ∷ codes "Bebop"
    ∷ codes "Latin"
    ∷ codes "Revival"
    ∷ codes "Celtic"
    ∷ codes "Bluegrass"
    ∷ codes "Avantgarde"
    ∷ codes "Gothic Rock"
    ∷ codes "Progressive Rock"
    ∷ codes "Psychedelic Rock"
    ∷ codes "Symphonic Rock"
    ∷ codes "Slow Rock"
    ∷ codes "Big Band"
    ∷ codes "Chorus"
    ∷ codes "Easy Listening"
    ∷ codes "Acoustic"
    ∷ codes "Humour"
    ∷ codes "Speech"
    ∷ codes "Chanson"
    ∷ codes "Opera"
    ∷ codes "Chamber Music"
    ∷ codes "Sonata"
    ∷ codes "Symphony"
    ∷ codes "Booty Bass"
    ∷ codes "Primus"
    ∷ codes "Porn Groove"
    ∷ codes "Satire"
    ∷ codes "Slow Jam"
    ∷ codes "Club"
    ∷ codes "Tango"
    ∷ codes "Samba"
    ∷ codes "Folklore"
    ∷ codes "Ballad"
    ∷ codes "Power Ballad"
    ∷ codes "Rhythmic Soul"
    ∷ codes "Freestyle"
    ∷ codes "Duet"
    ∷ codes "Punk Rock"
    ∷ codes "Drum Solo"
    ∷ codes "A capella"
    ∷ codes "Euro-House"
    ∷ codes "Dance Hall"
    ∷ codes "Goa"
    ∷ codes "Drum & Bass"
    ∷ codes "Club-House"
    ∷ codes "Hardcore"
    ∷ codes "Terror"
    ∷ codes "Indie"
    ∷ codes "BritPop"
    ∷ codes "Negerpunk"
    ∷ codes "Polsk Punk"
    ∷ codes "Beat"
    ∷ codes "Christian Gangsta Rap"
    ∷ codes "Heavy Metal"
    ∷ codes "Black Metal"
    ∷ codes "Crossover"
    ∷ codes "Contemporary Christian"
    ∷ codes "Christian Rock"
    ∷ codes "Merengue"
    ∷ codes "Salsa"
    ∷ codes "Thrash Metal"
    ∷ codes "Anime"
    ∷ codes "J-Pop"
    ∷ codes "Synthpop"
    ∷ []

-- `id3v1Genres[num]`: nothing where Go panics.
unfoldable pub genre_at : ℤ → Option Bytes
genre_at (pos n) = get_elem? id3v1_genres n
genre_at (negsuc n) = none

-- `cleanGenre`: nothing where Go panics.
unfoldable pub clean_genre : Packages → Bytes → Option Bytes
clean_genre go genre = elim (split_byte b')' genre) [
  | none ↦ some genre
  | some (before, after) ↦
      let number = drop 1 before in
      let known = go.is_number number && ltb_ℤ (go.atoi number) (pos (length id3v1_genres)) in
      let named = if after =ₛ [] then genre_at (go.atoi number) else some after in
      if get_or genre 0 0 == b'(' && known then named else some genre
]
