-- ===== src/Vorbis.antt =====
-- Single comments of a Vorbis comment block: `setComment`, `setOrClearComment`, `setArtistComments`,
-- `setOrClearArtistComments` and `removeCommentKey` of go_backend/metadata.go, on the list of comments
-- that they change in place. `upper`, `lower` and `trim` are ToUpper, ToLower and TrimSpace of package
-- strings, and `pieces` is `artistTagSplitPattern.Split` of package regexp; nothing of them is used here.
-- `splits` is what `shouldSplitVorbisArtistTags` says of the mode.
pub mod Set
pub mod Fields
pub mod Filtered
pub mod Untouched
pub mod Keys
pub mod Edited
mod Tests
use musi_flac.Prelude.{
  ℕ, Bool, true, false, not, ◌&&◌, ◌||◌, List, [], ◌∷◌, ◌++◌, Option, none, some, ◌==◌,
  if◌then◌else◌, Bytes, ◌=ₛ◌,
}
use musi_flac.Ape.Merge.{has}

-- `comment[:strings.Index(comment, "=")]`, where there is one.
unfoldable pub before_equals : Bytes → Option Bytes
before_equals [] = none
before_equals (c ∷ s) =
    let rest = before_equals s in
    if c == b'=' then some [] else elim rest [ none ↦ none | some key ↦ some (c ∷ key) ]

-- `key+"="+value`
unfoldable pub comment_of : Bytes → Bytes → Bytes
comment_of key value = key ++ (b'=' ∷ value)

module _ (upper : Bytes → Bytes) where
  -- The test of `removeCommentKey`: the comment has a key, which is not empty, and it is this one.
  unfoldable pub has_key : Bytes → Bytes → Bool
  has_key key comment = elim (before_equals comment) [
    | none ↦ false
    | some k ↦ not (k =ₛ []) && (upper k =ₛ upper key)
  ]

  -- The loop runs from the last comment to the first, so that an index stays good when one goes.
  unfoldable pub remove_comment_key : Bytes → List Bytes → List Bytes
  remove_comment_key key [] = []
  remove_comment_key key (c ∷ cs) =
      let rest = remove_comment_key key cs in if has_key key c then rest else c ∷ rest

  unfoldable pub set_comment : Bytes → Bytes → List Bytes → List Bytes
  set_comment key value comments =
      if value =ₛ []
      then comments
      else remove_comment_key key comments ++ (comment_of key value ∷ [])

  unfoldable pub set_or_clear_comment : Bytes → Bytes → List Bytes → List Bytes
  set_or_clear_comment key value comments =
      if value =ₛ []
      then remove_comment_key key comments
      else remove_comment_key key comments ++ (comment_of key value ∷ [])

  module _ (trim lower : Bytes → Bytes) (pieces : Bytes → List Bytes) where
    -- The comments that the loop over the artists appends.
    unfoldable pub artist_comments : Bytes → List Bytes → List Bytes
    artist_comments key [] = []
    artist_comments key (a ∷ artists) =
        let rest = artist_comments key artists in
        if trim a =ₛ [] then rest else comment_of key a ∷ rest

    -- The loop of `splitArtistTagValues`, with the artists seen so far in small letters.
    unfoldable pub unique_artists : List Bytes → List Bytes → List Bytes
    unique_artists seen [] = []
    unique_artists seen (part ∷ parts) =
        let artist = trim part in
        let skipped = artist =ₛ [] || has (lower artist) seen in
        let rest = unique_artists (if skipped then seen else lower artist ∷ seen) parts in
        if skipped then rest else artist ∷ rest

    unfoldable pub split_artist_tag_values : Bytes → List Bytes
    split_artist_tag_values raw =
        if trim raw =ₛ [] then [] else elim (unique_artists [] (pieces (trim raw))) [
          | [] ↦ trim raw ∷ []
          | artist ∷ artists ↦ artist ∷ artists
        ]

    unfoldable pub artist_values : Bool → Bytes → List Bytes
    artist_values splits value = if splits then split_artist_tag_values value else value ∷ []

    unfoldable pub set_artist_comments : Bool → Bytes → Bytes → List Bytes → List Bytes
    set_artist_comments splits key value comments =
        if value =ₛ [] then comments else elim (artist_values splits value) [
          | [] ↦ comments
          | a ∷ artists ↦ remove_comment_key key comments ++ artist_comments key (a ∷ artists)
        ]

    unfoldable pub set_or_clear_artist_comments : Bool → Bytes → Bytes → List Bytes → List Bytes
    set_or_clear_artist_comments splits key value comments =
        if value =ₛ [] then remove_comment_key key comments else elim (artist_values splits value) [
          | [] ↦ remove_comment_key key comments
          | a ∷ artists ↦ remove_comment_key key comments ++ artist_comments key (a ∷ artists)
        ]
