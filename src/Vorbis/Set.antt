-- ===== src/Vorbis/Set.antt =====
-- What the setters of Vorbis comments in go_backend/metadata.go leave of every key.
use musi_flac.Prelude.{
  ◌≡◌, refl, ◌∙◌, inl, inr, Bool, true, false, List, [], ◌∷◌, ◌++◌, some, arith, ◌==◌,
  if◌then◌else◌, Bool-cases, append-nil, Bytes, ◌=ₛ◌, =ₛ_self, All,
}
use musi_flac.Vorbis.{
  before_equals, comment_of, has_key, remove_comment_key, set_comment, set_or_clear_comment,
  artist_comments, artist_values, set_or_clear_artist_comments,
}

-- A key artists the code uses them: not empty, and without the sign that ends a key.
pub record IsKey (key : Bytes) : Type 0 where
  pub filled : (key =ₛ []) ≡ false
  pub plain : All (λ c. (c == b'=') ≡ false) key

before_equals-comment_of :
    (key value : Bytes)
    → All (λ c. (c == b'=') ≡ false) key
    → before_equals (comment_of key value) ≡ some key
unfolding before_equals comment_of
before_equals-comment_of [] value h = refl
before_equals-comment_of (c ∷ key) value h =
    ground (arith, h.0, before_equals-comment_of key value h.1)

module _ (upper : Bytes → Bytes) where
  pub has_key-comment_of :
      (key value : Bytes) → IsKey key → has_key upper key (comment_of key value) ≡ true
  unfolding has_key
  has_key-comment_of key value k =
      ground (arith, before_equals-comment_of key value k.plain, k.filled, =ₛ_self (upper key))

  -- The comments of a key, and the others, in their order.
  unfoldable pub own : Bytes → List Bytes → List Bytes
  own key [] = []
  own key (c ∷ cs) = let rest = own key cs in if has_key upper key c then c ∷ rest else rest

  unfoldable pub others : Bytes → List Bytes → List Bytes
  others key [] = []
  others key (c ∷ cs) = let rest = others key cs in if has_key upper key c then rest else c ∷ rest

  own-append : (key : Bytes) (a b : List Bytes) → own key (a ++ b) ≡ own key a ++ own key b
  unfolding own
  own-append key [] b = refl
  own-append key (c ∷ a) b = ground (arith, own-append key a b)

  others-append :
      (key : Bytes) (a b : List Bytes) → others key (a ++ b) ≡ others key a ++ others key b
  unfolding others
  others-append key [] b = refl
  others-append key (c ∷ a) b = ground (arith, others-append key a b)

  own-remove : (key : Bytes) (cs : List Bytes) → own key (remove_comment_key upper key cs) ≡ []
  unfolding own remove_comment_key
  own-remove key [] = refl
  own-remove key (c ∷ cs) = ground (arith, own-remove key cs)

  others-remove :
      (key : Bytes) (cs : List Bytes) → others key (remove_comment_key upper key cs) ≡ others key cs
  unfolding others remove_comment_key
  others-remove key [] = refl
  others-remove key (c ∷ cs) = ground (arith, others-remove key cs)

  -- Comments that are all of a key.
  abbrev pub AllOwn : Bytes → List Bytes → Type 0
  AllOwn key cs = All (λ c. has_key upper key c ≡ true) cs

  own-all : (key : Bytes) (cs : List Bytes) → AllOwn key cs → own key cs ≡ cs
  unfolding own
  own-all key [] h = refl
  own-all key (c ∷ cs) h = ground (arith, h.0, own-all key cs h.1)

  others-all : (key : Bytes) (cs : List Bytes) → AllOwn key cs → others key cs ≡ []
  unfolding others
  others-all key [] h = refl
  others-all key (c ∷ cs) h = ground (arith, h.0, others-all key cs h.1)

  -- What a change of one key does: the comments of the key are these, and the others are kept.
  pub record IsReplaced (key : Bytes) (now before after : List Bytes) : Type 0 where
    pub own_are : own key after ≡ now
    pub others_kept : others key after ≡ others key before

  put_new-IsReplaced :
      (key : Bytes) (new cs : List Bytes)
      → AllOwn key new
      → IsReplaced key new cs (remove_comment_key upper key cs ++ new)
  put_new-IsReplaced key new cs h = record {
    own_are =
        own-append key (remove_comment_key upper key cs) new
        ∙ ground (arith, own-remove key cs, own-all key new h);
    others_kept =
        others-append key (remove_comment_key upper key cs) new
        ∙ ground (arith, others-remove key cs, others-all key new h, append-nil (others key cs));
  }

  put_none-IsReplaced :
      (key : Bytes) (cs : List Bytes) → IsReplaced key [] cs (remove_comment_key upper key cs)
  put_none-IsReplaced key cs = record {
    own_are = own-remove key cs;
    others_kept = others-remove key cs;
  }

  -- `setOrClearComment` leaves the one comment of the new value under its key, or none where the value
  -- is empty, whatever comments the key had and however they spelled it; all comments of other keys,
  -- and what is no comment, stay in their order.
  pub set_or_clear_comment-IsReplaced :
      (key value : Bytes) (cs : List Bytes)
      → IsKey key
      → IsReplaced key
          (if value =ₛ [] then [] else comment_of key value ∷ [])
          cs
          (set_or_clear_comment upper key value cs)
  unfolding set_or_clear_comment
  set_or_clear_comment-IsReplaced key value cs k = elim (Bool-cases (value =ₛ [])) [
    | inl empty ↦ rw empty (put_none-IsReplaced key cs)
    | inr new ↦
        rw new (
          put_new-IsReplaced key (comment_of key value ∷ []) cs
            (has_key-comment_of key value k, tt))
  ]

  -- `setComment` does the same with a new value, and with an empty one nothing.
  pub set_comment-IsReplaced :
      (key value : Bytes) (cs : List Bytes)
      → IsKey key
      → IsReplaced key
          (if value =ₛ [] then own key cs else comment_of key value ∷ [])
          cs
          (set_comment upper key value cs)
  unfolding set_comment
  set_comment-IsReplaced key value cs k = elim (Bool-cases (value =ₛ [])) [
    | inl empty ↦ rw empty (record { own_are = refl; others_kept = refl })
    | inr new ↦
        rw new (
          put_new-IsReplaced key (comment_of key value ∷ []) cs
            (has_key-comment_of key value k, tt))
  ]

  module _ (trim lower : Bytes → Bytes) (pieces : Bytes → List Bytes) where
    pub artist_comments-own :
        (key : Bytes) (artists : List Bytes)
        → IsKey key
        → AllOwn key (artist_comments upper trim lower pieces key artists)
    unfolding artist_comments
    artist_comments-own key [] k = tt
    artist_comments-own key (a ∷ artists) k = elim (Bool-cases (trim a =ₛ [])) [
      | inl blank ↦ rw blank (artist_comments-own key artists k)
      | inr named ↦ rw named (has_key-comment_of key a k, artist_comments-own key artists k)
    ]

    -- The artists in place of the comments of the key.
    put_artists-IsReplaced :
        (key : Bytes) (artists cs : List Bytes)
        → IsKey key
        → IsReplaced key (artist_comments upper trim lower pieces key artists) cs (elim artists [
          | [] ↦ remove_comment_key upper key cs
          | a ∷ rest ↦
              remove_comment_key upper key cs
              ++ artist_comments upper trim lower pieces key (a ∷ rest)
        ])
    put_artists-IsReplaced key [] cs k = unfold artist_comments in (put_none-IsReplaced key cs)
    put_artists-IsReplaced key (a ∷ rest) cs k =
        put_new-IsReplaced key (artist_comments upper trim lower pieces key (a ∷ rest)) cs
          (artist_comments-own key (a ∷ rest) k)

    -- `setOrClearArtistComments` leaves one comment for each artist that is not blank, in order, or
    -- none where the value is empty; all comments of other keys stay in their order.
    pub set_or_clear_artist_comments-IsReplaced :
        (splits : Bool) (key value : Bytes) (cs : List Bytes)
        → IsKey key
        → IsReplaced key
            (if value =ₛ []
              then []
              else artist_comments upper trim lower pieces key
                  (artist_values upper trim lower pieces splits value))
            cs
            (set_or_clear_artist_comments upper trim lower pieces splits key value cs)
    unfolding set_or_clear_artist_comments
    set_or_clear_artist_comments-IsReplaced splits key value cs k =
        elim (Bool-cases (value =ₛ [])) [
          | inl empty ↦ rw empty (put_none-IsReplaced key cs)
          | inr new ↦
              rw new (
                put_artists-IsReplaced key (artist_values upper trim lower pieces splits value) cs
                  k)
        ]
