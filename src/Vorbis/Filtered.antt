-- ===== src/Vorbis/Filtered.antt =====
-- The comments that pass a test, and the changes of go_backend/metadata.go that do not touch them.
use musi_flac.Prelude.{
  ◌≡◌, refl, ap, ◌∙◌, inl, inr, Bool, true, false, List, [], ◌∷◌, ◌++◌, arith, if◌then◌else◌,
  Bool-cases, Bytes, append-nil, ◌=ₛ◌, All,
}
use musi_flac.Id3.Text.{Packages}
use musi_flac.Vorbis.{
  comment_of, has_key, remove_comment_key, set_or_clear_comment, artist_comments, artist_values,
  set_or_clear_artist_comments,
}
use musi_flac.Vorbis.Set.{IsKey, AllOwn, has_key-comment_of, artist_comments-own}
use musi_flac.Vorbis.Fields.{remove_keys}

-- The comments that pass a test.
unfoldable pub filtered : (Bytes → Bool) → List Bytes → List Bytes
filtered p [] = []
filtered p (c ∷ cs) = let rest = filtered p cs in if p c then c ∷ rest else rest

filtered-append :
    (p : Bytes → Bool) (a b : List Bytes) → filtered p (a ++ b) ≡ filtered p a ++ filtered p b
unfolding filtered
filtered-append p [] b = refl
filtered-append p (c ∷ a) b = ground (arith, filtered-append p a b)

module _ (go : Packages) (p : Bytes → Bool) where
  -- No comment of the key passes the test.
  abbrev pub Spared : Bytes → Type 0
  Spared key = (c : Bytes) → has_key go.to_upper key c ≡ true → p c ≡ false

  pub filtered-remove :
      (key : Bytes) (cs : List Bytes)
      → Spared key
      → filtered p (remove_comment_key go.to_upper key cs) ≡ filtered p cs
  unfolding filtered remove_comment_key
  filtered-remove key [] s = refl
  filtered-remove key (c ∷ cs) s = elim (Bool-cases (has_key go.to_upper key c)) [
    | inl own ↦ rw own (rw (s c own) (filtered-remove key cs s))
    | inr other ↦ rw other (ground (arith, filtered-remove key cs s))
  ]

  pub filtered-remove_keys :
      (keys cs : List Bytes) → All Spared keys → filtered p (remove_keys go keys cs) ≡ filtered p cs
  unfolding remove_keys
  filtered-remove_keys [] cs s = refl
  filtered-remove_keys (key ∷ keys) cs s =
      filtered-remove_keys keys (remove_comment_key go.to_upper key cs) s.1
      ∙ filtered-remove key cs s.0

  filtered_own :
      (key : Bytes) (cs : List Bytes) → Spared key → AllOwn go.to_upper key cs → filtered p cs ≡ []
  unfolding filtered
  filtered_own key [] s h = refl
  filtered_own key (c ∷ cs) s h = ground (arith, s c h.0, filtered_own key cs s h.1)

  pub filtered-put :
      (key : Bytes) (cs new : List Bytes)
      → Spared key
      → AllOwn go.to_upper key new
      → filtered p (remove_comment_key go.to_upper key cs ++ new) ≡ filtered p cs
  filtered-put key cs new s h =
      filtered-append p (remove_comment_key go.to_upper key cs) new
      ∙ ap (λ t. filtered p (remove_comment_key go.to_upper key cs) ++ t) (filtered_own key new s h)
      ∙ append-nil (filtered p (remove_comment_key go.to_upper key cs))
      ∙ filtered-remove key cs s

  pub filtered-set_or_clear :
      (key value : Bytes) (cs : List Bytes)
      → IsKey key
      → Spared key
      → filtered p (set_or_clear_comment go.to_upper key value cs) ≡ filtered p cs
  unfolding set_or_clear_comment
  filtered-set_or_clear key value cs k s = elim (Bool-cases (value =ₛ [])) [
    | inl empty ↦ rw empty (filtered-remove key cs s)
    | inr new ↦ rw new (
        filtered-put key cs (comment_of key value ∷ []) s
          (has_key-comment_of go.to_upper key value k, tt))
  ]

module _ (go : Packages) (pieces : Bytes → List Bytes) (p : Bytes → Bool) where
  pub filtered-artists :
      (splits : Bool) (key value : Bytes) (cs : List Bytes)
      → IsKey key
      → Spared go p key
      → filtered p (
          set_or_clear_artist_comments go.to_upper go.trim_space go.to_lower pieces splits key value
            cs)
        ≡ filtered p cs
  unfolding set_or_clear_artist_comments
  filtered-artists splits key value cs k s = elim (Bool-cases (value =ₛ [])) [
    | inl empty ↦ rw empty (filtered-remove go p key cs s)
    | inr new ↦
        rw new (put (artist_values go.to_upper go.trim_space go.to_lower pieces splits value))
  ]
    where
      put :
          (artists : List Bytes)
          → filtered p (elim artists [
            | [] ↦ remove_comment_key go.to_upper key cs
            | a ∷ rest ↦
                remove_comment_key go.to_upper key cs
                ++ artist_comments go.to_upper go.trim_space go.to_lower pieces key (a ∷ rest)
          ])
            ≡ filtered p cs
      put [] = filtered-remove go p key cs s
      put (a ∷ rest) =
          filtered-put go p key cs _ s
            (artist_comments-own go.to_upper go.trim_space go.to_lower pieces key (a ∷ rest) k)
