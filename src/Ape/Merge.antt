-- ===== src/Ape/Merge.antt =====
-- `MergeAPEItems` of go_backend/ape_tags.go. A set of keys is the list of its members. `upper` is
-- strings.ToUpper; that it is idempotent is not needed.
use musi_flac.Prelude.{
  ◌≡◌, refl, Bool, false, ◌||◌, List, [], ◌∷◌, ◌++◌, arith, if◌then◌else◌, append-nil, Bytes, ◌=ₛ◌,
  =ₛ_iff,
}
use musi_flac.Ape.Tag.{ApeTagItem}

-- Membership in a set of strings.
unfoldable pub has : Bytes → List Bytes → Bool
has k [] = false
has k (j ∷ js) = j =ₛ k || has k js

module _ (upper : Bytes → Bytes) where
  unfoldable pub upper_all : List Bytes → List Bytes
  upper_all [] = []
  upper_all (k ∷ ks) = upper k ∷ upper_all ks

  unfoldable pub item_keys : List ApeTagItem → List Bytes
  item_keys [] = []
  item_keys (i ∷ is) = upper i.key ∷ item_keys is

  -- The loop over the existing items.
  unfoldable pub kept_items : List Bytes → List ApeTagItem → List ApeTagItem
  kept_items combined [] = []
  kept_items combined (i ∷ is) =
      let rest = kept_items combined is in if has (upper i.key) combined then rest else i ∷ rest

  unfoldable pub merge_ape_items : List ApeTagItem → List ApeTagItem → List Bytes → List ApeTagItem
  merge_ape_items existing new override =
      kept_items (upper_all override ++ item_keys new) existing ++ new

  -- The items of a key, in their order: what a reader of the tag sees of it.
  unfoldable pub of_key : Bytes → List ApeTagItem → List ApeTagItem
  of_key k [] = []
  of_key k (i ∷ is) = let rest = of_key k is in if upper i.key =ₛ k then i ∷ rest else rest

  of_key-append : (k : Bytes) (a b : List ApeTagItem) → of_key k (a ++ b) ≡ of_key k a ++ of_key k b
  unfolding of_key
  of_key-append k [] b = refl
  of_key-append k (i ∷ a) b = ground (arith, of_key-append k a b)

  of_key-kept_items :
      (k : Bytes) (combined : List Bytes) (is : List ApeTagItem)
      → of_key k (kept_items combined is) ≡ (if has k combined then [] else of_key k is)
  unfolding of_key kept_items
  of_key-kept_items k combined [] = ground arith
  of_key-kept_items k combined (i ∷ is) =
      ground (arith, of_key-kept_items k combined is, =ₛ_iff (upper i.key) k)

  pub has-append : (k : Bytes) (a b : List Bytes) → has k (a ++ b) ≡ (has k a || has k b)
  unfolding has
  has-append k [] b = refl
  has-append k (j ∷ a) b = ground (arith, has-append k a b)

  pub of_key-none :
      (k : Bytes) (is : List ApeTagItem) → has k (item_keys is) ≡ false → of_key k is ≡ []
  unfolding of_key item_keys has
  of_key-none k [] h = refl
  of_key-none k (i ∷ is) h = ground (arith, of_key-none k is)

  -- Of a key that the new items or the override set name, the merged tag has the new items alone, so
  -- none where a field was cleared; of any other key it has what was there, in the order it was.
  pub of_key-merge :
      (k : Bytes) (existing new : List ApeTagItem) (override : List Bytes)
      → of_key k (merge_ape_items existing new override) ≡ (
          if has k (upper_all override) || has k (item_keys new)
          then of_key k new
          else of_key k existing)
  unfolding merge_ape_items
  of_key-merge k existing new override =
      let combined = upper_all override ++ item_keys new in
      ground (
        arith,
        of_key-append k (kept_items combined existing) new,
        of_key-kept_items k combined existing,
        has-append k (upper_all override) (item_keys new),
        of_key-none k new,
        append-nil (of_key k existing),
      )
