-- ===== src/Prelude/Dict.antt =====
-- A Go map with string keys, as an association list in which every key stands once. The order of a
-- `range` over it is the list's order; no theorem depends on it.
use Prim.Native.Nat.{suc, ◌≤◌}
use mathlib.Core.Path.{◌≡◌, refl}
use mathlib.Core.Logic.{inl, inr}
use mathlib.Core.Bool.{Bool}
use mathlib.Core.Option.{Option, none, some}
use mathlib.Core.List.{List, [], ◌∷◌}
use native.Mathlib.Omega.{arith}
use musi_flac.Prelude.Binary.{Bytes}
use musi_flac.Prelude.Lists.{length}
use musi_flac.Prelude.Tests.{if◌then◌else◌, Bool-cases}
use musi_flac.Prelude.Text.{◌=ₛ◌, =ₛ_iff}

module _ {V : Type 0} where
  unfoldable pub lookup : Bytes → List (Bytes × V) → Option V
  lookup k [] = none
  lookup k ((j, v) ∷ m) = if j =ₛ k then some v else lookup k m

  -- `m[k] = v`
  unfoldable pub insert : Bytes → V → List (Bytes × V) → List (Bytes × V)
  insert k v [] = (k, v) ∷ []
  insert k v ((j, w) ∷ m) = if j =ₛ k then (k, v) ∷ m else (j, w) ∷ insert k v m

  -- `delete(m, k)`
  unfoldable pub erase : Bytes → List (Bytes × V) → List (Bytes × V)
  erase k [] = []
  erase k ((j, w) ∷ m) = if j =ₛ k then erase k m else (j, w) ∷ erase k m

  -- The entries that a loop over the map picks by a test, and those it keeps.
  unfoldable pub filter_dict : (V → Bool) → List (Bytes × V) → List (Bytes × V)
  filter_dict p [] = []
  filter_dict p ((j, w) ∷ m) = if p w then (j, w) ∷ filter_dict p m else filter_dict p m

  -- Every key stands once.
  unfoldable pub IsDict : List (Bytes × V) → Type 0
  IsDict [] = Unit
  IsDict ((j, w) ∷ m) = (lookup j m ≡ none) × IsDict m

  pub lookup-insert :
      (k j : Bytes) (v : V) (m : List (Bytes × V))
      → lookup j (insert k v m) ≡ (if k =ₛ j then some v else lookup j m)
  unfolding lookup insert
  lookup-insert k j v [] = refl
  lookup-insert k j v ((i, w) ∷ m) =
      ground (arith, =ₛ_iff k j, =ₛ_iff i k, =ₛ_iff i j, lookup-insert k j v m)

  pub lookup-erase :
      (k j : Bytes) (m : List (Bytes × V))
      → lookup j (erase k m) ≡ (if k =ₛ j then none else lookup j m)
  unfolding lookup erase
  lookup-erase k j [] = ground arith
  lookup-erase k j ((i, w) ∷ m) =
      ground (arith, =ₛ_iff k j, =ₛ_iff i k, =ₛ_iff i j, lookup-erase k j m)

  pub insert-IsDict : (k : Bytes) (v : V) (m : List (Bytes × V)) → IsDict m → IsDict (insert k v m)
  unfolding insert IsDict
  insert-IsDict k v [] h = unfold lookup in (refl, tt)
  insert-IsDict k v ((j, w) ∷ m) h = elim (Bool-cases (j =ₛ k)) [
    | inl same ↦ rw same (rw ((=ₛ_iff j k).0 same) at h)
    | inr other ↦ rw other (
      ground (arith, lookup-insert k j v m, =ₛ_iff j k, =ₛ_iff k j, h.0),
      insert-IsDict k v m h.1,
    )
  ]

  pub erase-IsDict : (k : Bytes) (m : List (Bytes × V)) → IsDict m → IsDict (erase k m)
  unfolding erase IsDict
  erase-IsDict k [] h = tt
  erase-IsDict k ((j, w) ∷ m) h = elim (Bool-cases (j =ₛ k)) [
    | inl same ↦ rw same (erase-IsDict k m h.1)
    | inr other ↦ rw other (ground (arith, lookup-erase k j m, h.0), erase-IsDict k m h.1)
  ]

  pub lookup-filter_none :
      (p : V → Bool) (k : Bytes) (m : List (Bytes × V))
      → lookup k m ≡ none
      → lookup k (filter_dict p m) ≡ none
  unfolding lookup filter_dict
  lookup-filter_none p k [] h = refl
  lookup-filter_none p k ((j, w) ∷ m) h = ground (arith, lookup-filter_none p k m)

  pub filter_dict-IsDict :
      (p : V → Bool) (m : List (Bytes × V)) → IsDict m → IsDict (filter_dict p m)
  unfolding filter_dict IsDict
  filter_dict-IsDict p [] h = tt
  filter_dict-IsDict p ((j, w) ∷ m) h = elim (Bool-cases (p w)) [
    | inl keep ↦ rw keep (lookup-filter_none p j m h.0, filter_dict-IsDict p m h.1)
    | inr drop ↦ rw drop (filter_dict-IsDict p m h.1)
  ]

  -- `keep_if p o` is `o` if its value passes.
  unfoldable pub keep_if : (V → Bool) → Option V → Option V
  keep_if p none = none
  keep_if p (some v) = if p v then some v else none

  pub lookup-filter :
      (p : V → Bool) (k : Bytes) (m : List (Bytes × V))
      → IsDict m
      → lookup k (filter_dict p m) ≡ keep_if p (lookup k m)
  unfolding lookup filter_dict keep_if IsDict
  lookup-filter p k [] h = refl
  lookup-filter p k ((j, w) ∷ m) h =
      ground (arith, =ₛ_iff j k, lookup-filter p k m h.1, lookup-filter_none p k m)

  pub length-filter_dict :
      (p : V → Bool) (m : List (Bytes × V)) → length (filter_dict p m) ≤ length m
  unfolding filter_dict
  length-filter_dict p [] = omega arith
  length-filter_dict p ((j, w) ∷ m) = ground (arith, length-filter_dict p m)

  pub length-insert :
      (k : Bytes) (v : V) (m : List (Bytes × V)) → length (insert k v m) ≤ suc (length m)
  unfolding insert
  length-insert k v [] = omega arith
  length-insert k v ((j, w) ∷ m) = ground (arith, length-insert k v m)

  pub length-erase : (k : Bytes) (m : List (Bytes × V)) → length (erase k m) ≤ length m
  unfolding erase
  length-erase k [] = omega arith
  length-erase k ((j, w) ∷ m) = ground (arith, length-erase k m)

  -- Every value of the map.
  abbrev pub AllValues : (V → Type 0) → List (Bytes × V) → Type 0
  AllValues P m = (k : Bytes) (v : V) → lookup k m ≡ some v → P v
