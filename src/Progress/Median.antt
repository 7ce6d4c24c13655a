-- ===== src/Progress/Median.antt =====
-- The bound of `pruneRemovedProgressLocked` of go_backend/progress.go among the sorted revisions.
use musi_flac.Prelude.{
  ℕ, zero, suc, ◌+◌, ◌/◌, ◌≤◌, ◌<◌, ◌≡◌, refl, inl, inr, List, [], ◌∷◌, Bool-cases, arith, leb, ltb,
  if◌then◌else◌, length, get_or, All, Bytes,
}
use musi_flac.Prelude.Dict.{filter_dict}
use musi_flac.Progress.Items.{insert_sorted, sorted_revisions, cutoff_of}

-- The revisions in ascending order.
abbrev IsSorted : List ℕ → Type 0
IsSorted [] = Unit
IsSorted (r ∷ rs) = All (λ s. r ≤ s) rs × IsSorted rs

pub All-insert_sorted :
    (P : ℕ → Type 0) (r : ℕ) (rs : List ℕ) → P r → All P rs → All P (insert_sorted r rs)
unfolding insert_sorted
All-insert_sorted P r [] h hs = (h, tt)
All-insert_sorted P r (s ∷ ss) h hs = elim (Bool-cases (leb r s)) [
  | inl le ↦ rw le (h, hs)
  | inr gt ↦ rw gt (hs.0, All-insert_sorted P r ss h hs.1)
]

All-le : (r s : ℕ) (rs : List ℕ) → r ≤ s → All (λ t. s ≤ t) rs → All (λ t. r ≤ t) rs
All-le r s [] h hs = tt
All-le r s (t ∷ ts) h hs = (omega arith, All-le r s ts h hs.1)

insert_sorted-IsSorted : (r : ℕ) (rs : List ℕ) → IsSorted rs → IsSorted (insert_sorted r rs)
unfolding insert_sorted
insert_sorted-IsSorted r [] h = (tt, tt)
insert_sorted-IsSorted r (s ∷ ss) h = elim (Bool-cases (leb r s)) [
  | inl le ↦ rw le ((ground arith, All-le r s ss (ground arith) h.0), h)
  | inr gt ↦
      rw gt
        (All-insert_sorted (λ t. s ≤ t) r ss (ground arith) h.0, insert_sorted-IsSorted r ss h.1)
]

sorted_revisions-IsSorted : (m : List (Bytes × ℕ)) → IsSorted (sorted_revisions m)
unfolding sorted_revisions
sorted_revisions-IsSorted [] = tt
sorted_revisions-IsSorted ((id, r) ∷ m) =
    insert_sorted-IsSorted r (sorted_revisions m) (sorted_revisions-IsSorted m)

-- How many revisions are above a bound.
count_above : ℕ → List ℕ → ℕ
count_above c [] = 0
count_above c (r ∷ rs) = (if ltb c r then 1 else 0) + count_above c rs

count_above-insert_sorted :
    (c r : ℕ) (rs : List ℕ) → count_above c (insert_sorted r rs) ≡ count_above c (r ∷ rs)
unfolding count_above insert_sorted
count_above-insert_sorted c r [] = refl
count_above-insert_sorted c r (s ∷ ss) = ground (arith, count_above-insert_sorted c r ss)

length-insert_sorted : (r : ℕ) (rs : List ℕ) → length (insert_sorted r rs) ≡ suc (length rs)
unfolding insert_sorted
length-insert_sorted r [] = refl
length-insert_sorted r (s ∷ ss) = ground (arith, length-insert_sorted r ss)

length-sorted_revisions : (m : List (Bytes × ℕ)) → length (sorted_revisions m) ≡ length m
unfolding sorted_revisions
length-sorted_revisions [] = refl
length-sorted_revisions ((id, r) ∷ m) =
    omega (arith, length-insert_sorted r (sorted_revisions m), length-sorted_revisions m)

-- What is kept of a map is what is above the bound.
length-above :
    (c : ℕ) (m : List (Bytes × ℕ))
    → length (filter_dict (λ r. ltb c r) m) ≡ count_above c (sorted_revisions m)
unfolding filter_dict sorted_revisions count_above
length-above c [] = refl
length-above c ((id, r) ∷ m) =
    ground (arith, count_above-insert_sorted c r (sorted_revisions m), length-above c m)

count_above-length : (c : ℕ) (rs : List ℕ) → count_above c rs ≤ length rs
unfolding count_above
count_above-length c [] = omega arith
count_above-length c (r ∷ rs) = ground (arith, count_above-length c rs)

All-get_or : (r : ℕ) (rs : List ℕ) (i : ℕ) → All (λ s. r ≤ s) rs → i < length rs → r ≤ get_or rs i 0
All-get_or r [] i h lt = absurd (omega arith)
All-get_or r (s ∷ ss) zero h lt = h.0
All-get_or r (s ∷ ss) (suc i) h lt = All-get_or r ss i h.1 (omega arith)

-- Above the element at `i` there is at most what follows it.
count_above-get_or :
    (rs : List ℕ) (i : ℕ)
    → IsSorted rs
    → i < length rs
    → count_above (get_or rs i 0) rs + i + 1 ≤ length rs
unfolding count_above
count_above-get_or [] i h lt = absurd (omega arith)
count_above-get_or (r ∷ rs) zero h lt = ground (arith, count_above-length r rs)
count_above-get_or (r ∷ rs) (suc i) h lt =
    ground (arith, count_above-get_or rs i h.1, All-get_or r rs i h.0)

-- Pruning keeps less than half of the deletions, rounded up.
pub prune_halves :
    (m : List (Bytes × ℕ))
    → 0 < length m
    → length (filter_dict (λ r. ltb (cutoff_of m) r) m) + length m / 2 + 1 ≤ length m
unfolding cutoff_of
prune_halves m filled =
    let rs = sorted_revisions m in
    omega (
      arith,
      length-above (get_or rs (length rs / 2) 0) m,
      length-sorted_revisions m,
      count_above-get_or rs (length rs / 2) (sorted_revisions-IsSorted m)
          (omega (arith, length-sorted_revisions m)),
    )
