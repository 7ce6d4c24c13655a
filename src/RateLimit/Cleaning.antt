-- ===== src/RateLimit/Cleaning.antt =====
-- What `cleanOldTimestamps` of go_backend/ratelimit.go keeps of timestamps in order.
use musi_flac.Prelude.{
  ℕ, suc, ◌+◌, ◌≤◌, ◌<◌, ◌≡◌, refl, sym, ap, ◌∙◌, inl, inr, true, List, [], ◌∷◌, ◌++◌, arith, drop,
  All, ltb, if◌then◌else◌, Bool-cases,
}
use musi_flac.RateLimit.{is_after_cutoff, valid_start}

-- The list does not go back, and starts at `from` or later.
abbrev pub IsOrdered : ℕ → List ℕ → Type 0
IsOrdered from [] = Unit {0}
IsOrdered from (t ∷ rest) = (from ≤ t) × IsOrdered t rest

-- The timestamps after the cutoff.
unfoldable pub recent : ℕ → ℕ → List ℕ → List ℕ
recent window now [] = []
recent window now (t ∷ rest) =
    if is_after_cutoff window now t then t ∷ recent window now rest else recent window now rest

IsOrdered-from : (from to : ℕ) (ts : List ℕ) → from ≤ to → IsOrdered to ts → IsOrdered from ts
IsOrdered-from from to [] h o = tt
IsOrdered-from from to (t ∷ rest) h o = (omega arith, o.1)

pub recent-all :
    (window now t : ℕ) (ts : List ℕ) → now < t + window → IsOrdered t ts → recent window now ts ≡ ts
unfolding recent
recent-all window now t [] h o = refl
recent-all window now t (u ∷ rest) h o =
    let after : ltb now (u + window) ≡ true = ground arith in
    rw after (ap (◌∷◌ u) (recent-all window now u rest (omega arith) o.1))

valid_start_from :
    (window now i : ℕ) (ts : List ℕ) → valid_start window now i ts ≡ i + valid_start window now 0 ts
unfolding valid_start
valid_start_from window now i [] = omega arith
valid_start_from window now i (t ∷ rest) =
    ground (arith, valid_start_from window now (suc i) rest, valid_start_from window now 1 rest)

-- The kept timestamps are those after the cutoff.
pub drop-valid_start :
    (window now from : ℕ) (ts : List ℕ)
    → IsOrdered from ts
    → drop (valid_start window now 0 ts) ts ≡ recent window now ts
unfolding valid_start recent
drop-valid_start window now from [] o = refl
drop-valid_start window now from (t ∷ rest) o = elim (Bool-cases (is_after_cutoff window now t)) [
  | inl after ↦
      rw after (ap (◌∷◌ t) (sym (recent-all window now t rest (ground (arith, after)) o.1)))
  | inr before ↦ rw before (
      ap (λ k. drop k (t ∷ rest)) {y = suc (valid_start window now 0 rest)}
        (omega (arith, valid_start_from window now 1 rest))
      ∙ drop-valid_start window now t rest o.1)
]

pub recent-recent :
    (window now later : ℕ) (ts : List ℕ)
    → now ≤ later
    → recent window later (recent window now ts) ≡ recent window later ts
unfolding recent
recent-recent window now later [] h = refl
recent-recent window now later (t ∷ rest) h = ground (arith, recent-recent window now later rest h)

pub recent-append :
    (window now : ℕ) (xs ys : List ℕ)
    → recent window now (xs ++ ys) ≡ recent window now xs ++ recent window now ys
unfolding recent
recent-append window now [] ys = refl
recent-append window now (t ∷ rest) ys = ground (arith, recent-append window now rest ys)

pub recent-IsOrdered :
    (window now from : ℕ) (ts : List ℕ) → IsOrdered from ts → IsOrdered from (recent window now ts)
unfolding recent
recent-IsOrdered window now from [] o = tt
recent-IsOrdered window now from (t ∷ rest) o = elim (Bool-cases (is_after_cutoff window now t)) [
  | inl after ↦ rw after (o.0, recent-IsOrdered window now t rest o.1)
  | inr before ↦
      rw before (
        IsOrdered-from from t (recent window now rest) o.0 (recent-IsOrdered window now t rest o.1))
]

-- Every time of the list is `last` or earlier.
abbrev pub AreUntil : ℕ → List ℕ → Type 0
AreUntil last = All (λ t. t ≤ last)

pub append-IsOrdered :
    (from last : ℕ) (ts : List ℕ)
    → IsOrdered from ts
    → AreUntil last ts
    → from ≤ last
    → IsOrdered from (ts ++ (last ∷ []))
append-IsOrdered from last [] o u h = (h, tt)
append-IsOrdered from last (t ∷ rest) o u h = (o.0, append-IsOrdered t last rest o.1 u.1 u.0)

pub recent-AreUntil :
    (window now last : ℕ) (ts : List ℕ) → AreUntil last ts → AreUntil last (recent window now ts)
unfolding recent
recent-AreUntil window now last [] u = tt
recent-AreUntil window now last (t ∷ rest) u = elim (Bool-cases (is_after_cutoff window now t)) [
  | inl after ↦ rw after (u.0, recent-AreUntil window now last rest u.1)
  | inr before ↦ rw before (recent-AreUntil window now last rest u.1)
]

pub AreUntil-later :
    (last later : ℕ) (ts : List ℕ) → last ≤ later → AreUntil last ts → AreUntil later ts
AreUntil-later last later [] h u = tt
AreUntil-later last later (t ∷ rest) h u = (omega arith, AreUntil-later last later rest h u.1)
