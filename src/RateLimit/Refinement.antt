-- ===== src/RateLimit/Refinement.antt =====
-- The limiter of go_backend/ratelimit.go against its specification: the log of all slots ever granted,
-- which is never cleaned.
use musi_flac.Prelude.{
  ℕ, ◌≤◌, ◌≡◌, refl, sym, ap, ◌∙◌, subst, true, List, [], ◌∷◌, ◌++◌, arith, length, ltb,
  if◌then◌else◌, sub_ℕ, All-append, Bool-cases, inl, inr, tests, length-append,
}
use musi_flac.RateLimit.{
  Limiter, Reply, granted, refused, room, Call, acquiring, asking, attempting, new_rate_limiter,
  clean_old_timestamps, reserved, try_acquire, available, attempt, wait_duration, call, calls,
}
use musi_flac.RateLimit.Cleaning.{
  IsOrdered, AreUntil, recent, drop-valid_start, recent-recent, recent-append, recent-IsOrdered,
  recent-AreUntil, AreUntil-later, append-IsOrdered,
}

-- The specification: the slots granted so far, in order, of which those count that are less than a
-- window old.
unfoldable pub spec_call : ℕ → ℕ → Call → ℕ → List ℕ → Reply × List ℕ
spec_call max window asking now log = (room (sub_ℕ max (length (recent window now log))), log)
spec_call max window acquiring now log =
    if ltb (length (recent window now log)) max
    then (granted, log ++ (now ∷ []))
    else (refused, log)
spec_call max window attempting now log =
    if ltb (length (recent window now log)) max
    then (granted, log ++ (now ∷ []))
    else (wait_duration window now (recent window now log), log)

unfoldable pub spec_calls : ℕ → ℕ → List (ℕ × Call) → List ℕ → List (ℕ × Reply) × List ℕ
spec_calls max window [] log = ([], log)
spec_calls max window ((now, c) ∷ rest) log =
    let (reply, log') = spec_call max window c now log in
    let (replies, last) = spec_calls max window rest log' in ((now, reply) ∷ replies, last)

-- The times of the calls do not go back, and start at `from` or later.
abbrev pub AreTimed : ℕ → List (ℕ × Call) → Type 0
AreTimed from [] = Unit {0}
AreTimed from ((now, c) ∷ rest) = (from ≤ now) × AreTimed now rest

-- The limiter stands for a log: it has the same timestamps after each cutoff that is still to come.
pub record Refines (max window last : ℕ) (r : Limiter) (log : List ℕ) : Type 0 where
  pub limit : r.max_requests ≡ max
  pub width : r.window ≡ window
  pub ordered : IsOrdered 0 r.timestamps
  pub past : AreUntil last r.timestamps
  pub fits : length r.timestamps ≤ max
  pub same : (now : ℕ) → last ≤ now → recent window now r.timestamps ≡ recent window now log

pub length-recent : (window now : ℕ) (ts : List ℕ) → length (recent window now ts) ≤ length ts
unfolding recent
length-recent window now [] = omega arith
length-recent window now (t ∷ rest) = ground (arith, length-recent window now rest)

module _ (max window last now : ℕ) (r : Limiter) (log : List ℕ) (h : Refines max window last r log)
    (le : last ≤ now) where
  abbrev pub clean : Limiter
  clean = clean_old_timestamps now r

  kept : clean.timestamps ≡ recent window now r.timestamps
  unfolding clean_old_timestamps
  kept = rw h.width (drop-valid_start window now 0 r.timestamps h.ordered)

  pub kept_log : clean.timestamps ≡ recent window now log
  kept_log = kept ∙ h.same now le

  pub clean-Refines : Refines max window now clean log
  clean-Refines = record {
    limit = unfold clean_old_timestamps in h.limit;
    width = unfold clean_old_timestamps in h.width;
    ordered = subst (IsOrdered 0) (sym kept) (recent-IsOrdered window now 0 r.timestamps h.ordered);
    past = subst (AreUntil now) (sym kept) (
        recent-AreUntil window now now r.timestamps
          (AreUntil-later last now r.timestamps le h.past));
    fits =
        let shorter = length-recent window now r.timestamps in
        subst (λ ts. length ts ≤ max) (sym kept) (omega (arith, h.fits));
    same = λ later le'.
        ap (recent window later) kept
        ∙ recent-recent window now later r.timestamps le'
        ∙ h.same later (omega arith);
  }

  reserved-Refines :
      ltb (length (recent window now log)) max ≡ true
      → Refines max window now (reserved now clean) (log ++ (now ∷ []))
  unfolding reserved
  reserved-Refines free =
      let c = clean-Refines in
      record {
        limit = c.limit;
        width = c.width;
        ordered = append-IsOrdered 0 now clean.timestamps c.ordered c.past (omega arith);
        past = All-append (λ t. t ≤ now) clean.timestamps (now ∷ []) c.past (omega arith, tt);
        fits = omega (tests, free, length-append clean.timestamps (now ∷ []), ap length kept_log);
        same = λ later le'.
            recent-append window later clean.timestamps (now ∷ [])
            ∙ ap (λ ts. ts ++ recent window later (now ∷ [])) (c.same later le')
            ∙ sym (recent-append window later log (now ∷ []));
      }

  -- Both sides test the same number of timestamps.
  full_same :
      ltb (length clean.timestamps) clean.max_requests ≡ ltb (length (recent window now log)) max
  full_same =
      ap (λ ts. ltb (length ts) clean.max_requests) kept_log
      ∙ ap (ltb (length (recent window now log))) clean-Refines.limit

  abbrev pub IsSame : Reply × Limiter → Reply × List ℕ → Type 0
  IsSame (reply, after) (reply', log') = (reply ≡ reply') × Refines max window now after log'

  pub call-Refines : (c : Call) → IsSame (call c now r) (spec_call max window c now log)
  unfolding call try_acquire available attempt spec_call
  call-Refines asking = (
    ap room (
        ap (sub_ℕ clean.max_requests) (ap length kept_log)
        ∙ ap (λ m. sub_ℕ m (length (recent window now log))) clean-Refines.limit),
    clean-Refines,
  )
  call-Refines acquiring =
      rw full_same (elim (Bool-cases (ltb (length (recent window now log)) max)) [
        | inl free ↦ rw free (refl, reserved-Refines free)
        | inr full ↦ rw full (refl, clean-Refines)
      ])
  call-Refines attempting =
      rw full_same (elim (Bool-cases (ltb (length (recent window now log)) max)) [
        | inl free ↦ rw free (refl, reserved-Refines free)
        | inr full ↦ rw full (
          ap (λ w. wait_duration w now clean.timestamps) clean-Refines.width
              ∙ ap (wait_duration window now) kept_log,
          clean-Refines,
        )
      ])

module _ (max window : ℕ) where
  pub calls_same :
      (last : ℕ) (cs : List (ℕ × Call)) (r : Limiter) (log : List ℕ)
      → Refines max window last r log
      → AreTimed last cs
      → (calls cs r).0 ≡ (spec_calls max window cs log).0
  unfolding calls spec_calls
  calls_same last [] r log h timed = refl
  calls_same last ((now, c) ∷ rest) r log h timed =
      let step = call-Refines max window last now r log h timed.0 c in
      let ih =
        calls_same now rest (call c now r).1 (spec_call max window c now log).1 step.1 timed.1 in
      cc

  pub new-Refines : Refines max window 0 (new_rate_limiter max window) []
  unfolding new_rate_limiter
  new-Refines = record {
    limit = refl;
    width = refl;
    ordered = tt;
    past = tt;
    fits = omega arith;
    same = λ now le. refl;
  }

  -- Whatever `TryAcquire`, `Available` and rounds of `WaitForSlotContext` a new limiter is asked for, at
  -- times that do not go back, it replies what the log of all slots ever granted says: a slot while
  -- fewer than the limit are less than a window old, and else how long the oldest of those still counts.
  pub calls-refine :
      (cs : List (ℕ × Call))
      → AreTimed 0 cs
      → (calls cs (new_rate_limiter max window)).0 ≡ (spec_calls max window cs []).0
  calls-refine cs timed = calls_same 0 cs (new_rate_limiter max window) [] new-Refines timed
