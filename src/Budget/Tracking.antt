-- ===== src/Budget/Tracking.antt =====
-- How the fields of `resolutionBudget` in go_backend/extension_resolution_budget.go stand for the time spent.
use musi_flac.Prelude.{
  ℕ, zero, suc, ◌+◌, ◌-◌, ◌≤◌, ◌≡◌, refl, ap, Bool, true, false, not, List, [], ◌∷◌, ◌++◌, arith,
  some, if◌then◌else◌, get_elem?, length, ℤ, pos, pos_part, neg_part, ◌-ℤ◌, -ℤ_parts, ltb_ℤ, ◌≤ℤ◌,
  inl, inr, ◌⊎◌,
}
use musi_flac.Budget.{Timer}

get-append_end :
    (timers : List Timer) (new : Timer) (k : ℕ) (t : Timer)
    → get_elem? (timers ++ (new ∷ [])) k ≡ some t
    → (get_elem? timers k ≡ some t) ⊎ (t ≡ new)
get-append_end [] new zero t at = inr (cc)
get-append_end [] new (suc k) t at = cc
get-append_end (u ∷ timers) new zero t at = inl at
get-append_end (u ∷ timers) new (suc k) t at = get-append_end timers new k t at

get-append_new :
    (timers : List Timer) (new : Timer)
    → get_elem? (timers ++ (new ∷ [])) (length timers) ≡ some new
get-append_new [] new = refl
get-append_new (u ∷ timers) new = get-append_new timers new

get-append_old :
    (timers : List Timer) (new : Timer) (k : ℕ) (t : Timer)
    → get_elem? timers k ≡ some t
    → get_elem? (timers ++ (new ∷ [])) k ≡ some t
get-append_old [] new k t at = cc
get-append_old (u ∷ timers) new zero t at = at
get-append_old (u ∷ timers) new (suc k) t at = get-append_old timers new k t at

-- `on` is whether the time is being spent at `time`. The timer of the current generation is the one that
-- runs out with the allowance.
pub record Clock (allowance : ℤ) (on : Bool) (spent time : ℕ) (remaining : ℤ)
    (started generation : ℕ) (timers : List Timer) : Type 0 where
  pub past : started ≤ time
  pub sum :
      pos_part remaining + neg_part allowance + spent + (if on then started else time)
      ≡ neg_part remaining + pos_part allowance + time
  pub older : (k : ℕ) (t : Timer) → get_elem? timers k ≡ some t → t.generation ≤ generation
  pub current :
      (k : ℕ) (t : Timer)
      → get_elem? timers k ≡ some t
      → on ≡ true
      → t.generation ≡ generation
      → (t.since ≡ started) × (t.duration ≡ remaining)
  pub armed :
      on ≡ true
      → (k : ℕ) × (get_elem? timers k
          ≡ some (record { generation = generation; since = started; duration = remaining }))

module _ (allowance : ℤ) (spent time : ℕ) (remaining : ℤ) (started generation : ℕ)
    (timers : List Timer) where
  pub advanced :
      (on : Bool) (now : ℕ)
      → Clock allowance on spent time remaining started generation timers
      → time ≤ now
      → Clock allowance on
          (spent + (if on then now - time else 0))
          now
          remaining
          started
          generation
          timers
  advanced true now c le = record {
    past = omega (arith, c.past);
    sum = omega (arith, c.sum);
    older = c.older;
    current = c.current;
    armed = c.armed;
  }
  advanced false now c le = record {
    past = omega (arith, c.past);
    sum = omega (arith, c.sum);
    older = c.older;
    current = c.current;
    armed = c.armed;
  }

  pub armed_now :
      Clock allowance false spent time remaining started generation timers
      → let t : Timer = record {
        generation = suc generation;
        since = time;
        duration = remaining;
      } in
        Clock allowance true spent time remaining time (suc generation) (timers ++ (t ∷ []))
  armed_now c =
      let new : Timer = record {
        generation = suc generation;
        since = time;
        duration = remaining;
      } in
      record {
        past = omega arith;
        sum = c.sum;
        older = λ k t at. elim (get-append_end timers new k t at) [
          | inl old ↦ omega (arith, c.older k t old)
          | inr e ↦ ground (arith, e)
        ];
        current = λ k t at on same. elim (get-append_end timers new k t at) [
          | inl old ↦ absurd (omega (arith, c.older k t old, same))
          | inr e ↦ (ap (λ (t : Timer). t.since) e, ap (λ (t : Timer). t.duration) e)
        ];
        armed = λ on. (length timers, get-append_new timers new);
      }

  pub settled :
      Clock allowance true spent time remaining started generation timers
      → Clock allowance false spent time
          (remaining -ℤ pos (time - started))
          started
          (suc generation)
          timers
  settled c = record {
    past = c.past;
    sum = omega (arith, c.sum, c.past, -ℤ_parts remaining (pos (time - started)));
    older = λ k t at. omega (arith, c.older k t at);
    current = λ k t at on same. cc;
    armed = λ on. cc;
  }

  pub settled_spent :
      Clock allowance false spent time remaining started generation timers
      → not (ltb_ℤ (pos 0) remaining) ≡ true
      → allowance ≤ℤ pos spent
  settled_spent c out = ground (arith, c.sum, out)
