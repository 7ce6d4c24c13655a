-- ===== src/Budget/Ended.antt =====
-- The calls of `resolutionBudget` of go_backend/extension_resolution_budget.go once its context is done.
use musi_flac.Prelude.{
  ℕ, ◌-◌, ◌≡◌, true, false, not, ◌||◌, ◌&&◌, arith, ◌==◌, some, none, Bool-cases, Option-cases,
  get_elem?, ℤ, pos, ltb_ℤ, ◌≤ℤ◌, inl, inr,
}
use musi_flac.Budget.{
  Cause, deadline_exceeded, Budget, cancel, expire, pause, release_pause, charge, release_charge,
  timer_runs, has_err,
}
use musi_flac.Budget.Steps.{Ended}

module _ (allowance : ℤ) (spent time : ℕ) (b : Budget) where
  -- Once the context is done, no call makes it anything else.
  pub pause-Ended : Ended allowance spent b → (pause time b ≡ (false, b))
  unfolding pause
  pause-Ended e = ground (arith, e.done)

  pub charge-Ended : Ended allowance spent b → (charge time b ≡ (false, b))
  unfolding charge
  charge-Ended e = ground (arith, e.done)

  pub release_pause-Ended : Ended allowance spent b → Ended allowance spent (release_pause time b)
  unfolding release_pause
  release_pause-Ended e =
      let b' = record b { pauses = b.pauses - 1 } in
      let step : release_pause time b ≡ b' = ground (arith, e.done) in
      rw step record { done = e.done; over = e.over }

  pub release_charge-Ended : Ended allowance spent b → Ended allowance spent (release_charge time b)
  unfolding release_charge
  release_charge-Ended e =
      let b' = record b { charges = b.charges - 1 } in
      let step : release_charge time b ≡ b' = ground (arith, e.done) in
      rw step record { done = e.done; over = e.over }

  -- A cancellation with another cause, or of a context that is done.
  pub cancel-Ended :
      (cause : Cause)
      → (b.ctx ≡ none → cause ≡ deadline_exceeded → allowance ≤ℤ pos spent)
      → (b.ctx ≡ some deadline_exceeded → allowance ≤ℤ pos spent)
      → Ended allowance spent (cancel cause b)
  unfolding cancel
  cancel-Ended cause fresh over = elim (Option-cases b.ctx) [
    | inl going ↦ record {
      done = ground (arith, going);
      over = λ e. fresh going (ground (arith, going, e));
    }
    | inr (first, at) ↦ record {
      done = ground (arith, at);
      over = λ e. over (ground (arith, at, e));
    }
  ]

  cancel_later :
      (b' : Budget)
      → has_err b' ≡ true
      → (b'.ctx ≡ some deadline_exceeded → allowance ≤ℤ pos spent)
      → Ended allowance spent (cancel deadline_exceeded b')
  unfolding cancel
  cancel_later b' done over = elim (Option-cases b'.ctx) [
    | inl going ↦ absurd (ground (arith, going, done))
    | inr (first, at) ↦ record {
      done = ground (arith, at);
      over = λ e. over (ground (arith, at, e));
    }
  ]

  pub timer_runs-Ended :
      (k : ℕ) → Ended allowance spent b → Ended allowance spent (timer_runs time k b)
  unfolding timer_runs expire
  timer_runs-Ended k e = elim (Option-cases (get_elem? b.timers k)) [
    | inl missing ↦ let step : timer_runs time k b ≡ b = ground (arith, missing) in rw step e
    | inr (t, at) ↦
        let fires =
          not (
            b.stopped
            || (not (b.pauses == 0) && b.charges == 0)
            || not (b.generation == t.generation))
          && not (ltb_ℤ (pos (time - t.since)) t.duration) in
        elim (Bool-cases fires) [
          | inl now ↦
              let b' = record b { remaining = pos 0 } in
              let step : timer_runs time k b ≡ cancel deadline_exceeded b' =
                ground (arith, at, now) in
              rw step (cancel_later b' e.done e.over)
          | inr idle ↦ let step : timer_runs time k b ≡ b = ground (arith, at, idle) in rw step e
        ]
  ]
