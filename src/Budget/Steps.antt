-- ===== src/Budget/Steps.antt =====
-- One call of `resolutionBudget` of go_backend/extension_resolution_budget.go, while the context is not done, and after.
use musi_flac.Prelude.{
  ℕ, suc, ◌≡◌, refl, ap, subst, Bool, true, false, not, ◌||◌, ◌&&◌, arith, ◌==◌, some, none,
  Bool-cases, ℤ, pos, ◌≤ℤ◌, inl, inr, ◌⊎◌,
}
use musi_flac.Budget.{
  deadline_exceeded, Budget, cancel, arm_locked, settle, pause, is_spent, has_err, exhausted,
}
use musi_flac.Budget.Tracking.{Clock, armed_now, settled, settled_spent}

abbrev pub is_on : ℕ → ℕ → Bool
is_on pauses charges = pauses == 0 || not (charges == 0)

-- The budget is in use, with `pauses` and `charges` open.
pub record Live (allowance : ℤ) (pauses charges spent time : ℕ) (b : Budget) : Type 0 where
  pub pausing : b.pauses ≡ pauses
  pub charging : b.charges ≡ charges
  pub unstopped : b.stopped ≡ false
  pub going : b.ctx ≡ none
  pub clock :
      Clock allowance (is_on pauses charges) spent time b.remaining b.started b.generation b.timers

-- The context is done, and if its deadline was exceeded, the allowance is spent.
pub record Ended (allowance : ℤ) (spent : ℕ) (b : Budget) : Type 0 where
  pub done : has_err b ≡ true
  pub over : b.ctx ≡ some deadline_exceeded → allowance ≤ℤ pos spent

abbrev pub Tracks : ℤ → ℕ → ℕ → ℕ → ℕ → Budget → Type 0
Tracks allowance pauses charges spent time b =
    Live allowance pauses charges spent time b ⊎ Ended allowance spent b

module _ (allowance : ℤ) (spent time : ℕ) where
  abbrev pub ClockOf : Bool → Budget → Type 0
  ClockOf on b = Clock allowance on spent time b.remaining b.started b.generation b.timers

  -- The clock under other counts.
  pub clock_as : (b : Budget) (on on' : Bool) → on ≡ on' → ClockOf on b → ClockOf on' b
  clock_as b on on' e = subst (λ o. ClockOf o b) e

  pub spent_up :
      (b : Budget)
      → ClockOf false b
      → is_spent b ≡ true
      → b.ctx ≡ none
      → Ended allowance spent (exhausted b)
  unfolding cancel
  spent_up b clock out going = record {
    done = ground (arith, going);
    over = λ e.
        settled_spent allowance spent time b.remaining b.started b.generation b.timers clock out;
  }

module _ (allowance : ℤ) (p c spent time : ℕ) (b : Budget) where
  pub settled-Clock :
      Live allowance p c spent time b
      → is_on p c ≡ true
      → let b' = settle time b in
        Clock allowance false spent time b'.remaining b'.started b'.generation b'.timers
  unfolding settle
  settled-Clock l on =
      settled allowance spent time b.remaining b.started b.generation b.timers
        (clock_as allowance spent time b (is_on p c) true on l.clock)

  pub armed-Clock :
      Live allowance p c spent time b
      → is_on p c ≡ false
      → let b' = arm_locked time b in
        Clock allowance true spent time b'.remaining b'.started b'.generation b'.timers
  unfolding arm_locked
  armed-Clock l off =
      armed_now allowance spent time b.remaining b.started b.generation b.timers
        (clock_as allowance spent time b (is_on p c) false off l.clock)

  pub pause-Live :
      Live allowance p c spent time b
      → let (live, b') = pause time b in
        ((live ≡ true) × Live allowance (suc p) c spent time b') ⊎ Ended allowance spent b'
  pause-Live l = elim (Bool-cases (p == 0 && c == 0)) [
    | inl first ↦
        let settled = settle time b in
        let clock = settled-Clock l (ground (arith, first)) in
        elim (Bool-cases (is_spent settled)) [
          | inl out ↦
              let step : pause time b ≡ (false, exhausted settled) =
                unfold pause in
                ground (arith, first, out, l.unstopped, l.going, l.pausing, l.charging) in
              rw step
                (inr (spent_up allowance spent time settled clock out (unfold settle in l.going)))
          | inr left ↦
              let step : pause time b ≡ (true, record settled { pauses = suc b.pauses }) =
                unfold pause in
                ground (arith, first, left, l.unstopped, l.going, l.pausing, l.charging) in
              rw step (
                inl (
                  refl,
                  record {
                    pausing = ap suc l.pausing;
                    charging = unfold settle in l.charging;
                    unstopped = unfold settle in l.unstopped;
                    going = unfold settle in l.going;
                    clock =
                        clock_as allowance spent time settled false (is_on (suc p) c)
                          (ground (arith, first)) clock;
                  },
                ))
        ]
    | inr more ↦
        let step : pause time b ≡ (true, record b { pauses = suc b.pauses }) =
          unfold pause in ground (arith, more, l.unstopped, l.going, l.pausing, l.charging) in
        rw step (
          inl (
            refl,
            record {
              pausing = ap suc l.pausing;
              charging = l.charging;
              unstopped = l.unstopped;
              going = l.going;
              clock =
                  clock_as allowance spent time b (is_on p c) (is_on (suc p) c)
                    (ground (arith, more)) l.clock;
            },
          ))
  ]
