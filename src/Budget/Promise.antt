-- ===== src/Budget/Promise.antt =====
-- What `resolutionBudget` of go_backend/extension_resolution_budget.go promises: its allowance counts just
-- the time that the stopwatch runs.
use musi_flac.Prelude.{
  ℕ, ◌+◌, ◌-◌, ◌≤◌, ◌≡◌, refl, true, false, List, [], arith, some, Bool-cases, if◌then◌else◌, ℤ,
  pos, pos_part, neg_part, ◌-ℤ◌, -ℤ_parts, eq_of_parts, ltb_ℤ, ◌≤ℤ◌, inl, inr,
}
use musi_flac.Budget.{
  deadline_exceeded, World, cancel, arm_locked, new_resolution_budget, expire, remaining_time,
  timer_runs, history, new_world, has_err, Event,
}
use musi_flac.Budget.Watch.{Watch, open_count, is_running, spent_until, watch, new_watch, AreTimed}
use musi_flac.Budget.Tracking.{Clock, armed_now}
use musi_flac.Budget.Refinement.{Matches, Matches_over, history-Matches}

-- What is left of an allowance.
unfoldable pub left : ℤ → ℕ → ℤ
left allowance spent = if ltb_ℤ allowance (pos spent) then pos 0 else allowance -ℤ pos spent

module _ (allowance : ℤ) where
  new-Matches : (at : ℕ) → Matches allowance (new_world at allowance) (new_watch at)
  unfolding new_world new_watch new_resolution_budget arm_locked open_count
  new-Matches at =
      let clock : Clock allowance false 0 at allowance 0 0 [] = record {
        past = omega arith;
        sum = omega arith;
        older = λ k t e. cc;
        current = λ k t e on. cc;
        armed = λ on. cc;
      } in
      inl record {
        pausing = refl;
        charging = refl;
        live = record {
          pausing = refl;
          charging = refl;
          unstopped = refl;
          going = refl;
          clock = armed_now allowance 0 at allowance 0 0 [] clock;
        };
      }

  -- A budget after calls at times that do not go back, the stopwatch, and a later time.
  pub record Reached (begin now : ℕ) (cs : List (ℕ × Event)) : Type 0 where
    pub timed : AreTimed begin cs
    pub late : (watch cs (new_watch begin)).time ≤ now

  clipped :
      (r : ℤ) (spent : ℕ)
      → pos_part r + neg_part allowance + spent ≡ neg_part r + pos_part allowance
      → (if ltb_ℤ r (pos 0) then pos 0 else r) ≡ left allowance spent
  unfolding left
  clipped r spent e =
      ground (arith, e, -ℤ_parts allowance (pos spent), eq_of_parts r (allowance -ℤ pos spent))

  remaining_time-left :
      (w : World) (s : Watch) (now : ℕ)
      → Matches allowance w s
      → s.time ≤ now
      → remaining_time now w.budget
        ≡ (if has_err w.budget then pos 0 else left allowance (spent_until now s))
  unfolding remaining_time spent_until is_running
  remaining_time-left w s now (inr e) le = ground (arith, e.done)
  remaining_time-left w s now (inl f) le =
      let b = w.budget in
      let l = f.live in
      let c = l.clock in
      let settled = b.remaining -ℤ pos (now - b.started) in
      let parts = -ℤ_parts b.remaining (pos (now - b.started)) in
      elim (Bool-cases (is_running s)) [
        | inl on ↦
            let e = clipped settled (s.spent + (now - s.time)) (
              ground
                (arith, parts, on, l.unstopped, l.going, l.pausing, l.charging, c.sum, c.past)) in
            ground (arith, e, on, l.unstopped, l.going, l.pausing, l.charging, c.sum, c.past)
        | inr off ↦
            let e =
              clipped b.remaining s.spent
                (ground (arith, off, l.unstopped, l.going, l.pausing, l.charging, c.sum, c.past)) in
            ground (arith, e, off, l.unstopped, l.going, l.pausing, l.charging, c.sum, c.past)
      ]

  fires :
      (w : World) (s : Watch) (now : ℕ)
      → Matches allowance w s
      → s.time ≤ now
      → has_err w.budget ≡ false
      → is_running s ≡ true
      → allowance ≤ℤ pos (spent_until now s)
      → (k : ℕ) × ((timer_runs now k w.budget).ctx ≡ some deadline_exceeded)
  unfolding timer_runs expire cancel spent_until is_running
  fires w s now (inr e) le going on spent = absurd (ground (arith, e.done, going))
  fires w s now (inl f) le going on spent =
      let (k, at) = f.live.clock.armed on in
      (
        k,
        ground (
          arith, at, on, spent, f.live.unstopped, f.live.going, f.live.pausing, f.live.charging,
          f.live.clock.sum, f.live.clock.past,
        ),
      )

  module _ (begin now : ℕ) (cs : List (ℕ × Event)) (r : Reached begin now cs) where
    matches :
        Matches allowance (history cs (new_world begin allowance)) (watch cs (new_watch begin))
    matches =
        history-Matches allowance cs (new_world begin allowance) (new_watch begin)
          (new-Matches begin) (unfold new_watch in r.timed)

    -- After any calls and timers at times that do not go back, `remainingTime` is what the stopwatch
    -- leaves of the allowance, but nothing less than 0, and 0 once the context is done.
    pub remaining_time-refines :
        let b = (history cs (new_world begin allowance)).budget in
        remaining_time now b ≡ (
          if has_err b
          then pos 0
          else left allowance (spent_until now (watch cs (new_watch begin))))
    remaining_time-refines =
        remaining_time-left (history cs (new_world begin allowance)) (watch cs (new_watch begin))
          now matches r.late

    -- The budget ends its context with an exceeded deadline, by a timer or a call, only when the stopwatch
    -- has run for as long as the allowance: a timer of an earlier generation does not end it. An end of the
    -- parent context, whatever its cause, is told apart.
    pub deadline-IsSpent :
        (history cs (new_world begin allowance)).budget.ctx ≡ some deadline_exceeded
        → allowance ≤ℤ pos (watch cs (new_watch begin)).spent
    deadline-IsSpent =
        Matches_over allowance (history cs (new_world begin allowance)) (watch cs (new_watch begin))
          matches

    -- Once the stopwatch, still running, has run for as long as the allowance, and the context is not
    -- done, there is a timer whose callback ends it.
    pub deadline-comes :
        let w = history cs (new_world begin allowance) in
        let s = watch cs (new_watch begin) in
        has_err w.budget ≡ false
        → is_running s ≡ true
        → allowance ≤ℤ pos (spent_until now s)
        → (k : ℕ) × ((timer_runs now k w.budget).ctx ≡ some deadline_exceeded)
    deadline-comes =
        fires (history cs (new_world begin allowance)) (watch cs (new_watch begin)) now matches
          r.late
