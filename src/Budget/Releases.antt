-- ===== src/Budget/Releases.antt =====
-- The released functions and the timers of go_backend/extension_resolution_budget.go, while the
-- context goes on.
use musi_flac.Prelude.{
  ℕ, suc, ◌-◌, ◌≡◌, refl, ap, true, false, not, ◌&&◌, arith, ◌==◌, Bool-cases, Option-cases,
  get_elem?, ℤ, pos, ltb_ℤ, inl, inr,
}
use musi_flac.Budget.{
  Budget, cancel, arm_locked, expire, settle, release_pause, charge, release_charge, timer_runs,
  is_spent, exhausted,
}
use musi_flac.Budget.Steps.{
  ClockOf, is_on, Live, Tracks, clock_as, spent_up, settled-Clock, armed-Clock,
}

module _ (allowance : ℤ) (p c spent time : ℕ) (b : Budget) where
  pub release_pause-Live :
      Live allowance (suc p) c spent time b → Live allowance p c spent time (release_pause time b)
  unfolding arm_locked
  release_pause-Live l =
      let b' = record b { pauses = b.pauses - 1 } in
      elim (Bool-cases (p == 0 && c == 0)) [
        | inl last ↦
            let step : release_pause time b ≡ arm_locked time b' =
              unfold release_pause in
              ground (arith, last, l.unstopped, l.going, l.pausing, l.charging) in
            rw step record {
              pausing = unfold arm_locked in omega (arith, l.pausing);
              charging = unfold arm_locked in l.charging;
              unstopped = unfold arm_locked in l.unstopped;
              going = unfold arm_locked in l.going;
              clock =
                  clock_as allowance spent time (arm_locked time b') true (is_on p c)
                    (ground (arith, last))
                    (armed-Clock allowance (suc p) c spent time b l (ground (arith, last)));
            }
        | inr more ↦
            let step : release_pause time b ≡ b' =
              unfold release_pause in
              ground (arith, more, l.unstopped, l.going, l.pausing, l.charging) in
            rw step record {
              pausing = omega (arith, l.pausing);
              charging = l.charging;
              unstopped = l.unstopped;
              going = l.going;
              clock =
                  clock_as allowance spent time b (is_on (suc p) c) (is_on p c)
                    (ground (arith, more)) l.clock;
            }
      ]

  pub charge-Live :
      Live allowance p c spent time b
      → let (live, b') = charge time b in (live ≡ true) × Live allowance p (suc c) spent time b'
  charge-Live l = elim (Bool-cases (is_on p c)) [
    | inl on ↦
        let step : charge time b ≡ (true, record b { charges = suc b.charges }) =
          unfold charge in ground (arith, on, l.unstopped, l.going, l.pausing, l.charging) in
        rw step (
          refl,
          record {
            pausing = l.pausing;
            charging = ap suc l.charging;
            unstopped = l.unstopped;
            going = l.going;
            clock =
                clock_as allowance spent time b (is_on p c) (is_on p (suc c)) (ground (arith, on))
                  l.clock;
          },
        )
    | inr off ↦
        let armed = arm_locked time b in
        let step : charge time b ≡ (true, record armed { charges = suc b.charges }) =
          unfold charge in ground (arith, off, l.unstopped, l.going, l.pausing, l.charging) in
        rw step (
          refl,
          record {
            pausing = unfold arm_locked in l.pausing;
            charging = ap suc l.charging;
            unstopped = unfold arm_locked in l.unstopped;
            going = unfold arm_locked in l.going;
            clock =
                clock_as allowance spent time armed true (is_on p (suc c)) (ground (arith, off))
                  (armed-Clock allowance p c spent time b l off);
          },
        )
  ]

  pub release_charge-Live :
      Live allowance p (suc c) spent time b
      → Tracks allowance p c spent time (release_charge time b)
  release_charge-Live l =
      let b' = record b { charges = b.charges - 1 } in
      elim (Bool-cases (is_on p c)) [
        | inl on ↦
            let step : release_charge time b ≡ b' =
              unfold release_charge in
              ground (arith, on, l.unstopped, l.going, l.pausing, l.charging) in
            rw step (
              inl record {
                pausing = l.pausing;
                charging = omega (arith, l.charging);
                unstopped = l.unstopped;
                going = l.going;
                clock =
                    clock_as allowance spent time b (is_on p (suc c)) (is_on p c)
                      (ground (arith, on)) l.clock;
              })
        | inr off ↦
            let settled = settle time b' in
            let clock : ClockOf allowance spent time false settled =
              unfold settle in
              settled-Clock allowance p (suc c) spent time b l (ground (arith, off)) in
            elim (Bool-cases (is_spent settled)) [
              | inl out ↦
                  let step : release_charge time b ≡ exhausted settled =
                    unfold release_charge in
                    ground (arith, off, out, l.unstopped, l.going, l.pausing, l.charging) in
                  rw step (
                    inr
                      (spent_up allowance spent time settled clock out (unfold settle in l.going)))
              | inr left ↦
                  let step : release_charge time b ≡ settled =
                    unfold release_charge in
                    ground (arith, off, left, l.unstopped, l.going, l.pausing, l.charging) in
                  rw step (
                    inl record {
                      pausing = unfold settle in l.pausing;
                      charging = unfold settle in omega (arith, l.charging);
                      unstopped = unfold settle in l.unstopped;
                      going = unfold settle in l.going;
                      clock =
                          clock_as allowance spent time settled false (is_on p c)
                            (ground (arith, off)) clock;
                    })
            ]
      ]

  pub timer_runs-Live :
      (k : ℕ)
      → Live allowance p c spent time b
      → Tracks allowance p c spent time (timer_runs time k b)
  unfolding timer_runs expire
  timer_runs-Live k l = elim (Option-cases (get_elem? b.timers k)) [
    | inl missing ↦ let step : timer_runs time k b ≡ b = ground (arith, missing) in rw step (inl l)
    | inr (t, at) ↦
        elim (Bool-cases (
          is_on p c
          && t.generation == b.generation
          && not (ltb_ℤ (pos (time - t.since)) t.duration))) [
            | inl fires ↦
                let b' = exhausted b in
                let step : timer_runs time k b ≡ b' =
                  ground (arith, at, fires, l.unstopped, l.going, l.pausing, l.charging) in
                rw step (
                  inr record {
                    done = unfold cancel in ground (arith, l.going);
                    over = λ e. ground (arith, fires, l.clock.sum, l.clock.current k t at);
                  })
            | inr idle ↦
                let step : timer_runs time k b ≡ b =
                  ground (arith, at, idle, l.unstopped, l.going, l.pausing, l.charging) in
                rw step (inl l)
          ]
  ]
