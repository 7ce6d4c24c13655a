-- ===== src/Budget/Refinement.antt =====
-- `resolutionBudget` of go_backend/extension_resolution_budget.go against the stopwatch.
use musi_flac.Prelude.{
  ℕ, suc, ◌≤◌, ◌≡◌, refl, sym, ap, ◌∙◌, subst, true, false, List, [], ◌∷◌, ◌++◌, arith, some,
  Bool-cases, get_or, set, ℤ, pos, ◌≤ℤ◌, inl, inr, ◌⊎◌,
}
use musi_flac.Budget.{
  deadline_exceeded, canceled, parent_done, World, pause, charge, stop, happens, history, Event,
  pause_called, pause_released, charge_called, charge_released, timer_expired, stops, parent_ends,
}
use musi_flac.Budget.Watch.{
  Watch, open_count, is_running, spent_until, observe, watch, AreTimed, open_count-append_end,
  open_count-set, set-closed,
}
use musi_flac.Budget.Tracking.{advanced}
use musi_flac.Budget.Steps.{Live, Ended, pause-Live}
use musi_flac.Budget.Releases.{
  release_pause-Live, charge-Live, release_charge-Live, timer_runs-Live,
}
use musi_flac.Budget.Ended.{
  pause-Ended, charge-Ended, release_pause-Ended, release_charge-Ended, cancel-Ended,
  timer_runs-Ended,
}

-- The budget is in use and has the stopwatch's time and open functions, or its context is done.
pub record Follows (allowance : ℤ) (w : World) (s : Watch) : Type 0 where
  pub pausing : w.pausing ≡ s.pausing
  pub charging : w.charging ≡ s.charging
  pub live : Live allowance (open_count s.pausing) (open_count s.charging) s.spent s.time w.budget

abbrev pub Matches : ℤ → World → Watch → Type 0
Matches allowance w s = Follows allowance w s ⊎ Ended allowance s.spent w.budget

abbrev at_time : ℕ → Watch → Watch
at_time now s = record s { spent = spent_until now s; time = now }

observe-time : (e : Event) (s : Watch) → (observe e s).time ≡ s.time
unfolding observe
observe-time pause_called s = refl
observe-time (pause_released i) s = refl
observe-time charge_called s = refl
observe-time (charge_released i) s = refl
observe-time (timer_expired k) s = refl
observe-time stops s = refl
observe-time parent_ends s = refl

module _ (allowance : ℤ) where
  at_time-Matches :
      (w : World) (s : Watch) (now : ℕ)
      → Matches allowance w s
      → s.time ≤ now
      → Matches allowance w (at_time now s)
  unfolding spent_until is_running
  at_time-Matches w s now (inl f) le =
      let b = w.budget in
      let clock =
        advanced allowance s.spent s.time b.remaining b.started b.generation b.timers (is_running s)
          now f.live.clock le in
      inl record {
        pausing = f.pausing;
        charging = f.charging;
        live = record {
          pausing = f.live.pausing;
          charging = f.live.charging;
          unstopped = f.live.unstopped;
          going = f.live.going;
          clock = clock;
        };
      }
  at_time-Matches w s now (inr e) le =
      inr record { done = e.done; over = λ c. let a = e.over c in omega (arith, a) }

  pub Matches_over :
      (w : World) (s : Watch)
      → Matches allowance w s
      → w.budget.ctx ≡ some deadline_exceeded
      → allowance ≤ℤ pos s.spent
  Matches_over w s (inl f) e = let g = f.live.going in cc
  Matches_over w s (inr ended) e = ended.over e

  happens-Matches :
      (e : Event) (w : World) (s : Watch)
      → Matches allowance w s
      → Matches allowance (happens s.time e w) (observe e s)
  unfolding happens observe
  happens-Matches pause_called w s (inl f) =
      elim (pause-Live allowance (open_count s.pausing) (open_count s.charging) s.spent s.time
        w.budget f.live) [
          | inl (live, l) ↦ inl record {
            pausing =
                ap (λ xs. xs ++ ((pause s.time w.budget).0 ∷ [])) f.pausing
                ∙ ap (λ x. s.pausing ++ (x ∷ [])) live;
            charging = f.charging;
            live = rw (open_count-append_end s.pausing) l;
          }
          | inr e ↦ inr e
        ]
  happens-Matches pause_called w s (inr e) =
      inr (rw (pause-Ended allowance s.spent s.time w.budget e) e)
  happens-Matches charge_called w s (inl f) =
      let (live, l) =
        charge-Live allowance (open_count s.pausing) (open_count s.charging) s.spent s.time w.budget
          f.live in
      inl record {
        pausing = f.pausing;
        charging =
            ap (λ xs. xs ++ ((charge s.time w.budget).0 ∷ [])) f.charging
            ∙ ap (λ x. s.charging ++ (x ∷ [])) live;
        live = rw (open_count-append_end s.charging) l;
      }
  happens-Matches charge_called w s (inr e) =
      inr (rw (charge-Ended allowance s.spent s.time w.budget e) e)
  happens-Matches (pause_released i) w s (inr e) = elim (Bool-cases (get_or w.pausing i false)) [
    | inl live ↦ rw live (inr (release_pause-Ended allowance s.spent s.time w.budget e))
    | inr closed ↦ rw closed (inr e)
  ]
  happens-Matches (pause_released i) w s (inl f) = elim (Bool-cases (get_or w.pausing i false)) [
    | inl live ↦
        let one_less =
          open_count-set s.pausing i (ap (λ xs. get_or xs i false) (sym f.pausing) ∙ live) in
        let l =
          subst (λ n. Live allowance n (open_count s.charging) s.spent s.time w.budget)
            (sym one_less) f.live in
        rw live (
          inl record {
            pausing = ap (λ xs. set xs i false) f.pausing;
            charging = f.charging;
            live =
                release_pause-Live allowance (open_count (set s.pausing i false))
                  (open_count s.charging) s.spent s.time w.budget l;
          })
    | inr closed ↦
        let same = set-closed s.pausing i (ap (λ xs. get_or xs i false) (sym f.pausing) ∙ closed) in
        rw closed (
          inl
            record { pausing = f.pausing ∙ sym same; charging = f.charging; live = rw same f.live })
  ]
  happens-Matches (charge_released i) w s (inr e) = elim (Bool-cases (get_or w.charging i false)) [
    | inl live ↦ rw live (inr (release_charge-Ended allowance s.spent s.time w.budget e))
    | inr closed ↦ rw closed (inr e)
  ]
  happens-Matches (charge_released i) w s (inl f) = elim (Bool-cases (get_or w.charging i false)) [
    | inl live ↦
        let one_less =
          open_count-set s.charging i (ap (λ xs. get_or xs i false) (sym f.charging) ∙ live) in
        let l =
          subst (λ n. Live allowance (open_count s.pausing) n s.spent s.time w.budget)
            (sym one_less) f.live in
        rw live
          (elim (release_charge-Live allowance (open_count s.pausing)
            (open_count (set s.charging i false)) s.spent s.time w.budget l) [
              | inl l' ↦ inl record {
                pausing = f.pausing;
                charging = ap (λ xs. set xs i false) f.charging;
                live = l';
              }
              | inr e ↦ inr e
            ])
    | inr closed ↦
        let same =
          set-closed s.charging i (ap (λ xs. get_or xs i false) (sym f.charging) ∙ closed) in
        rw closed (
          inl
            record { pausing = f.pausing; charging = f.charging ∙ sym same; live = rw same f.live })
  ]
  happens-Matches (timer_expired k) w s (inl f) =
      elim (timer_runs-Live allowance (open_count s.pausing) (open_count s.charging) s.spent s.time
        w.budget k f.live) [
          | inl l ↦ inl record { pausing = f.pausing; charging = f.charging; live = l }
          | inr e ↦ inr e
        ]
  happens-Matches (timer_expired k) w s (inr e) =
      inr (timer_runs-Ended allowance s.spent s.time w.budget k e)
  happens-Matches stops w s m =
      let b = w.budget in
      let b' = record b { stopped = true; generation = suc b.generation } in
      inr (
        unfold stop in
        cancel-Ended allowance s.spent s.time b' canceled (λ g e. cc) (Matches_over w s m))
  happens-Matches parent_ends w s m =
      inr (
        cancel-Ended allowance s.spent s.time w.budget parent_done (λ g e. cc) (Matches_over w s m))

  pub history-Matches :
      (cs : List (ℕ × Event)) (w : World) (s : Watch)
      → Matches allowance w s
      → AreTimed s.time cs
      → Matches allowance (history cs w) (watch cs s)
  unfolding history watch
  history-Matches [] w s m timed = m
  history-Matches ((now, e) ∷ rest) w s m timed =
      let s' = at_time now s in
      history-Matches rest (happens now e w) (observe e s')
        (happens-Matches e w s' (at_time-Matches w s now m timed.0))
        (subst (λ t. AreTimed t rest) (sym (observe-time e s')) timed.1)
