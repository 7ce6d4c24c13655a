-- ===== src/Budget/Watch.antt =====
-- The stopwatch that go_backend/extension_resolution_budget.go promises: it runs unless a pause is open
-- and no charge is.
use musi_flac.Prelude.{
  ℕ, zero, suc, ◌+◌, ◌-◌, ◌≤◌, ◌≡◌, refl, Bool, true, false, not, ◌||◌, List, [], ◌∷◌, ◌++◌, arith,
  ◌==◌, if◌then◌else◌, get_or, set,
}
use musi_flac.Budget.{
  Event, pause_called, pause_released, charge_called, charge_released, timer_expired, stops,
  parent_ends,
}

-- How many are open.
unfoldable pub open_count : List Bool → ℕ
open_count [] = 0
open_count (true ∷ rest) = suc (open_count rest)
open_count (false ∷ rest) = open_count rest

pub record Watch : Type 0 where
  pub spent : ℕ
  pub time : ℕ
  pub pausing : List Bool
  pub charging : List Bool

unfoldable pub is_running : Watch → Bool
is_running s = open_count s.pausing == 0 || not (open_count s.charging == 0)

-- The time spent until `now`.
unfoldable pub spent_until : ℕ → Watch → ℕ
spent_until now s = s.spent + (if is_running s then now - s.time else 0)

unfoldable pub observe : Event → Watch → Watch
observe pause_called s = record s { pausing = s.pausing ++ (true ∷ []) }
observe (pause_released i) s = record s { pausing = set s.pausing i false }
observe charge_called s = record s { charging = s.charging ++ (true ∷ []) }
observe (charge_released i) s = record s { charging = set s.charging i false }
observe (timer_expired k) s = s
observe stops s = s
observe parent_ends s = s

unfoldable pub watch : List (ℕ × Event) → Watch → Watch
watch [] s = s
watch ((now, e) ∷ rest) s =
    watch rest (observe e (record s { spent = spent_until now s; time = now }))

unfoldable pub new_watch : ℕ → Watch
new_watch now = record { spent = 0; time = now; pausing = []; charging = [] }

abbrev pub AreTimed : ℕ → List (ℕ × Event) → Type 0
AreTimed from [] = Unit {0}
AreTimed from ((now, e) ∷ rest) = (from ≤ now) × AreTimed now rest

pub open_count-append_end : (xs : List Bool) → open_count (xs ++ (true ∷ [])) ≡ suc (open_count xs)
unfolding open_count
open_count-append_end [] = refl
open_count-append_end (true ∷ xs) = omega (arith, open_count-append_end xs)
open_count-append_end (false ∷ xs) = open_count-append_end xs

pub open_count-set :
    (xs : List Bool) (i : ℕ)
    → get_or xs i false ≡ true
    → suc (open_count (set xs i false)) ≡ open_count xs
unfolding open_count
open_count-set [] i h = cc
open_count-set (true ∷ xs) zero h = refl
open_count-set (false ∷ xs) zero h = cc
open_count-set (true ∷ xs) (suc i) h = omega (arith, open_count-set xs i h)
open_count-set (false ∷ xs) (suc i) h = open_count-set xs i h

pub set-closed : (xs : List Bool) (i : ℕ) → get_or xs i false ≡ false → set xs i false ≡ xs
set-closed [] i h = refl
set-closed (x ∷ xs) zero h = rw h refl
set-closed (x ∷ xs) (suc i) h = rw (set-closed xs i h) refl
