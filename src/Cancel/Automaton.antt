-- ===== src/Cancel/Automaton.antt =====
-- What one id sees of the registry of go_backend/cancel.go, as an automaton of its own: without a map,
-- without contexts, and without the other ids.
use musi_flac.Prelude.{
  ℕ, ◌+◌, ◌-◌, Bool, true, false, List, [], ◌∷◌, Option, none, some, leb, if◌then◌else◌, Bytes,
  ◌=ₛ◌,
}
use musi_flac.Prelude.Dict.{lookup}
use musi_flac.Cancel.{CancelEntry, CancelRegistry}
use musi_flac.Cancel.Runs.{CancelOp, join, cancel, leave, reset, cancel_active}

-- Nothing is known of the id; it was cancelled and waits for its first user; or it has so many users, and
-- was cancelled or not.
pub data Standing : Type 0 where
  absent waiting : Standing
  used : ℕ → Bool → Standing

unfoldable pub joins : Standing → Standing
joins absent = used 1 false
joins waiting = used 1 true
joins (used n cut) = used (n + 1) cut

unfoldable pub cuts : Standing → Standing
cuts absent = waiting
cuts waiting = waiting
cuts (used n cut) = used n true

unfoldable pub leaves : Standing → Standing
leaves absent = absent
leaves waiting = absent
leaves (used n cut) = if leb n 1 then absent else used (n - 1) cut

unfoldable pub resets : Standing → Standing
resets absent = absent
resets waiting = absent
resets (used n cut) = used n cut

unfoldable pub cuts_used : Standing → Standing
cuts_used absent = absent
cuts_used waiting = waiting
cuts_used (used n cut) = used n true

-- A call for another id changes nothing.
unfoldable pub step : Bytes → CancelOp → Standing → Standing
step id (join j) s = if j =ₛ id then joins s else s
step id (cancel j) s = if j =ₛ id then cuts s else s
step id (leave j) s = if j =ₛ id then leaves s else s
step id (reset j) s = if j =ₛ id then resets s else s
step id cancel_active s = cuts_used s

unfoldable pub steps : Bytes → List CancelOp → Standing → Standing
steps id [] s = s
steps id (op ∷ ops) s = steps id ops (step id op s)

unfoldable pub is_cut : Standing → Bool
is_cut absent = false
is_cut waiting = true
is_cut (used n cut) = cut

unfoldable pub is_used : Standing → Bool
is_used absent = false
is_used waiting = false
is_used (used n cut) = true

-- Where the id stands in a registry.
unfoldable pub standing_of : Option CancelEntry → Standing
standing_of none = absent
standing_of (some e) = elim e.ctx [ none ↦ waiting | some c ↦ used e.refs e.canceled ]

abbrev pub standing : Bytes → CancelRegistry → Standing
standing id r = standing_of (lookup id r.entries)
