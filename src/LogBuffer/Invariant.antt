-- ===== src/LogBuffer/Invariant.antt =====
-- The invariant of the buffer of go_backend/logbuffer.go, and `Add` against a list of entries.
use musi_flac.Prelude.{
  ℕ, ◌+◌, ◌%◌, ◌≤◌, ◌<◌, ◌≡◌, refl, sym, ap, ◌∙◌, List, [], ◌∷◌, ◌++◌, arith, if◌then◌else◌, length,
  set, length-append, length-set, length-replicate, lt→ltb, le→ltb, ne→==, append-nil, Bool-cases,
  keep_last_all, keep_last_full, keep_last, drop, Bytes, inl, inr,
}
use native.Mathlib.Decide.{dec_lt}
use musi_flac.LogBuffer.{
  LogEntry, LogBuffer, copy_entries, push, resized, add, clear, is_suppressed, entry_of,
  new_log_buffer,
}
use musi_flac.LogBuffer.Window.{length-copy_entries, copy_entries-set_tail, copy_entries-set_full}

-- Every slot that the code reads or writes is in range, and an index that was handed out is not
-- below that of the oldest entry.
pub record IsValid (lb : LogBuffer) : Type 0 where
  pub allocated : lb.max_size ≡ length lb.entries
  pub head_in : 0 < lb.max_size → lb.head < lb.max_size
  pub count_in : lb.count ≤ lb.max_size
  pub index_in : lb.count ≤ lb.next_index

-- The entries held, oldest first.
unfoldable pub view : LogBuffer → List LogEntry
view lb = copy_entries lb.entries lb.head lb.max_size lb.count 0

pub length-view : (lb : LogBuffer) → length (view lb) ≡ lb.count
unfolding view
length-view lb = length-copy_entries lb.entries lb.head lb.max_size lb.count 0

pub new_log_buffer-IsValid : (n : ℕ) → IsValid (new_log_buffer n)
unfolding new_log_buffer
new_log_buffer-IsValid n = record {
  allocated = sym (length-replicate n _);
  head_in = λ h. h;
  count_in = omega arith;
  index_in = omega arith;
}

pub clear-IsValid : (lb : LogBuffer) → IsValid lb → IsValid (clear lb)
unfolding clear
clear-IsValid lb v = record {
  allocated = v.allocated ∙ sym (length-replicate (length lb.entries) _);
  head_in = λ h. h;
  count_in = omega arith;
  index_in = omega arith;
}

-- On a valid buffer the reallocation of `Add` does not happen.
resized_lem : (lb : LogBuffer) → IsValid lb → resized lb ≡ lb
unfolding resized
resized_lem lb v = ground arith

-- What one write does.
pub record IsPushed (e : LogEntry) (lb lb' : LogBuffer) : Type 0 where
  pub valid : IsValid lb'
  pub view_is : view lb' ≡ keep_last lb.max_size (view lb ++ (e ∷ []))
  pub next_is : lb'.next_index ≡ lb.next_index + 1
  pub size_is : lb'.max_size ≡ lb.max_size
  pub enabled_is : lb'.logging_enabled ≡ lb.logging_enabled

push_room :
    (e : LogEntry) (lb : LogBuffer)
    → IsValid lb
    → lb.count < lb.max_size
    → IsPushed e lb (push e lb)
unfolding push view
push_room e lb v room = rw (lt→ltb lb.count lb.max_size room) (record {
  valid = record {
    allocated = v.allocated ∙ sym (length-set lb.entries _ e);
    head_in = v.head_in;
    count_in = omega arith;
    index_in = omega (arith, v.index_in);
  };
  view_is =
      ap
        (λ m.
          copy_entries (set lb.entries ((lb.head + lb.count) % lb.max_size) e) lb.head lb.max_size m
            0)
        (omega arith)
      ∙ copy_entries-set_tail lb.entries lb.head lb.max_size lb.count e room v.allocated
      ∙ sym (
          keep_last_all lb.max_size (view lb ++ (e ∷ []))
            (omega (arith, length-append (view lb) (e ∷ []), length-view lb)));
  next_is = refl;
  size_is = refl;
  enabled_is = refl;
})

push_full :
    (e : LogEntry) (lb : LogBuffer)
    → IsValid lb
    → 0 < lb.max_size
    → lb.max_size ≤ lb.count
    → IsPushed e lb (push e lb)
unfolding push view
push_full e lb v some full = rw (le→ltb lb.count lb.max_size full) (record {
  valid = record {
    allocated = v.allocated ∙ sym (length-set lb.entries _ e);
    head_in = λ h. grind arith;
    count_in = v.count_in;
    index_in = omega (arith, v.index_in);
  };
  view_is =
      let same : lb.count ≡ lb.max_size = omega (arith, v.count_in) in
      ap
        (λ m. copy_entries (set lb.entries lb.head e) ((lb.head + 1) % lb.max_size) lb.max_size m 0)
        same
      ∙ copy_entries-set_full lb.entries lb.head lb.max_size e (v.head_in some) v.allocated
      ∙ ap (λ m. drop 1 (copy_entries lb.entries lb.head lb.max_size m 0) ++ (e ∷ [])) (sym same)
      ∙ sym (keep_last_full lb.max_size (view lb) e some (length-view lb ∙ same));
  next_is = refl;
  size_is = refl;
  enabled_is = refl;
})

push-IsPushed :
    (e : LogEntry) (lb : LogBuffer) → IsValid lb → 0 < lb.max_size → IsPushed e lb (push e lb)
push-IsPushed e lb v some = elim (dec_lt lb.count lb.max_size) [
  | yes room ↦ push_room e lb v room
  | no full ↦ push_full e lb v some (omega arith)
]

-- The entries that one call of `Add` offers: none, if it is suppressed.
unfoldable pub accepted :
    (Bytes → Bytes) → Bytes → Bytes → Bytes → Bytes → LogBuffer → List LogEntry
accepted sanitize now level tag message lb =
    if is_suppressed lb level then [] else entry_of sanitize now level tag message ∷ []

-- What one call of `Add` does to a buffer, as a list of at most `max_size` entries.
pub record IsAdded (new : List LogEntry) (lb lb' : LogBuffer) : Type 0 where
  pub valid : IsValid lb'
  pub view_is : view lb' ≡ keep_last lb.max_size (view lb ++ new)
  pub next_is : lb'.next_index ≡ lb.next_index + length new
  pub size_is : lb'.max_size ≡ lb.max_size
  pub enabled_is : lb'.logging_enabled ≡ lb.logging_enabled

pub IsAdded-none : (lb : LogBuffer) → IsValid lb → IsAdded [] lb lb
IsAdded-none lb v = record {
  valid = v;
  view_is = sym (
      rw (append-nil (view lb))
        (keep_last_all lb.max_size (view lb) (omega (arith, length-view lb, v.count_in))));
  next_is = omega arith;
  size_is = refl;
  enabled_is = refl;
}

IsPushed-IsAdded : (e : LogEntry) (lb lb' : LogBuffer) → IsPushed e lb lb' → IsAdded (e ∷ []) lb lb'
IsPushed-IsAdded e lb lb' p = record {
  valid = p.valid;
  view_is = p.view_is;
  next_is = p.next_is;
  size_is = p.size_is;
  enabled_is = p.enabled_is;
}

-- `Add` on a valid buffer of positive size keeps it valid, appends the entry that the call offers
-- to the entries held, drops from the front what is over `max_size`, and advances the next index by
-- one; a suppressed call changes nothing.
pub add-IsAdded :
    (sanitize : Bytes → Bytes) (now level tag message : Bytes) (lb : LogBuffer)
    → IsValid lb
    → 0 < lb.max_size
    → IsAdded
        (accepted sanitize now level tag message lb)
        lb
        (add sanitize now level tag message lb)
unfolding add accepted
add-IsAdded sanitize now level tag message lb v some = elim (Bool-cases (is_suppressed lb level)) [
  | inl quiet ↦ rw quiet (IsAdded-none lb v)
  | inr heard ↦ rw heard (
      rw (ne→== lb.max_size 0 (omega arith))
        (rw (resized_lem lb v) (IsPushed-IsAdded _ lb _ (push-IsPushed _ lb v some))))
]
