-- ===== src/LogBuffer/Window.antt =====
-- The entries that the ring holds, oldest first, as `snapshotLocked` of go_backend/logbuffer.go
-- copies them, under the two writes of `Add`.
use musi_flac.Prelude.{
  ℕ, zero, suc, ◌+◌, ◌-◌, ◌%◌, ◌<◌, ◌≡◌, ◌≢◌, refl, sym, ap, ◌∙◌, List, [], ◌∷◌, ◌++◌, arith,
  length, get_or, set, drop, get_or-set_self, get_or-set_ne,
}
use native.Mathlib.Nat.{mod-add-mod}
use musi_flac.LogBuffer.{LogEntry, zero_entry, copy_entries}

module _ (entries : List LogEntry) (head max_size : ℕ) where
  pub length-copy_entries : (k i : ℕ) → length (copy_entries entries head max_size k i) ≡ k
  unfolding copy_entries
  length-copy_entries zero i = refl
  length-copy_entries (suc k) i = ap suc (length-copy_entries k (i + 1))

  -- A copy that starts later is the copy without its first entries.
  pub drop-copy_entries :
      (d k i : ℕ)
      → drop d (copy_entries entries head max_size k i)
        ≡ copy_entries entries head max_size (k - d) (i + d)
  unfolding copy_entries
  drop-copy_entries zero k i = ground arith
  drop-copy_entries (suc d) zero i = ground arith
  drop-copy_entries (suc d) (suc k) i = ground (arith, drop-copy_entries d k (i + 1))

  pub copy_entries-suc :
      (k i : ℕ)
      → copy_entries entries head max_size (suc k) i
        ≡ copy_entries entries head max_size k i
          ++ (get_or entries ((head + (i + k)) % max_size) zero_entry ∷ [])
  unfolding copy_entries
  copy_entries-suc zero i = ground arith
  copy_entries-suc (suc k) i = ground (arith, copy_entries-suc k (i + 1))

-- Two copies that read the same entries are the same list.
copy_entries_congr :
    (es es' : List LogEntry) (head head' n k i i' : ℕ)
    → ((j : ℕ)
        → j < k
        → get_or es ((head + (i + j)) % n) zero_entry
          ≡ get_or es' ((head' + (i' + j)) % n) zero_entry)
    → copy_entries es head n k i ≡ copy_entries es' head' n k i'
unfolding copy_entries
copy_entries_congr es es' head head' n zero i i' h = refl
copy_entries_congr es es' head head' n (suc k) i i' h = ground (
  arith,
  h 0,
  copy_entries_congr es es' head head' n k (i + 1) (i' + 1) (λ j lt. ground (arith, h (j + 1))),
)

-- Slots of one ring are apart.
mod_apart : (head i j n : ℕ) → i < j → j < n → (head + i) % n ≢ (head + j) % n
mod_apart head i j n lo hi e = grind arith

mod_step : (head i n : ℕ) → ((head + 1) % n + i) % n ≡ (head + (i + 1)) % n
mod_step head i n = mod-add-mod (head + 1) n i ∙ ap (λ (k : ℕ). k % n) (omega arith)

-- The write into a ring that is not full adds the entry at the end.
pub copy_entries-set_tail :
    (entries : List LogEntry) (head n k : ℕ) (e : LogEntry)
    → k < n
    → n ≡ length entries
    → copy_entries (set entries ((head + k) % n) e) head n (suc k) 0
      ≡ copy_entries entries head n k 0 ++ (e ∷ [])
copy_entries-set_tail entries head n k e lt len =
    let entries' = set entries ((head + k) % n) e in
    ground (
      arith,
      copy_entries-suc entries' head n k 0,
      copy_entries_congr entries' entries head head n k 0 0 (λ j below.
          get_or-set_ne entries ((head + k) % n) ((head + (0 + j)) % n) e zero_entry
            (λ same. mod_apart head (0 + j) k n (omega arith) lt (sym same))),
      get_or-set_self entries ((head + k) % n) e zero_entry,
    )

copy_entries-set_head :
    (entries : List LogEntry) (head k : ℕ) (e : LogEntry)
    → head < suc k
    → suc k ≡ length entries
    → copy_entries (set entries head e) ((head + 1) % suc k) (suc k) (suc k) 0
      ≡ copy_entries entries head (suc k) k 1 ++ (e ∷ [])
copy_entries-set_head entries head k e lt len =
    let n = suc k in
    let entries' = set entries head e in
    let head' = (head + 1) % n in
    let here : head ≡ (head + 0) % n = grind arith in
    let last : (head' + (0 + k)) % n ≡ head = mod_step head (0 + k) n ∙ grind arith in
    let moved : (j : ℕ) → (head' + (0 + j)) % n ≡ (head + (1 + j)) % n =
      λ j. mod_step head (0 + j) n ∙ ap (λ (t : ℕ). (head + t) % n) (omega arith) in
    ground (
      arith,
      copy_entries-suc entries' head' n k 0,
      copy_entries_congr entries' entries head' head n k 0 1 (λ j below. rw moved (
          get_or-set_ne entries head ((head + (1 + j)) % n) e zero_entry
            (λ same. mod_apart head 0 (1 + j) n (omega arith) (omega arith) (sym here ∙ same)))),
      last,
      get_or-set_self entries head e zero_entry,
    )

-- The write into a full ring drops the oldest entry and adds the new one.
pub copy_entries-set_full :
    (entries : List LogEntry) (head n : ℕ) (e : LogEntry)
    → head < n
    → n ≡ length entries
    → copy_entries (set entries head e) ((head + 1) % n) n n 0
      ≡ drop 1 (copy_entries entries head n n 0) ++ (e ∷ [])
copy_entries-set_full entries head zero e lt len = absurd (omega arith)
copy_entries-set_full entries head (suc k) e lt len =
    copy_entries-set_head entries head k e lt len
    ∙ sym (
        ap (λ l. l ++ (e ∷ []))
          (drop-copy_entries entries head (suc k) 1 (suc k) 0
            ∙ ap (λ m. copy_entries entries head (suc k) m 1) (omega arith)))
