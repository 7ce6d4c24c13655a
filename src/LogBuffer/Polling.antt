-- ===== src/LogBuffer/Polling.antt =====
-- `getSince` of go_backend/logbuffer.go, and a client that asks again with the index it was given.
use musi_flac.Prelude.{
  ℕ, ◌+◌, ◌-◌, ◌<◌, ◌≡◌, ap, ◌∙◌, List, [], ◌∷◌, ◌++◌, arith, length, drop, length-append,
  keep_last, keep_last-append, length-keep_last, drop-keep_last, drop_past, Bytes, append_assoc, ℤ,
  pos, negsuc, pos_part, ◌-ℤ◌, drop-nil,
}
use musi_flac.LogBuffer.{LogEntry, LogBuffer, copy_entries, snapshot_locked, get_since, clear, add}
use musi_flac.LogBuffer.Window.{drop-copy_entries}
use musi_flac.LogBuffer.Invariant.{
  IsValid, view, length-view, accepted, IsAdded, IsAdded-none, add-IsAdded, clear-IsValid,
}

-- A snapshot is the list of entries without its first `offset` ones.
pub snapshot_locked-drop :
    (lb : LogBuffer) (offset : ℕ) → snapshot_locked lb (pos offset) ≡ drop offset (view lb)
unfolding snapshot_locked view copy_entries
snapshot_locked-drop lb offset =
    ground (arith, drop-copy_entries lb.entries lb.head lb.max_size offset lb.count 0)

-- The same where the index is a number.
get_since-pos :
    (lb : LogBuffer) (i : ℕ)
    → IsValid lb
    → get_since lb (pos i) ≡ (drop (i - (lb.next_index - lb.count)) (view lb), lb.next_index)
unfolding get_since ◌-ℤ◌
get_since-pos lb i v = ground (
  arith,
  v.index_in,
  length-view lb,
  snapshot_locked-drop lb 0,
  snapshot_locked-drop lb (i - (lb.next_index - lb.count)),
  drop_past 0 (view lb),
  drop_past (i - (lb.next_index - lb.count)) (view lb),
)

get_since-negsuc :
    (lb : LogBuffer) (i : ℕ) → IsValid lb → get_since lb (negsuc i) ≡ (view lb, lb.next_index)
unfolding get_since ◌-ℤ◌
get_since-negsuc lb i v =
    ground (arith, v.index_in, length-view lb, snapshot_locked-drop lb 0, drop_past 0 (view lb))

-- On a valid buffer `getSince` returns, for any index, negative and stale ones too, the entries
-- held without those that were added before that index, and the next index.
pub get_since-drop :
    (lb : LogBuffer) (index : ℤ)
    → IsValid lb
    → get_since lb index
      ≡ (drop (pos_part index - (lb.next_index - lb.count)) (view lb), lb.next_index)
get_since-drop lb (pos i) v = get_since-pos lb i v
get_since-drop lb (negsuc i) v = get_since-negsuc lb i v ∙ ground arith

-- A call of `Add`: the formatted clock, and its three arguments.
pub record Call : Type 0 where
  pub now : Bytes
  pub level : Bytes
  pub tag : Bytes
  pub message : Bytes

module _ (sanitize : Bytes → Bytes) where
  unfoldable pub run : List Call → LogBuffer → LogBuffer
  run [] lb = lb
  run (c ∷ cs) lb = run cs (add sanitize c.now c.level c.tag c.message lb)

  -- The entries that the calls offer, those suppressed left out.
  unfoldable pub offered : List Call → LogBuffer → List LogEntry
  offered [] lb = []
  offered (c ∷ cs) lb =
      accepted sanitize c.now c.level c.tag c.message lb
      ++ offered cs (add sanitize c.now c.level c.tag c.message lb)

  run_cons-IsAdded :
      (new more : List LogEntry) (lb mid last : LogBuffer)
      → IsAdded new lb mid
      → IsAdded more mid last
      → IsAdded (new ++ more) lb last
  run_cons-IsAdded new more lb mid last a b = record {
    valid = b.valid;
    view_is =
        b.view_is
        ∙ rw (a.view_is, a.size_is)
            (keep_last-append lb.max_size (view lb ++ new) more ∙ rw append_assoc);
    next_is = omega (arith, a.next_is, b.next_is, length-append new more);
    size_is = b.size_is ∙ a.size_is;
    enabled_is = b.enabled_is ∙ a.enabled_is;
  }

  -- Any number of calls does to the buffer what appending all their entries does.
  pub run-IsAdded :
      (calls : List Call) (lb : LogBuffer)
      → IsValid lb
      → 0 < lb.max_size
      → IsAdded (offered calls lb) lb (run calls lb)
  unfolding run offered
  run-IsAdded [] lb v some = IsAdded-none lb v
  run-IsAdded (c ∷ cs) lb v some =
      let first = add-IsAdded sanitize c.now c.level c.tag c.message lb v some in
      run_cons-IsAdded _ _ lb _ _ first (
        run-IsAdded cs (add sanitize c.now c.level c.tag c.message lb) first.valid
          (omega (arith, first.size_is)))

  -- What `getSince` then skips of the entries held.
  skipped :
      (calls : List Call) (lb : LogBuffer)
      → IsValid lb
      → IsAdded (offered calls lb) lb (run calls lb)
      → lb.next_index - ((run calls lb).next_index - (run calls lb).count)
        ≡ length (view lb) - (length (view lb) + length (offered calls lb) - lb.max_size)
  skipped calls lb v a = omega (
    arith,
    a.next_is,
    ap length a.view_is,
    length-view lb,
    length-view (run calls lb),
    length-keep_last lb.max_size (view lb ++ offered calls lb),
    length-append (view lb) (offered calls lb),
    v.index_in,
    v.count_in,
  )

  -- On a valid buffer of positive size, a client that asks `getSince` with the index of its last
  -- answer, after any calls of `Add` in between, gets the entries that these calls offered, each
  -- once and in order, the oldest left out where they are more than `max_size`; and the index for
  -- its next question.
  pub get_since-run :
      (calls : List Call) (lb : LogBuffer)
      → IsValid lb
      → 0 < lb.max_size
      → get_since (run calls lb) (pos lb.next_index)
        ≡ (keep_last lb.max_size (offered calls lb), lb.next_index + length (offered calls lb))
  get_since-run calls lb v some =
      let new = offered calls lb in
      let a = run-IsAdded calls lb v some in
      get_since-drop (run calls lb) (pos lb.next_index) a.valid
      ∙ ground (
        arith,
        skipped calls lb v a,
        a.view_is,
        drop-keep_last lb.max_size (view lb) new,
        a.next_is,
      )

-- After `Clear` of a valid buffer `getSince` has no entry for any index, and still hands out the
-- next index that stood before: an index that a client holds stays good.
pub get_since-clear :
    (lb : LogBuffer) (index : ℤ) → IsValid lb → get_since (clear lb) index ≡ ([], lb.next_index)
get_since-clear lb index v =
    get_since-drop (clear lb) index (clear-IsValid lb v)
    ∙ unfold clear view copy_entries in
      ground (arith, drop-nil {A = LogEntry} (pos_part index - (lb.next_index - 0)))
