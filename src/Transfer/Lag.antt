-- ===== src/Transfer/Lag.antt =====
-- How far the progress that the application sees is behind a transfer of go_backend/progress.go.
use musi_flac.Prelude.{
  ℕ, ◌+◌, ◌-◌, ◌≤◌, ◌<◌, ◌≡◌, refl, sym, inl, inr, true, false, not, ◌&&◌, [], some, Option-cases,
  Bool-cases, arith, if◌then◌else◌, Bytes, ◌=ₛ◌, =ₛ_self, ℤ, pos, ltb_ℤ, ◌+ℤ◌, +ℤ_parts, Result, ok,
  err, Result-cases,
}
use musi_flac.Prelude.Dict.{lookup, lookup-insert}
use musi_flac.Progress.State.{Floats, ItemProgress, Registry, progress_update_threshold, ==ℤ_iff}
use musi_flac.Progress.Items.{
  with_item, store_item, received_bytes, set_item_bytes_received_with_speed,
}
use musi_flac.Cancel.{CancelRegistry, is_cancelled}
use musi_flac.Transfer.{
  Reporter, Writer, WriteError, download_cancelled, is_coalesced, is_due, report, flush, write,
  progress_update_max_interval,
}

-- The writer's last report is less than 128 KiB behind, and it is what the registry has of the item.
pub record IsTracked {F : Type 0} (pw : Writer) (st : Registry F) : Type 0 where
  pub near : pw.current < pw.last_reported + progress_update_threshold
  pub behind : pw.last_reported ≤ pw.current
  pub shown :
      (item : ItemProgress F)
      → lookup pw.item_id st.items ≡ some item
      → 0 < pw.last_reported
      → item.bytes_received ≡ pos pw.last_reported

-- What a reporter has told the registry, against what it was told itself.
pub record IsFresh (reporter : Reporter) (received total : ℤ) (now : ℕ) : Type 0 where
  pub not_ahead : ltb_ℤ received reporter.last_reported ≡ false
  pub near : ltb_ℤ received (reporter.last_reported +ℤ pos progress_update_threshold) ≡ true
  pub same_total : reporter.last_total ≡ total
  pub recent : now - reporter.last_report_at < progress_update_max_interval

module _ (fl : Floats) where
  open fl use {Float}

  -- The item that an assignment leaves, up to its revision.
  with_item-bytes :
      (id : Bytes) (f : ItemProgress Float → ItemProgress Float) (st : Registry Float) (n : ℤ)
      (item : ItemProgress Float)
      → ((i : ItemProgress Float) → (f i).bytes_received ≡ n)
      → lookup id (with_item fl id f st).items ≡ some item
      → item.bytes_received ≡ n
  unfolding with_item store_item
  with_item-bytes id f st n item writes h = elim (Option-cases (lookup id st.items)) [
    | inl missing ↦ ground (arith, missing, h)
    | inr (i, here) ↦ ground (
      arith,
      here,
      h,
      writes i,
      lookup-insert id id (f i) st.items,
      lookup-insert id id (record (f i) { revision = st.seq + 1 }) st.items,
      =ₛ_self id,
    )
  ]

  received-bytes : (n : ℤ) (i : ItemProgress Float) → (received_bytes fl n i).bytes_received ≡ n
  unfolding received_bytes
  received-bytes n i = ground arith

  -- After a call of `Report` for a named item, whether it reported or not, the last report is of the
  -- same total, less than 128 KiB and less than 250 milliseconds behind, and not ahead.
  pub report-IsFresh :
      (received total : ℤ) (now : ℕ) (reporter : Reporter) (st : Registry Float)
      → (reporter.item_id =ₛ []) ≡ false
      → IsFresh (report fl received total now reporter st).0 received total now
  unfolding report is_coalesced
  report-IsFresh received total now reporter st named =
      elim (Bool-cases (is_coalesced reporter received total now)) [
        | inl quiet ↦ record {
          not_ahead = ground (arith, named, quiet);
          near = ground (arith, named, quiet);
          same_total = ground (arith, named, quiet, ==ℤ_iff total reporter.last_total);
          recent = ground (arith, named, quiet);
        }
        | inr told ↦ record {
          not_ahead = ground (arith, named, told);
          near = ground (arith, named, told, +ℤ_parts received (pos progress_update_threshold));
          same_total = ground (arith, named, told);
          recent = ground (arith, named, told);
        }
      ]

  module _ (rate : ℕ → ℕ → Float) where
    flush-IsTracked :
        (now n : ℕ) (pw : Writer) (st : Registry Float)
        → IsTracked pw st
        → let (pw', st') = flush fl rate now (record pw { current = pw.current + n }) st in
          IsTracked pw' st'
    unfolding flush is_due set_item_bytes_received_with_speed
    flush-IsTracked now n pw st t =
        elim (Bool-cases (is_due (record pw { current = pw.current + n }))) [
          | inl due ↦ rw due (record {
            near = omega arith;
            behind = omega arith;
            shown = λ item h used.
                with_item-bytes pw.item_id _ st (pos (pw.current + n)) item
                  (λ i. received-bytes (pos (pw.current + n)) _) h;
          })
          | inr early ↦ rw early (record {
            near = ground (arith, early);
            behind = omega (arith, t.behind);
            shown = t.shown;
          })
        ]

    flush-current :
        (now : ℕ) (pw : Writer) (st : Registry Float)
        → (flush fl rate now pw st).0.current ≡ pw.current
    unfolding flush
    flush-current now pw st = ground arith

    module _ {S : Type 0} (below : Bytes → S → Result WriteError ℕ × S) where
      -- What one write does: its answer, what the writer below has got, and what it leaves of the writer
      -- and the registry, on every branch.
      pub record IsWritten (cancels : CancelRegistry) (p : Bytes) (sink : S) (pw : Writer)
          (st : Registry Float) (after : Result WriteError ℕ × S × Writer × Registry Float)
          : Type 0 where
        pub answered : after.0 ≡ (
            if not (pw.item_id =ₛ []) && is_cancelled pw.item_id cancels
            then err download_cancelled
            else (below p sink).0)
        pub passed : after.1 ≡ (
            if not (pw.item_id =ₛ []) && is_cancelled pw.item_id cancels
            then sink
            else (below p sink).1)
        pub counted : (n : ℕ) → after.0 ≡ ok n → (after.2).current ≡ pw.current + n
        pub refused : (e : WriteError) → after.0 ≡ err e → (after.2 ≡ pw) × (after.3 ≡ st)
        pub tracked : IsTracked after.2 after.3

      -- A write of a cancelled item gives the error of a cancellation and does not call the writer below,
      -- whose state stays; any other write hands its bytes on and gives the answer of the writer below. A
      -- successful one counts its bytes, and one that fails leaves the count and the registry as they were.
      -- If the registry's bytes of the item were less than 128 KiB behind the count before, they are after
      -- the write, in all cases.
      pub write-IsWritten :
          (cancels : CancelRegistry) (p : Bytes) (sink : S) (now : ℕ) (pw : Writer)
          (st : Registry Float)
          → IsTracked pw st
          → IsWritten cancels p sink pw st (write fl rate below cancels p sink now pw st)
      unfolding write
      write-IsWritten cancels p sink now pw st t =
          elim (Bool-cases (not (pw.item_id =ₛ []) && is_cancelled pw.item_id cancels)) [
            | inl stopped ↦ rw stopped (record {
              answered = rw stopped refl;
              passed = rw stopped refl;
              counted = λ n h. cc;
              refused = λ e h. (refl, refl);
              tracked = t;
            })
            | inr going ↦ elim (Result-cases (below p sink).0) [
              | inl (n, works) ↦
                  rw (going, works)
                    (record {
                      answered = rw going (sym works);
                      passed = rw going refl;
                      counted = λ m h.
                          ground (
                            arith,
                            h,
                            flush-current now (record pw { current = pw.current + n }) st,
                          );
                      refused = λ e h. cc;
                      tracked = flush-IsTracked now n pw st t;
                    })
              | inr (e, fails) ↦
                  rw (going, fails)
                    (record {
                      answered = rw going (sym fails);
                      passed = rw going refl;
                      counted = λ n h. cc;
                      refused = λ e' h. (refl, refl);
                      tracked = t;
                    })
            ]
          ]
