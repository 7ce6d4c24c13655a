-- ===== src/Transfer.antt =====
-- The two ways a transfer reports its bytes in go_backend/progress.go: `ItemProgressWriter` and
-- `ItemTransferProgressReporter`. A time is a number of nanoseconds of the monotonic clock.
pub mod Lag
mod Tests
use musi_flac.Prelude.{
  ℕ, ◌+◌, ◌-◌, ◌*◌, Bool, true, false, not, ◌&&◌, ◌||◌, List, [], ◌∷◌, leb, ltb, ◌==◌,
  if◌then◌else◌, length, Bytes, ◌=ₛ◌, ℤ, pos, ltb_ℤ, ◌-ℤ◌, ◌+ℤ◌, Result, ok, err,
}
use musi_flac.Progress.State.{Floats, Registry, progress_update_threshold, ◌==ℤ◌}
use musi_flac.Progress.Items.{
  set_item_progress, set_item_bytes_received, set_item_bytes_received_with_speed,
}
use musi_flac.Cancel.{CancelRegistry, is_cancelled}

-- 250 milliseconds.
abbrev pub progress_update_max_interval : ℕ
progress_update_max_interval = 250000000

pub record Reporter : Type 0 where
  pub item_id : Bytes
  pub last_reported : ℤ
  pub last_total : ℤ
  pub last_report_at : ℕ

unfoldable pub new_item_transfer_progress_reporter : Bytes → ℤ → ℤ → ℕ → Reporter
new_item_transfer_progress_reporter id received total now = record {
  item_id = id;
  last_reported = received;
  last_total = total;
  last_report_at = now;
}

-- The test of `Report`: too little has changed since the last report. A byte count that went back,
-- `received < lastReported`, is always reported. A clock that went back counts as no time.
unfoldable pub is_coalesced : Reporter → ℤ → ℤ → ℕ → Bool
is_coalesced reporter received total now =
    not (ltb_ℤ received reporter.last_reported)
    && ltb_ℤ received (reporter.last_reported +ℤ pos progress_update_threshold)
    && total ==ℤ reporter.last_total
    && ltb (now - reporter.last_report_at) progress_update_max_interval

pub record Writer : Type 0 where
  pub item_id : Bytes
  pub current : ℕ
  pub last_reported : ℕ
  pub start_time : ℕ
  pub last_time : ℕ
  pub last_bytes : ℕ

unfoldable pub new_item_progress_writer : Bytes → ℕ → Writer
new_item_progress_writer id now = record {
  item_id = id;
  current = 0;
  last_reported = 0;
  start_time = now;
  last_time = now;
  last_bytes = 0;
}

-- `pw.lastReported == 0 || pw.current-pw.lastReported >= progressUpdateThreshold`
unfoldable pub is_due : Writer → Bool
is_due pw = pw.last_reported == 0 || leb (pw.last_reported + progress_update_threshold) pw.current

-- `ErrDownloadCancelled`, or an error of the writer below, which has written so many bytes.
pub data WriteError : Type 0 where
  download_cancelled : WriteError
  write_failed : ℕ → WriteError

module _ (fl : Floats) where
  open fl use {Float, zero_float, ratio}

  -- `Report` of a reporter that is not nil, at the time `now`.
  unfoldable pub report : ℤ → ℤ → ℕ → Reporter → Registry Float → Reporter × Registry Float
  report received total now reporter st =
      if reporter.item_id =ₛ [] || is_coalesced reporter received total now
      then (reporter, st)
      else (
        record {
          item_id = reporter.item_id;
          last_reported = received;
          last_total = total;
          last_report_at = now;
        },
        if ltb_ℤ (pos 0) total
            then set_item_progress fl reporter.item_id (ratio received total) received total st
            else set_item_bytes_received fl reporter.item_id received st,
      )

  -- `rate n t` is the speed of `n` bytes in `t` nanoseconds, in MiB a second.
  module _ (rate : ℕ → ℕ → Float) where
    -- The report of a writer that has counted its bytes.
    unfoldable pub flush : ℕ → Writer → Registry Float → Writer × Registry Float
    flush now pw st =
        let elapsed = now - pw.last_time in
        let speed =
          if ltb 0 elapsed then rate (pw.current - pw.last_bytes) elapsed else zero_float in
        if is_due pw
        then (
          record {
            item_id = pw.item_id;
            current = pw.current;
            last_reported = pw.current;
            start_time = pw.start_time;
            last_time = now;
            last_bytes = pw.current;
          },
          set_item_bytes_received_with_speed fl pw.item_id (pos pw.current) speed st,
        )
        else (pw, st)

    -- `Write` of the bytes `p` at the time `now`. `below p sink` is `pw.writer.Write(p)`, on the state of
    -- the writer below: the number of its bytes, or an error.
    module _ {S : Type 0} (below : Bytes → S → Result WriteError ℕ × S) where
      unfoldable pub write :
          CancelRegistry
          → Bytes
          → S
          → ℕ
          → Writer
          → Registry Float
          → Result WriteError ℕ × S × Writer × Registry Float
      write cancels p sink now pw st =
          if not (pw.item_id =ₛ []) && is_cancelled pw.item_id cancels
          then (err download_cancelled, sink, pw, st)
          else elim (below p sink).0 [
            | err e ↦ (err e, (below p sink).1, pw, st)
            | ok n ↦
                let (pw', st') = flush now (record pw { current = pw.current + n }) st in
                (ok n, (below p sink).1, pw', st')
          ]
