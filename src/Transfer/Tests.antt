-- ===== src/Transfer/Tests.antt =====
-- Reports of transfers of go_backend/progress.go, at concrete inputs.
use musi_flac.Prelude.{
  ℕ, ◌*◌, ◌/◌, ◌≡◌, refl, false, [], arith, Bytes, codes, ◌=ₛ◌, pos, pos_part, leb, Result, ok,
  length, ◌++◌,
}
use musi_flac.Progress.State.{Floats, Registry, initial_registry}
use musi_flac.Progress.Items.{start_item_progress}
use musi_flac.Prelude.Dict.{lookup, insert}
use musi_flac.Cancel.{empty_registry, is_cancelled, request_cancel}
use musi_flac.Transfer.{
  Reporter, Writer, WriteError, new_item_transfer_progress_reporter, new_item_progress_writer,
  write,
}
use musi_flac.Transfer.Lag.{IsTracked, IsWritten, write-IsWritten}

-- A float64 that is not negative, in thousandths.
abbrev thousandths : Floats
thousandths = record {
  Float = ℕ;
  zero_float = 0;
  one_float = 1000;
  is_nan = λ x. false;
  at_most = λ x y. leb x y;
  ratio = λ a b. pos_part a * 1000 / pos_part b;
  rounded = λ x k. pos (x * k / 1000);
}

abbrev rate : ℕ → ℕ → ℕ
rate bytes elapsed = bytes * 1000 / elapsed

abbrev song : Bytes
song = codes "song"

abbrev begun : Registry ℕ
begun = start_item_progress thousandths song (initial_registry ℕ)

abbrev reporter : Reporter
reporter = new_item_transfer_progress_reporter song (pos 0) (pos 1000000) 0

named : (reporter.item_id =ₛ []) ≡ false
unfolding ◌=ₛ◌ new_item_transfer_progress_reporter
named = refl

abbrev writer : Writer
writer = new_item_progress_writer song 0

writer-IsTracked : IsTracked writer begun
unfolding new_item_progress_writer
writer-IsTracked = record {
  near = omega arith;
  behind = omega arith;
  shown = λ item h used. absurd (omega (arith, used));
}

-- A writer below that takes all bytes.
abbrev append : Bytes → Bytes → Result WriteError ℕ × Bytes
append p sink = (ok (length p), sink ++ p)

write-IsWritten_example :
    IsWritten thousandths rate append empty_registry
      (codes "data")
      (codes "old")
      writer
      begun
      (write thousandths rate append empty_registry (codes "data") (codes "old") 1000 writer begun)
write-IsWritten_example =
    write-IsWritten thousandths rate append empty_registry (codes "data") (codes "old") 1000 writer
      begun writer-IsTracked

-- A cancelled item: the writer below keeps what it had.
stopped :
    (write thousandths rate append
      (request_cancel song empty_registry)
      (codes "data")
      (codes "old")
      1000
      writer
      begun).1
    ≡ codes "old"
unfolding write is_cancelled request_cancel lookup insert ◌=ₛ◌ new_item_progress_writer
stopped = refl
