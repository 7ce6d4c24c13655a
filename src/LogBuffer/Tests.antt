-- ===== src/LogBuffer/Tests.antt =====
-- Runs of the log buffer of go_backend/logbuffer.go, and its theorems at concrete inputs.
use musi_flac.Prelude.{
  ◌+◌, ◌<◌, ◌≡◌, refl, true, List, [], ◌∷◌, arith, length, keep_last, Bytes, codes, ◌=ₛ◌, pos, ◌-ℤ◌,
}
use musi_flac.LogBuffer.{
  LogEntry, LogBuffer, new_log_buffer, set_logging_enabled, add, push, resized, entry_of,
  is_suppressed, snapshot_locked, get_since, copy_entries,
}
use musi_flac.LogBuffer.Message.{truncate_log_message, valid_string, trim_invalid}
use musi_flac.LogBuffer.Invariant.{IsValid, new_log_buffer-IsValid}
use musi_flac.LogBuffer.Polling.{Call, run, offered, get_since-run}

abbrev keep : Bytes → Bytes
keep s = s

abbrev small : LogBuffer
small = set_logging_enabled true (new_log_buffer 2)

small-IsValid : IsValid small
unfolding set_logging_enabled
small-IsValid =
    let v = new_log_buffer-IsValid 2 in
    record {
      allocated = v.allocated;
      head_in = v.head_in;
      count_in = v.count_in;
      index_in = v.index_in;
    }

abbrev call : Bytes → Call
call message = record {
  now = codes "12:00";
  level = codes "INFO";
  tag = codes "Go";
  message = message;
}

abbrev three : List Call
three = call (codes "a") ∷ call (codes "b") ∷ call (codes "c") ∷ []

abbrev line : Bytes → LogEntry
line m = record { timestamp = codes "12:00"; level = codes "INFO"; tag = codes "Go"; message = m }

kept_lines :
    get_since (run keep three small) (pos 0) ≡ (line (codes "b") ∷ line (codes "c") ∷ [], 3)
unfolding get_since run add push resized entry_of is_suppressed snapshot_locked copy_entries ◌=ₛ◌
    set_logging_enabled new_log_buffer truncate_log_message ◌-ℤ◌
kept_lines = refl

-- A cut inside "é" drops its first byte too.
cut_é : trim_invalid 2 (b'a' ∷ 0xc3 ∷ 0xa9 ∷ []) ≡ b'a' ∷ []
unfolding trim_invalid valid_string
cut_é = refl

small_size : 0 < small.max_size
unfolding set_logging_enabled new_log_buffer
small_size = omega arith

get_since-run_example : get_since (run keep three small) (pos small.next_index) ≡ (
  keep_last small.max_size (offered keep three small),
  small.next_index + length (offered keep three small),
)
get_since-run_example = get_since-run keep three small small-IsValid small_size
