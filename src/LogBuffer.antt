-- ===== src/LogBuffer.antt =====
-- go_backend/logbuffer.go: the ring buffer of log entries that the app polls.
-- A panic of Go (an index out of range, a division by zero) is not a value here: `IsValid`, which
-- every operation keeps, puts every index that `add` and `snapshot_locked` use in range.
pub mod Message
pub mod Window
pub mod Invariant
pub mod Polling
mod Tests
use musi_flac.Prelude.{
  ℕ, zero, suc, ◌+◌, ◌-◌, ◌%◌, Bool, true, false, not, ◌&&◌, List, [], ◌∷◌, ltb, leb, ◌==◌,
  if◌then◌else◌, length, get_or, set, replicate, Bytes, codes, ◌=ₛ◌, ℤ, pos, negsuc, ltb_ℤ, sub_ℕ,
  ◌-ℤ◌,
}
use Message.{truncate_log_message}

pub record LogEntry : Type 0 where
  pub timestamp : Bytes
  pub level : Bytes
  pub tag : Bytes
  pub message : Bytes

-- `LogEntry{}`
abbrev pub zero_entry : LogEntry
zero_entry = record { timestamp = []; level = []; tag = []; message = [] }

pub record LogBuffer : Type 0 where
  pub entries : List LogEntry
  pub max_size : ℕ
  pub head : ℕ
  pub count : ℕ
  pub next_index : ℕ
  pub logging_enabled : Bool

abbrev pub default_log_buffer_size : ℕ
default_log_buffer_size = 500

-- What `GetLogBuffer` makes on its first call; `n` is `defaultLogBufferSize` there.
unfoldable pub new_log_buffer : ℕ → LogBuffer
new_log_buffer n = record {
  entries = replicate n zero_entry;
  max_size = n;
  head = 0;
  count = 0;
  next_index = 0;
  logging_enabled = false;
}

unfoldable pub set_logging_enabled : Bool → LogBuffer → LogBuffer
set_logging_enabled enabled lb = record lb { logging_enabled = enabled }

-- `len(lb.entries) != lb.maxSize`: allocate anew.
unfoldable pub resized : LogBuffer → LogBuffer
resized lb =
    if length lb.entries == lb.max_size
    then lb
    else record lb { entries = replicate lb.max_size zero_entry; head = 0; count = 0 }

-- The write of `Add`, once the entry is made.
unfoldable pub push : LogEntry → LogBuffer → LogBuffer
push entry lb =
    if ltb lb.count lb.max_size
    then record lb {
      entries = set lb.entries ((lb.head + lb.count) % lb.max_size) entry;
      count = lb.count + 1;
      next_index = lb.next_index + 1;
    }
    else record lb {
      entries = set lb.entries lb.head entry;
      head = (lb.head + 1) % lb.max_size;
      next_index = lb.next_index + 1;
    }

-- `!lb.loggingEnabled && level != "ERROR" && level != "FATAL"`
unfoldable pub is_suppressed : LogBuffer → Bytes → Bool
is_suppressed lb level =
    not lb.logging_enabled && not (level =ₛ codes "ERROR") && not (level =ₛ codes "FATAL")

-- `sanitize` is `sanitizeSensitiveLogText`, five calls of package regexp; `now` is the formatted
-- clock. The line that `fmt.Printf` writes to the standard output is left out.
unfoldable pub entry_of : (Bytes → Bytes) → Bytes → Bytes → Bytes → Bytes → LogEntry
entry_of sanitize now level tag message = record {
  timestamp = now;
  level = level;
  tag = tag;
  message = truncate_log_message (sanitize message);
}

unfoldable pub add : (Bytes → Bytes) → Bytes → Bytes → Bytes → Bytes → LogBuffer → LogBuffer
add sanitize now level tag message lb =
    if is_suppressed lb level
    then lb
    else if lb.max_size == 0
    then lb
    else push (entry_of sanitize now level tag message) (resized lb)

-- The loop of `snapshotLocked` with `rounds` to go: `i` is its counter.
unfoldable pub copy_entries : List LogEntry → ℕ → ℕ → ℕ → ℕ → List LogEntry
copy_entries entries head max_size zero i = []
copy_entries entries head max_size (suc rounds) i =
    get_or entries ((head + i) % max_size) zero_entry
    ∷ copy_entries entries head max_size rounds (i + 1)

-- `if offset < 0 { offset = 0 }`
abbrev pub clamp_offset : ℤ → ℕ
clamp_offset (pos n) = n
clamp_offset (negsuc n) = 0

unfoldable pub snapshot_locked : LogBuffer → ℤ → List LogEntry
snapshot_locked lb offset =
    let from = clamp_offset offset in
    if leb lb.count from
    then []
    else copy_entries lb.entries lb.head lb.max_size (lb.count - from) from

-- The entries of `GetAll`, before they are marshalled.
unfoldable pub get_all : LogBuffer → List LogEntry
get_all lb = snapshot_locked lb (pos 0)

unfoldable pub get_since : LogBuffer → ℤ → List LogEntry × ℕ
get_since lb index =
    let earliest = sub_ℕ lb.next_index lb.count in
    let index' = if ltb_ℤ index earliest then earliest else index in
    if ltb_ℤ index' (pos lb.next_index)
    then (snapshot_locked lb (index' -ℤ earliest), lb.next_index)
    else ([], lb.next_index)

unfoldable pub clear : LogBuffer → LogBuffer
clear lb = record lb { entries = replicate (length lb.entries) zero_entry; head = 0; count = 0 }
