-- ===== src/Progress.antt =====
-- go_backend/progress.go: the progress of the items that are being downloaded, and the deltas that
-- the app polls.
pub mod State
pub mod Items
pub mod Delta
pub mod Invariant
pub mod Median
pub mod Prune
pub mod Sync
pub mod Runs
pub mod Polling
pub mod Cache
mod Tests
