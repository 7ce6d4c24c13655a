-- ===== src/Ogg.antt =====
-- go_backend/ogg_edit.go: the native editor of Ogg Opus and Ogg Vorbis comments.
pub mod Page
pub mod PageTrip
pub mod PageCut
pub mod Comments
pub mod CommentsInverse
pub mod Packets
pub mod Fold
pub mod PacketTrip
pub mod Layout
pub mod Edit
pub mod Gathering
pub mod Reader
pub mod Listed
pub mod Block
pub mod Gather
pub mod Collected
pub mod Fields
pub mod FieldEdit
pub mod Stream
pub mod Collect
pub mod Audio
pub mod EditTrip
pub mod EditTotal
pub mod Written
pub mod Detected
pub mod Shown
pub mod ShownTests
mod Tests
