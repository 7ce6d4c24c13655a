-- ===== src/Ape.antt =====
-- APEv2 tags: go_backend/ape_tags.go.
pub mod Tag
pub mod Write
pub mod Merge
pub mod Fields
pub mod Same
pub mod Layout
pub mod RoundTrip
pub mod Replace
mod Tests
