-- ===== src/Hosted.antt =====
-- crates/court-hosted/src/lib.rs: the in-process object model.
pub mod Rights
pub mod Types
pub mod Caps
pub mod Root
mod Tests
