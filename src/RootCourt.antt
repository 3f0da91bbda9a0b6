-- ===== src/RootCourt.antt =====
-- crates/root-court: the kernel that boots the courts on bare metal.
pub mod Objects
pub mod Mm
pub mod Paging
pub mod Loader
pub mod Courtlets
pub mod Processor
mod Tests
