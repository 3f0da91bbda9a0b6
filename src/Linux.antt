-- ===== src/Linux.antt =====
-- crates/court-hosted-linux: the courts as Linux processes.
pub mod Protocol
pub mod ShmRing
pub mod Manifest
pub mod RingFile
pub mod Root
pub mod Clients
mod Fixtures
mod Tests
