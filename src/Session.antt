-- ===== src/Session.antt =====
-- The session and protocol engine (firmware/components/core/mc_session.c).
pub mod Types
pub mod Result
pub mod Status
pub mod Auth
pub mod Commands
pub mod Lock
pub mod Diag
pub mod Events
pub mod Config
pub mod Update
pub mod Dispatch
pub mod Gate
pub mod Quiet
pub mod Challenge
pub mod History
pub mod Chunks
pub mod Staging
pub mod Commit
pub mod Ownership
pub mod Tests
