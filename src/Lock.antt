-- ===== src/Lock.antt =====
-- mc_lock.c: the immobilizer. Definitions first, then what is proved of them.
pub mod Types
pub mod Moves
pub mod Settings
pub mod Cheatcode
pub mod Clock
pub mod Sweep
pub mod Machine
pub mod Invariant
pub mod Soundness
pub mod Release
pub mod Locking
pub mod Attempts
pub mod Typing
pub mod Lockout
mod Tests
