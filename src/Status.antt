-- ===== src/Status.antt =====
-- mc_status.c: the status frame.
pub mod Frame
pub mod Roundtrip
mod Tests
