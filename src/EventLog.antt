-- ===== src/EventLog.antt =====
-- mc_event_log.c: the persisted ring of safety and security events, and the history that it keeps.
pub mod Ring
pub mod History
pub mod Reading
pub mod Refine
pub mod Tests
