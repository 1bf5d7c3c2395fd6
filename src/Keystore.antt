-- ===== src/Keystore.antt =====
-- mc_keystore.c: the enrolled public keys.
pub mod Slots
pub mod Enrolment
pub mod Lookup
mod Tests
