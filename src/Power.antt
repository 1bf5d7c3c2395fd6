-- ===== src/Power.antt =====
-- mc_power.c: how hard the platform may idle, and what it applies.
pub mod Policy
pub mod Applied
mod Tests
