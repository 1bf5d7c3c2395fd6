-- ===== src/Diag.antt =====
-- Diagnostics (firmware/components/core/mc_diag.c).
pub mod Types
pub mod Settings
pub mod Tick
pub mod Mirror
pub mod Sampling
pub mod Learning
pub mod Tests
