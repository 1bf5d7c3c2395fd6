-- ===== src/Ota.antt =====
-- mc_ota.c: the firmware update, its transfer and what a committed image is.
pub mod Transfer
pub mod Image
pub mod Keeping
pub mod Committed
pub mod Signed
mod Tests
