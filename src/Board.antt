-- ===== src/Board.antt =====
-- The task of the target that runs the core (firmware/main/main.c).
pub mod Bindings
pub mod Turn
pub mod Drives
pub mod Refine
pub mod Queue
mod Tests
