-- ===== src/Input.antt =====
-- The input engine (firmware/components/core/mc_input.c).
pub mod Types
pub mod Queue
pub mod Matcher
pub mod Poll
pub mod Fifo
pub mod Frames
pub mod Debounce
pub mod Steps
pub mod Bounds
pub mod Marks
pub mod Chords
pub mod Held
pub mod Quiet
mod Tests
