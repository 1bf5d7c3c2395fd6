-- ===== src/Output.antt =====
-- mc_output.c: the output engine. Definitions first, then what is proved of them.
pub mod Types
pub mod Drive
pub mod Parts
pub mod Hazards
pub mod Command
pub mod Clock
pub mod Settings
pub mod Frames
pub mod Rounds
pub mod Stages
pub mod Switch
pub mod Guards
pub mod Borrow
pub mod Trace
pub mod Starter
pub mod Immobilized
pub mod WellFormed
pub mod AutoCancel
pub mod Wiring
pub mod Exclusion
pub mod Bike
mod Tests
