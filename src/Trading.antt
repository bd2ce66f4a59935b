-- ===== src/Trading.antt =====
-- The trading agent (app): numbers, the paper position, the engine and its loop.
pub mod Float
pub mod Clamp
pub mod Paper
pub mod Session
pub mod Compute
pub mod Actions
pub mod Loop
pub mod Start
pub mod Whole
mod Tests
