-- ===== src/Signals.antt =====
-- The signals of the agent's strategies (app/strategies).
pub mod Series
pub mod Reversion
pub mod Momentum
pub mod Trend
pub mod Volume
pub mod Statistical
pub mod Fallback
pub mod Dispatch
pub mod Chosen
pub mod Default
pub mod Bounded
pub mod CandleBounds
pub mod Limits
pub mod Engine
pub mod Range
pub mod Warmup
mod Tests
mod DispatchTests
