-- ===== src/Backtest.antt =====
-- user-server/user_server/backtest: a strategy replayed over candles.
pub mod Metrics
pub mod Orders
pub mod Replay
pub mod Begun
pub mod Bounds
mod Tests
