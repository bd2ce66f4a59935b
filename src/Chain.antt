-- ===== src/Chain.antt =====
-- user-server/user_server/chain: transactions that are sent again with more gas.
pub mod Retry
pub mod Attempts
mod Tests
