-- ===== src/Market.antt =====
-- The library of strategies and the marketplace of the hub: hub/strategies/router.py and
-- hub/marketplace/router.py.
pub mod State
pub mod Library
pub mod Listings
pub mod Serve
pub mod Rules
pub mod Counts
pub mod Copies
pub mod Installs
mod Tests
pub mod Owned
pub mod Again
