-- ===== src/Strategies.antt =====
-- Strategies that users write (user-server/user_server/strategies): the checks on their syntax, the
-- loader, the two runners and the cache of loaded strategies.
pub mod Sandbox
pub mod Walk
pub mod Clean
pub mod Python
pub mod Loader
pub mod Tick
pub mod Run
pub mod Sound
pub mod Fallback
pub mod Cache
pub mod Recency
pub mod History
pub mod Threads
pub mod Simulated
pub mod Publish
pub mod Published
pub mod Ranges
pub mod Refusals
mod Tests
mod PublishTests
