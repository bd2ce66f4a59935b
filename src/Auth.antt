-- ===== src/Auth.antt =====
-- Authentication of the hub (hub/auth): the users' tokens and keys, and the session keys that sign
-- requests.
pub mod State
pub mod Session
pub mod Checks
pub mod Endpoints
pub mod Keys
pub mod Lasting
pub mod Replay
pub mod Entitled
pub mod Revoked
mod Tests
pub mod SignIn
pub mod Once
mod SignInTests
