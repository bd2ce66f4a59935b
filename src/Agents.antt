-- ===== src/Agents.antt =====
-- user-server/user_server/agents: the containers of a user's trading agents.
pub mod State
pub mod Counting
pub mod Containers
pub mod Rows
pub mod Health
pub mod Service
pub mod Push
pub mod Pushed
mod Tests
