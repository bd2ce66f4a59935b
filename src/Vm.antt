-- ===== src/Vm.antt =====
-- The hub's management of one virtual machine per user (hub/vm).
pub mod State
pub mod Provider
pub mod Registry
pub mod Start
pub mod Service
mod Tests
