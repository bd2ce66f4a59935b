-- ===== src/Proxy.antt =====
-- hub/proxy: the way of a request from the hub to the user server of its user.
pub mod Forward
pub mod Dispatch
pub mod Stripped
pub mod Served
pub mod Passage
pub mod Gate
mod Tests
