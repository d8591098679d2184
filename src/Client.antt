-- ===== src/Client.antt =====
-- The client, crates/mxdx-client.
pub mod Tracker
pub mod Buffers
pub mod Tracked
mod Tests
