-- ===== src/Policy.antt =====
-- crates/mxdx-policy: who may run a command, and that no event runs one twice.
pub mod Engine
pub mod Recency
pub mod Replay
pub mod Once
pub mod Tests
