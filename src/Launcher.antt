-- ===== src/Launcher.antt =====
-- The launcher, crates/mxdx-launcher.
pub mod RingBuffer
pub mod Recent
mod Tests
pub mod Executor
pub mod Batcher
pub mod Paths
pub mod Permitted
mod PathTests
