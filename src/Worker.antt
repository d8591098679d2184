-- ===== src/Worker.antt =====
-- The worker, crates/mxdx-worker.
pub mod Mux
pub mod Rooms
pub mod Session
pub mod Lifecycle
mod Tests
pub mod Batch
pub mod Batches
pub mod Executor
pub mod Safe
mod ExecutorTests
