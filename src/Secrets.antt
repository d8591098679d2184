-- ===== src/Secrets.antt =====
-- crates/mxdx-secrets: secrets at rest, and their release to workers.
pub mod Store
pub mod Coordinator
pub mod Release
mod Tests
