-- ===== src/Coordinator.antt =====
-- The coordinator, crates/mxdx-coordinator.
pub mod Router
pub mod Entries
pub mod Routing
pub mod Index
pub mod Indexed
pub mod Lookup
pub mod Claim
pub mod Watchlist
pub mod Alerts
pub mod Failure
mod Tests
