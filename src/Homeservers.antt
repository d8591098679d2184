-- ===== src/Homeservers.antt =====
-- The pool of homeservers of one client, multi_hs.rs.
pub mod Pool
pub mod Scan
pub mod Failover
pub mod Breaker
pub mod History
pub mod Collect
pub mod Seen
pub mod Recall
pub mod Deliver
pub mod Tests
