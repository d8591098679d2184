-- ===== src/P2p.antt =====
-- The peer-to-peer transport, crates/mxdx-p2p.
pub mod Channel
pub mod Signaling
pub mod Glare
pub mod State
pub mod Verify
pub mod Driver
mod Tests
pub mod Turn
pub mod Refresh
mod TurnTests
