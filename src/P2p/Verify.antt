-- ===== src/P2p/Verify.antt =====
-- verify.rs: the handshake by which each peer proves that it is the Matrix device that was called.
pub mod Types
pub mod Transcript
pub mod Handshake
pub mod Injective
pub mod Exchange
pub mod Authentic
mod Tests
pub mod Sdp
pub mod Fingerprint
mod SdpTests
