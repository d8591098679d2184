-- ===== src/Trust.antt =====
-- Which devices are trusted, and the keychains that keep it: trust.rs of the types, of the worker
-- and of the client.
pub mod Keychain
pub mod Chain
pub mod Store
pub mod Device
pub mod Persisted
pub mod Manual
pub mod Tests
