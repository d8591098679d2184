-- ===== src/P2p/Driver.antt =====
-- crates/mxdx-p2p/src/transport/driver.rs and mod.rs: the task that owns the call. `Driver.Types` has
-- its state and its backend, `Driver.Commands` executes the commands of the state machine,
-- `Driver.Loop` feeds it, and `Driver.Guards` keeps the replay window, the lockout and the storm count.
-- `Driver.Keeps` and `Driver.Invariant` are about dispatching, `Driver.Reach` about whole runs,
-- `Driver.Replay` and `Driver.Lockout` about the guards.
pub mod Types
pub mod Commands
pub mod Loop
pub mod Guards
pub mod Keeps
pub mod Invariant
pub mod Reach
pub mod Replay
pub mod Storm
pub mod Lockout
