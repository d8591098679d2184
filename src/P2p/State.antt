-- ===== src/P2p/State.antt =====
-- crates/mxdx-p2p/src/transport/state.rs: the nine states of a call and the transition function.
-- The types stand in `State.Effects` and `State.Types`, one function for each state in
-- `State.Before` (no answer yet), `State.Handshake` and `State.After`, and `transition` in
-- `State.Transition`; `State.Safety` and `State.Reports` are about one step, `State.Run` about runs.
pub mod Effects
pub mod Types
pub mod Before
pub mod Handshake
pub mod After
pub mod Transition
pub mod Safety
pub mod Reports
pub mod Run
