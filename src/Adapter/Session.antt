-- ===== src/Adapter/Session.antt =====
-- crates/oikade-adapter-host/src/session.rs: one connection to an adapter. Tasks meet at locks and
-- channels; what a task does between two of them is one step.
pub mod Ids
pub mod State
pub mod Calls
pub mod Incoming
pub mod Step
pub mod Invariant
pub mod Moves
pub mod CallLaws
pub mod IncomingLaws
pub mod Sweep
pub mod Safety
pub mod Progress
pub mod Examples
