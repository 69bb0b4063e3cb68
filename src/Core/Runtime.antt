-- ===== src/Core/Runtime.antt =====
-- crates/oikade-core/src/runtime.rs and runtime/subscription.rs: the canonical runtime.
pub mod Types
pub mod Exec
pub mod Hub
pub mod Value
pub mod Lookup
pub mod Ops
pub mod Step
pub mod Commit
pub mod Distinct
pub mod HubInvariant
pub mod Delivery
pub mod Restoring
pub mod Closing
pub mod Restore
pub mod Registering
pub mod Invariant
pub mod Reachable
pub mod Atomic
pub mod ReadWrite
pub mod Examples
