-- ===== src/Core/Runtime/Ops.antt =====
-- crates/oikade-core/src/runtime.rs: the methods of `Runtime`, each run to its end. The release
-- build checks overflow, so `revision` and the counters do not wrap.
mod Registration
mod Values
mod Lifecycle
unfoldable pub use Registration.*
unfoldable pub use Values.*
unfoldable pub use Lifecycle.*
