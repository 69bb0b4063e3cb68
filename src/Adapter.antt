-- ===== src/Adapter.antt =====
-- crates/oikade-adapter-api and crates/oikade-adapter-host: the protocol between the runtime and a
-- protocol adapter, and the projection of the runtime's devices that the host keeps.
pub mod Wire
pub mod Strict
pub mod StrictLaws
pub mod Codec
pub mod Framing
pub mod Convert
pub mod ConvertLaws
pub mod Projection
pub mod Accepted
pub mod Handle
pub mod Session
pub mod Examples
