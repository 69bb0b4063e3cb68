-- ===== src/Storage.antt =====
-- crates/oikade-storage: the device state that the runtime keeps across restarts, and the buckets
-- of the database it is kept in.
pub mod Keys
pub mod KeyLaws
pub mod Bucket
pub mod Lawful
pub mod Lookups
pub mod Refinement
pub mod Suffixes
pub mod Memory
pub mod Schema
pub mod SchemaLaws
pub mod DeviceState
pub mod RoundTrip
pub mod Persistence
pub mod StoreExamples
pub mod Examples
