-- ===== src/Lib.antt =====
-- The hub that joins device integrations to protocol adapters: a model of its core in Rust, and
-- what holds of it.
--
-- The parts, and how they interact. Integrations register devices with the runtime and publish
-- values; protocol adapters read a snapshot, subscribe to events and send commands, which the
-- runtime validates, hands to the integration's command handler, stores and announces. Adapters and
-- plugins are child processes that a supervisor restarts.
--
-- Core.Model is crates/oikade-core/src/model.rs: identifiers (`validate_identifier`), values,
--   capabilities, the built-in capability types and devices (`Device::validate`). The text of an
--   error is a constructor that carries the values the text prints. An `f64` is a sign and a
--   magnitude in units of the smallest subnormal, or infinite, or no number (Prelude.Float).
-- Core.Runtime is crates/oikade-core/src/runtime.rs and runtime/subscription.rs. Types holds the
--   records and errors, Hub the subscriptions (`dispatch_events`, `close_all`, `cancel`), Value
--   `validate_capability_value`, Lookup `lookup` and `confirm_registration`, and Ops the methods
--   (`register`, `unregister`, `read`, `write_value`, `publish`, `commit`, `start`, `stop`,
--   `subscribe`, `snapshot`). A method is an action on the state of the runtime and the world around
--   it (Exec): what it changed before an error stays changed. Step puts the calls into one type. An
--   `Arc` has an identity, so that `Arc::ptr_eq` can be told from equality.
-- Supervisor is crates/oikade-supervisor/src/lib.rs and process.rs: the restart policy, the delay,
--   and the loop of `run`, one round at a time, over a script of what the child, the clock and the
--   caller of `stop` do in the round. `run_rounds` has no result where the script ends first.
-- Adapter is crates/oikade-adapter-api/src/v1.rs and codec.rs (Wire,
--   Codec, and Strict for `decode_envelope` and its visitor) and
--   crates/oikade-adapter-host/src/projection.rs (Convert, Projection). Adapter.Session is
--   crates/oikade-adapter-host/src/session.rs: State holds the session and the calls on it, with
--   `fail` cut at the lock of `pending`; Calls the steps of `call` and `abandon`, one between two
--   locks or channels; Incoming those of `read_loop`, `dispatch_command` and `respond`; Step puts
--   them in any order.
-- Storage is crates/oikade-storage/src/device_state.rs (DeviceState) and store.rs: Keys is the
--   encoding of keys (`validate_name`, `encode_key`, `decode_key`), Bucket the operations of a
--   bucket over a database, Schema `initialize_schema` and `validate_marker`. Lawful states what
--   a database documents, and the map of names that the buckets see in it; Memory is a database
--   that does so.
-- Matter is apps/oikade-matter-adapter/src/projection.rs: Endpoints the endpoint mappings, Shapes
--   and Classify what a capability becomes (the body of the loop of `ProjectionBuilder::build`),
--   Naming `truncate_utf8` and `unique_id`, Build the loops of `build` and what it keeps.
-- Plugin is crates/oikade-plugin-host/src/convert.rs (Convert: `device_from_api`) and manifest.rs
--   (Manifest: `validate`, and the components of the executable's path in `load_manifest`), over the
--   messages of crates/oikade-plugin-api/src/v1.rs (Wire).
-- Config is crates/oikade-config/src/lib.rs: the configuration, and `validate`.
-- Prelude holds what these share: results, maps in the order of their keys, text, numbers.
--
-- Parameters. The clock, tokio's bounded channels, stores and command handlers are the record
-- `Host` and the arguments of the methods; redb is the record `Database`, and its laws are
-- `IsLawful`; serde_json and the file of the endpoint mappings are arguments, as is the reading of a
-- path. In a session, what a peer, a handler or JSON does is part of a step. A theorem assumes of
-- them what its comment says.
--
-- Numbers and bounds. The repository's release profile checks overflow, so a counter (revision,
-- subscription identifier, restarts) that overflows panics instead of wrapping: the counters are
-- plain numbers. Where the code uses `checked_add`, `checked_mul` or `saturating_add`, the bound is
-- written out. The search for a free endpoint recurs on the number of `checked_add(1)` that can
-- still succeed, `u16::MAX` less the candidate, so that it ends where the code's addition fails.
-- A key's lengths are four bytes, as `u32::try_from` bounds them; `from_utf8` takes as many rounds as
-- there are bytes, and each takes one at least. A session ends before its 2^64th call, where the
-- addition that makes the identifier overflows. The hash of `unique_id` is taken modulo 2^64.
--
-- Not modelled: in the runtime, the points at which a method awaits a store or a handler are not
-- interleaved with other calls (the re-checks after them are there); the waiting of `recv` and the
-- `Drop` of a subscription; processes, signals and log readers; in a session, `wait_hello` and
-- `wait_failure`, which only wait, and the names that two error texts print; `Storage::open` and the
-- marker file, which are calls of the file system; `ProjectionSet` and the rounding of light levels.
-- YAML and the files of the configuration and of plugins are not read here; the instances of the
-- hosts, the session of a plugin, administration, the daemon and the Matter stack are input and
-- output around the parts above or remain to be added.
pub mod Plugin
pub mod Prelude
pub mod Core
pub mod Adapter
pub mod Config
pub mod Matter
pub mod Storage
pub mod Supervisor
