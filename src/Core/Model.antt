-- ===== src/Core/Model.antt =====
-- crates/oikade-core/src/model.rs: values, capabilities, devices, and their validation.
-- An error message is a constructor that carries the values that the message prints.
mod Types
mod Identifier
mod Builtin
mod Validate
pub mod IdentifierLaws
pub mod DeviceLaws
pub mod Examples
unfoldable pub use Types.*
unfoldable pub use Identifier.*
unfoldable pub use Builtin.*
unfoldable pub use Validate.*
