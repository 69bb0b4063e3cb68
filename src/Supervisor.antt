-- ===== src/Supervisor.antt =====
-- crates/oikade-supervisor: the supervision of one child process.
pub mod Policy
pub mod Backoff
pub mod Process
pub mod Run
pub mod Window
pub mod Examples
