-- ===== src/Execution.antt =====
-- execution/: the start of target-facing work.
pub mod Authorization
pub mod Protocol
pub mod Manager
pub mod Audit
pub mod Registry
pub mod Janitor
pub mod Lifecycle
