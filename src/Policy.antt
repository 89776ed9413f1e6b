-- ===== src/Policy.antt =====
-- policy/: what may run, under which scope, at which risk and with which approval.
pub mod Risk
pub mod Approval
pub mod Scope
pub mod Decision
pub mod Effort
