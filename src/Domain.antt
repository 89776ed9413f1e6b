-- ===== src/Domain.antt =====
-- The value objects and lifecycle rules of domain/.
pub mod Enums
pub mod Errors
pub mod Models
pub mod ActionState
pub mod Plan
pub mod Finding
pub mod Autonomous
