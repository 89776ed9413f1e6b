-- ===== src/Agent.antt =====
-- The autonomous controller: what a mission may spend, and when it works.
pub mod Budget
pub mod Scheduler
pub mod Leads
pub mod Planner
