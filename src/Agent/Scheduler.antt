-- ===== src/Agent/Scheduler.antt =====
-- agent/scheduler.py: when recurring work is due, and how a failing lead backs off. Times and
-- durations are in microseconds. The lead's fields that are read here are arguments.
pub mod Due
use vuln_proof_claw.Common.{
  ℕ, ◌+◌, ◌-◌, ◌*◌, ◌^◌, min, Bool, true, false, ◌||◌, Option, none, some, ◌==◌, leb, or_else,
  if◌then◌else◌, String,
}
use vuln_proof_claw.Domain.Enums.{LeadStatus, LeadStatus-discrete, lead_status_eq, lead_terminal}
use vuln_proof_claw.Domain.Errors.{Time}
use vuln_proof_claw.Domain.Autonomous.{MissionCadence}

-- `_MAXIMUM_BACKOFF_EXPONENT`
abbrev pub maximum_backoff_exponent : ℕ
maximum_backoff_exponent = 6

pub data RecurringTask : Type 0 where
  http_inventory subdomain_refresh deep_recon : RecurringTask

pub record ScheduleDecision : Type 0 where
  pub due : Bool
  pub due_at : Time
  pub reason : String

-- `timedelta(seconds=s)`
abbrev pub seconds : ℕ → ℕ
seconds s = s * 1000000

unfoldable pub task_interval : RecurringTask → MissionCadence → ℕ
task_interval RecurringTask.http_inventory c = seconds c.http_inventory_seconds
task_interval RecurringTask.subdomain_refresh c = seconds c.subdomain_refresh_seconds
task_interval RecurringTask.deep_recon c = seconds c.deep_recon_seconds

unfoldable pub evaluate_task :
    RecurringTask → MissionCadence → (last_run_at : Option Time) → (now : Time) → ScheduleDecision
evaluate_task task c none now = record { due = true; due_at = now; reason = "never_run" }
evaluate_task task c (some last_run_at) now =
    let due_at = last_run_at + task_interval task c in
    if leb due_at now
    then record { due = true; due_at = due_at; reason = "interval_elapsed" }
    else record { due = false; due_at = due_at; reason = "interval_pending" }

unfoldable pub next_cycle_at : MissionCadence → Time → Time
next_cycle_at c now = now + seconds c.cycle_interval_seconds

unfoldable pub retry_backoff : (failure_count : ℕ) → MissionCadence → ℕ
retry_backoff failure_count c =
    let exponent = min (failure_count - 1) maximum_backoff_exponent in
    seconds (c.lead_retry_cooldown_seconds * 2 ^ exponent)

unfoldable pub next_attempt_at : (failure_count : ℕ) → MissionCadence → Time → Time
unfolding retry_backoff
next_attempt_at failure_count c now = now + retry_backoff failure_count c

-- A lead that was last attempted, or else created, in the future has been untouched for no time.
unfoldable pub is_stale :
    LeadStatus
    → (last_attempt_at : Option Time) → (created_at : Time) → MissionCadence
    → Time
    → Bool
unfolding LeadStatus-discrete lead_terminal
is_stale status last_attempt_at created_at c now =
    if lead_terminal status || (status == LeadStatus.stale)
    then false
    else let reference = or_else last_attempt_at created_at in
      leb (reference + seconds c.stale_lead_after_seconds) now
