-- ===== src/Agent/Scheduler/Due.antt =====
-- Runs of recurring work, and the wait of a failing lead.
use vuln_proof_claw.Common.{ℕ, suc, ◌+◌, ◌-◌, ◌*◌, ◌^◌, ◌≤◌, min, true, ◌≡◌, some, arith}
use native.Mathlib.Nat.{mul-le-mul_left, pow-le-pow_right, one-le-pow}
use vuln_proof_claw.Domain.Errors.{Time}
use vuln_proof_claw.Domain.Autonomous.{MissionCadence}
use vuln_proof_claw.Agent.Scheduler.{
  RecurringTask, task_interval, evaluate_task, retry_backoff, seconds, maximum_backoff_exponent,
}

-- Runs of a task: each at a time at which the task was due after the run before it.
data Runs (task : RecurringTask) (c : MissionCadence) (first : Time) : ℕ → Time → Type 0 where
  first_run : Runs task c first 0 first
  next_run :
      {n : ℕ} {last : Time} (now : Time)
      → Runs task c first n last
      → (evaluate_task task c (some last) now).due ≡ true
      → Runs task c first (suc n) now

due-le :
    (task : RecurringTask) (c : MissionCadence) (last now : Time)
    → (evaluate_task task c (some last) now).due ≡ true
    → last + task_interval task c ≤ now
unfolding evaluate_task
due-le task c last now h = ground arith

step_le :
    (n k first last now : ℕ) → first + n * k ≤ last → last + k ≤ now → first + (suc n) * k ≤ now
step_le n k first last now h e = grind (arith, h, e)

-- Of a recurring task that is run only when it is due, the last run is at least one interval per
-- further run behind the first.
Runs-le :
    (task : RecurringTask) (c : MissionCadence) (first : Time) {n : ℕ} {last : Time}
    → Runs task c first n last
    → first + n * task_interval task c ≤ last
Runs-le task c first first_run = omega arith
Runs-le task c first (next_run {n} {last} now runs due) =
    step_le n (task_interval task c) first last now (Runs-le task c first runs)
      (due-le task c last now due)

-- Factors in order give products in order.
scaled_le : (k a b : ℕ) → a ≤ b → k * a * 1000000 ≤ k * b * 1000000
scaled_le k a b h = let le = mul-le-mul_left k h in omega (arith, le)

-- More failures never shorten the backoff, which is at least one cooldown and at most sixty-four.
pub retry_backoff_mono :
    (c : MissionCadence) (f g : ℕ)
    → f ≤ g
    → (retry_backoff f c ≤ retry_backoff g c)
      × (seconds c.lead_retry_cooldown_seconds ≤ retry_backoff f c)
      × (retry_backoff g c ≤ 64 * seconds c.lead_retry_cooldown_seconds)
unfolding retry_backoff
retry_backoff_mono c f g h =
    let k = c.lead_retry_cooldown_seconds in
    let e = min (f - 1) maximum_backoff_exponent in
    let e' = min (g - 1) maximum_backoff_exponent in
    let grows : 2 ^ e ≤ 2 ^ e' = pow-le-pow_right (omega arith) (omega (arith, h)) in
    let least : 1 ≤ 2 ^ e = one-le-pow e 2 (omega arith) in
    let most : 2 ^ e' ≤ 64 =
      pow-le-pow_right {n = 2} (omega arith) {i = e'} {j = 6} (omega arith) in
    let low = scaled_le k 1 (2 ^ e) least in
    let high = scaled_le k (2 ^ e') 64 most in
    (scaled_le k (2 ^ e) (2 ^ e') grows, omega (arith, low), omega (arith, high))
