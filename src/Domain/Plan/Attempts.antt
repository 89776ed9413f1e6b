-- ===== src/Domain/Plan/Attempts.antt =====
-- Claims of a step that keeps failing, or that keeps losing its worker.
use vuln_proof_claw.Common.{
  ℕ, suc, ◌+◌, ◌≤◌, ◌<◌, false, ◌≡◌, arith, if◌then◌else◌, ◌-◌, ◌⊎◌, inl, inr,
}
use vuln_proof_claw.Common.Results.{ok}
use vuln_proof_claw.Domain.Enums.{TaskState, task_terminal}
use vuln_proof_claw.Domain.Models.{Task, validate_task}
use vuln_proof_claw.Domain.Plan.{claim, transition, allowed_transitions}

validate_task-ok : (t : Task) {u : Task} → validate_task t ≡ ok u → u ≡ t
unfolding validate_task
validate_task-ok t h = ground arith

-- A claim that is granted: the step runs with one more attempt, which is within the limit, or it is
-- abandoned with its attempts used up; the rest of the step is unchanged. Only a step that is not
-- in a terminal state is granted.
pub claim-ok :
    (t : Task) (max_attempts : ℕ) {u : Task}
    → claim t max_attempts ≡ ok u
    → (task_terminal t.state ≡ false)
      × ((u ≡ record t { state = TaskState.running; attempts = t.attempts + 1 })
            × (t.attempts < max_attempts)
          ⊎ (u ≡ record t { state = TaskState.abandoned }) × (max_attempts ≤ t.attempts))
unfolding claim transition allowed_transitions
claim-ok t max_attempts {u} h = ground (
  arith,
  validate_task-ok (record t { state = TaskState.abandoned }) {u = u},
  validate_task-ok (record t { attempts = t.attempts + 1 }) {u = u},
  validate_task-ok (record t { state = TaskState.running; attempts = t.attempts + 1 }) {u = u},
)

-- `n` claims of a step, each of which may be followed by a report that the step failed. A worker
-- that died reports nothing.
pub data Retries (max_attempts : ℕ) (s : Task) : ℕ → Task → Type 0 where
  planned : Retries max_attempts s 0 s
  claimed :
      {n : ℕ} {t u : Task}
      → Retries max_attempts s n t
      → claim t max_attempts ≡ ok u
      → Retries max_attempts s (suc n) u
  failed :
      {n : ℕ} {t u : Task}
      → Retries max_attempts s n t
      → transition t TaskState.failed ≡ ok u
      → Retries max_attempts s n u

-- The claims that a step can still be given.
abbrev claims_left : ℕ → Task → ℕ
claims_left max_attempts t = if task_terminal t.state then 0 else suc (max_attempts - t.attempts)

claims_left-claim :
    (m : ℕ) (t : Task) {u : Task} → claim t m ≡ ok u → suc (claims_left m u) ≤ claims_left m t
unfolding task_terminal
claims_left-claim m t {u} h = elim (claim-ok t m h).1 [
  | inl again ↦ ground (arith, (claim-ok t m h).0, again.0, again.1)
  | inr given_up ↦ ground (arith, (claim-ok t m h).0, given_up.0)
]

claims_left-failed :
    (m : ℕ) (t : Task) {u : Task}
    → transition t TaskState.failed ≡ ok u
    → claims_left m u ≤ claims_left m t
unfolding transition allowed_transitions task_terminal
claims_left-failed m t {u} h =
    ground (arith, validate_task-ok (record t { state = TaskState.failed }) {u = u})

claims-le : {m : ℕ} {s t : Task} {n : ℕ} → Retries m s n t → n + claims_left m t ≤ claims_left m s
claims-le planned = omega arith
claims-le {m} (claimed {t = t} r h) = omega (arith, claims-le r, claims_left-claim m t h)
claims-le {m} (failed {t = t} r h) = omega (arith, claims-le r, claims_left-failed m t h)

-- Through any claims that are granted and any reports of failure, a step is claimed at most once
-- for each attempt that the limit leaves it, and once more, to be abandoned.
pub Retries-le :
    {max_attempts : ℕ} {s t : Task} {n : ℕ}
    → Retries max_attempts s n t
    → n ≤ suc (max_attempts - s.attempts)
Retries-le r = ground (arith, claims-le r)
