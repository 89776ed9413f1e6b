-- ===== src/Examples/DomainCases.antt =====
-- The lifecycle of an action, the plan and findings, tried.
use vuln_proof_claw.Common.{◌+◌, ◌-◌, ◌≤◌, suc, ◌≡◌, refl, none, some, List, [], ◌∷◌}
use vuln_proof_claw.Common.Results.{ok}
use vuln_proof_claw.Domain.Enums.{ActionState, TaskState, requires_approval, task_terminal}
use vuln_proof_claw.Domain.Errors.{require_text, require_sha256}
use vuln_proof_claw.Domain.Models.{Action, Task, validate_action, authorizes, validate_task}
use vuln_proof_claw.Domain.ActionState.{
  transition_action, may_move, needs_approval, check_approval, moved,
}
use vuln_proof_claw.Domain.ActionState.Progress.{step, Run, here, next, moves_left, Run-moves_left}
use vuln_proof_claw.Domain.ActionState.Approvals.{
  Move, Trace, start, then, IsAuthorized, Trace-IsAuthorized,
}
use vuln_proof_claw.Domain.ActionState.Times.{IsTimed, Run-IsTimed}
use vuln_proof_claw.Domain.Plan.{claim, transition, allowed_transitions}
use vuln_proof_claw.Domain.Plan.Attempts.{planned, claimed, Retries-le}
use vuln_proof_claw.Examples.{action, approval, task}

abbrev checked : Action
checked = record action { state = ActionState.policy_check }

abbrev queued : Action
queued = record action { state = ActionState.queued; approval_id = some "p1" }

Run-checked : Run action 1 checked
unfolding transition_action validate_action require_text require_sha256 may_move needs_approval
    moved
Run-checked = next here (step ActionState.policy_check none (some 150) 150 refl)

Run-queued : Run action 2 queued
unfolding transition_action validate_action require_text require_sha256 may_move needs_approval
    moved check_approval authorizes
Run-queued = next Run-checked (step ActionState.queued (some approval) (some 200) 200 refl)

abbrev to_queue : Move
to_queue = record {
  target = ActionState.queued;
  approval = some approval;
  at = some 200;
  now = 200;
}

abbrev to_policy : Move
to_policy = record { target = ActionState.policy_check; approval = none; at = some 150; now = 150 }

Trace-queued : Trace action (to_queue ∷ to_policy ∷ []) queued
unfolding transition_action validate_action require_text require_sha256 may_move needs_approval
    moved check_approval authorizes
Trace-queued = then to_queue (then {b = action} {c = checked} to_policy start refl) refl

Trace-IsAuthorized_example : IsAuthorized (to_queue ∷ to_policy ∷ []) queued
unfolding requires_approval
Trace-IsAuthorized_example = Trace-IsAuthorized refl Trace-queued refl refl

Run-moves_left_example : 2 + moves_left ActionState.queued ≤ moves_left ActionState.proposed
Run-moves_left_example = Run-moves_left Run-queued

Run-IsTimed_example : IsTimed queued
Run-IsTimed_example = Run-IsTimed refl refl refl Run-queued

abbrev done : Action
done = record action { state = ActionState.succeeded }

abbrev plan : List Task
plan = task 2 TaskState.planned ∷ task 1 TaskState.running ∷ task 0 TaskState.completed ∷ []

abbrev failed_task : Task
failed_task = task 1 TaskState.failed

abbrev claimed_task : Task
claimed_task = record failed_task { state = TaskState.running; attempts = 2 }

claim_once : claim failed_task 3 ≡ ok claimed_task
unfolding claim transition allowed_transitions validate_task require_text task_terminal
claim_once = refl

Retries-le_example : 1 ≤ suc (3 - 1)
Retries-le_example =
    Retries-le {max_attempts = 3} {s = failed_task} {t = claimed_task} (claimed planned claim_once)
