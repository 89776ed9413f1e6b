-- ===== src/Domain/Plan.antt =====
-- domain/plan.py: where an interrupted run goes on, and how often a step is tried.
pub mod Order
pub mod Resume
pub mod Attempts
use Prim.Native.String.{◌++◌ as str_append}
use vuln_proof_claw.Common.{
  ℕ, ◌+◌, Bool, true, false, not, Option, none, some, List, [], ◌∷◌, ◌==◌, contains, all, length,
  ltb, leb, if◌then◌else◌, nat_eq, String, str_leb,
}
use vuln_proof_claw.Common.Results.{ok, ◌>>◌}
use vuln_proof_claw.Domain.Enums.{
  TaskState, TaskState-discrete, task_state_eq, task_terminal, resumable,
}
use vuln_proof_claw.Domain.Errors.{Raises, refuse_if}
use vuln_proof_claw.Domain.Models.{Task, validate_task}

-- `DEFAULT_MAX_ATTEMPTS`
abbrev pub default_max_attempts : ℕ
default_max_attempts = 3

-- `TaskState.value`
unfoldable pub task_state_value : TaskState → String
task_state_value TaskState.planned = "planned"
task_state_value TaskState.running = "running"
task_state_value TaskState.completed = "completed"
task_state_value TaskState.failed = "failed"
task_state_value TaskState.abandoned = "abandoned"

-- `_ALLOWED_TRANSITIONS`
unfoldable pub allowed_transitions : TaskState → List TaskState
allowed_transitions TaskState.planned = TaskState.running ∷ TaskState.abandoned ∷ []
allowed_transitions TaskState.running =
    TaskState.completed ∷ TaskState.failed ∷ TaskState.abandoned ∷ []
allowed_transitions TaskState.failed = TaskState.running ∷ TaskState.abandoned ∷ []
allowed_transitions TaskState.completed = []
allowed_transitions TaskState.abandoned = []

-- `a <= b` on the keys `(sequence, created_at, id)`.
unfoldable pub key_leb : Task → Task → Bool
unfolding str_leb
key_leb a b =
    if a.sequence == b.sequence
    then if a.created_at == b.created_at then str_leb a.id b.id else ltb a.created_at b.created_at
    else ltb a.sequence b.sequence

-- A task goes in front of the later ones of the same key, so the sort is stable, as `sorted` is.
unfoldable pub insert_task : Task → List Task → List Task
insert_task t [] = t ∷ []
insert_task t (u ∷ us) = if key_leb t u then t ∷ u ∷ us else u ∷ insert_task t us

unfoldable pub ordered : List Task → List Task
ordered [] = []
ordered (t ∷ ts) = insert_task t (ordered ts)

-- The loop of `resume_point`.
unfoldable pub first_resumable : List Task → Option Task
first_resumable [] = none
first_resumable (t ∷ ts) = if resumable t.state then some t else first_resumable ts

unfoldable pub resume_point : List Task → Option Task
resume_point tasks = first_resumable (ordered tasks)

unfoldable pub is_complete : List Task → Bool
is_complete tasks = all (λ t. task_terminal t.state) tasks

unfoldable pub completed_count : List Task → ℕ
unfolding TaskState-discrete
completed_count [] = 0
completed_count (t ∷ ts) = (if t.state == TaskState.completed then 1 else 0) + completed_count ts

unfoldable pub progress : List Task → ℕ × ℕ
progress tasks = (completed_count tasks, length tasks)

unfoldable pub transition : Task → TaskState → Raises Task
unfolding TaskState-discrete
transition t state = do
  refuse_if (not (contains (allowed_transitions t.state) state)) (
      str_append "task cannot move from "
        (str_append (task_state_value t.state) (str_append " to " (task_state_value state))))
  if state == TaskState.running
      then validate_task (record t { state = state; attempts = t.attempts + 1 })
      else validate_task (record t { state = state })

unfoldable pub claim : Task → ℕ → Raises Task
unfolding TaskState-discrete
claim t max_attempts = do
  refuse_if (ltb max_attempts 1) "max_attempts must be at least 1"
  refuse_if (task_terminal t.state) "a terminal task cannot be claimed"
  if leb max_attempts t.attempts
      then validate_task (record t { state = TaskState.abandoned })
      else if t.state == TaskState.running
      then validate_task (record t { attempts = t.attempts + 1 })
      else transition t TaskState.running
