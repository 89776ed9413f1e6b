-- ===== src/Execution/Lifecycle.antt =====
-- execution/lifecycle.py: ActionWorkerCoordinator, which closes an action by what became of its worker.
-- What the manager gives is an argument. A call that raises is rolled back; only of `start` it is said
-- what the session holds where it raises.
pub mod Collect
pub mod Closed
pub mod Passing
pub mod Accepted
pub mod Start
pub mod Prepared
pub mod Unspent
pub mod Launch
pub mod Recovery
pub mod GivenUp
pub mod Recovered
use vuln_proof_claw.Common.{
  ℕ, Bool, true, false, not, ◌&&◌, Option, none, some, List, [], ◌∷◌, ◌++◌, String, ◌==◌, all,
  is_empty, max, lookup, or_else, if◌then◌else◌, string_eq,
}
use vuln_proof_claw.Common.Results.{Result, ok, err, raise_if, ◌>>=◌, ◌>>◌}
use vuln_proof_claw.Domain.Enums.{
  ActionState, ActionState-discrete, action_state_eq, WorkerState, WorkerState-discrete,
  worker_state_eq,
}
use vuln_proof_claw.Domain.Errors.{Time, Error, Raises}
use vuln_proof_claw.Domain.Models.{Action}
use vuln_proof_claw.Domain.ActionState.{transition_action}
use vuln_proof_claw.Persistence.{Stored, Database, StoreError, save_action}
use vuln_proof_claw.Execution.Audit.{
  AuditEvent, AuditValue, text, flag, texts, optional_text, worker_state_value, record_audit_event,
}
use vuln_proof_claw.Execution.Protocol.{
  ProtocolVersion, WorkerResponse, WorkerResultStatus, ProtocolError, Validates, validate_response,
}
use vuln_proof_claw.Execution.Manager.{WorkerHandle, ManagerError, Manages}
use vuln_proof_claw.Execution.Registry.{
  WorkerExecution, Rows, validate_execution, save_execution, list_in_flight,
}

pub data LifecycleError : Type 0 where
  -- WorkerLifecycleError
  lifecycle : (code : String) → LifecycleError
  domain : Error → LifecycleError
  store : StoreError → LifecycleError
  protocol : ProtocolError → LifecycleError
  manager : ManagerError → LifecycleError
  -- IntegrityError of the database library
  integrity_error : LifecycleError

abbrev pub Coordinates : Type 0 → Type 0
Coordinates A = Result LifecycleError A

abbrev pub raised_as : {D A : Type 0} → (D → LifecycleError) → Result D A → Coordinates A
raised_as as_error (ok a) = ok a
raised_as as_error (err e) = err (as_error e)

abbrev pub or_lifecycle : {A : Type 0} → Option A → String → Coordinates A
or_lifecycle (some a) code = ok a
or_lifecycle none code = err (lifecycle code)

-- Evidence of domain/models.py
pub record Evidence : Type 0 where
  pub id : String
  pub action_id : String
  pub tool_name : String
  pub tool_version : String
  pub digest : String
  pub previous_digest : Option String
  pub captured_at : Time

-- What the coordinator's session reads and writes.
pub record Ledger (Network : Type 0) : Type 0 where
  pub database : Database Network
  pub executions : Rows
  pub evidence : List (String × Evidence)
  pub audit : List AuditEvent

-- `_terminal_action_state`
unfoldable pub terminal_action_state : WorkerResultStatus → WorkerState → ActionState
unfolding WorkerState-discrete
terminal_action_state status state =
    if state == WorkerState.lost then ActionState.worker_lost else elim status [
      | WorkerResultStatus.succeeded ↦ ActionState.succeeded
      | WorkerResultStatus.failed ↦ ActionState.failed
      | WorkerResultStatus.timed_out ↦ ActionState.timed_out
      | WorkerResultStatus.cancelled ↦ ActionState.cancelled
      | WorkerResultStatus.policy_denied ↦ ActionState.failed
      | WorkerResultStatus.worker_error ↦ ActionState.worker_lost
    ]

-- `ActionState.value`
unfoldable pub action_state_value : ActionState → String
action_state_value ActionState.proposed = "proposed"
action_state_value ActionState.policy_check = "policy_check"
action_state_value ActionState.denied = "denied"
action_state_value ActionState.pending_approval = "pending_approval"
action_state_value ActionState.queued = "queued"
action_state_value ActionState.running = "running"
action_state_value ActionState.succeeded = "succeeded"
action_state_value ActionState.failed = "failed"
action_state_value ActionState.timed_out = "timed_out"
action_state_value ActionState.cancelled = "cancelled"
action_state_value ActionState.worker_lost = "worker_lost"

-- `WorkerResultStatus.value`
unfoldable pub status_value : WorkerResultStatus → String
status_value WorkerResultStatus.succeeded = "succeeded"
status_value WorkerResultStatus.failed = "failed"
status_value WorkerResultStatus.timed_out = "timed_out"
status_value WorkerResultStatus.cancelled = "cancelled"
status_value WorkerResultStatus.policy_denied = "policy_denied"
status_value WorkerResultStatus.worker_error = "worker_error"

-- `_failure_response`
unfoldable pub failed_response : WorkerResponse → String → Validates WorkerResponse
failed_response r code = validate_response (record {
  protocol_version = ProtocolVersion.v1;
  request_id = r.request_id;
  engagement_id = r.engagement_id;
  action_id = r.action_id;
  status = WorkerResultStatus.failed;
  started_at = r.started_at;
  completed_at = r.completed_at;
  evidence_ids = [];
  artifact_ids = [];
  http_captures = [];
  exit_code = r.exit_code;
  error_code = some code;
})

-- `_verify_response`
unfoldable pub verify_response : WorkerResponse → WorkerExecution → Coordinates (Unit {0})
verify_response r e =
    raise_if
      (not (
        r.request_id == e.request_id
        && r.engagement_id == e.engagement_id
        && r.action_id == e.action_id))
      (lifecycle "worker_response_registry_binding_mismatch")

-- The handle is of the execution's worker and request.
abbrev pub is_of : WorkerHandle → WorkerExecution → Bool
is_of h e = h.worker_id == e.id && h.request_id == e.request_id

-- The execution with what the handle says.
abbrev pub handled : WorkerExecution → WorkerHandle → Time → WorkerExecution
handled e h at = record e {
  state = h.state;
  cleaned_up = h.cleaned_up;
  error_code = h.error_code;
  updated_at = or_else h.updated_at at;
}

module _ {Network : Type 0} where
  abbrev pub audit :
      String → String → String → List (String × AuditValue) → Time → Ledger Network → Ledger Network
  audit engagement_id event_type actor payload at l = record l {
    audit = record_audit_event engagement_id event_type actor payload at l.audit;
  }

  -- `_audit_destroyed`
  unfoldable pub audit_destroyed : String → WorkerHandle → Time → Ledger Network → Ledger Network
  audit_destroyed engagement_id h at l =
      audit engagement_id "worker.destroyed" "system:worker-manager"
        (("worker_id", text h.worker_id)
          ∷ ("worker_state", text (worker_state_value h.state))
          ∷ ("cleaned_up", flag h.cleaned_up)
          ∷ ("error_code", optional_text h.error_code)
          ∷ [])
        at l

  -- `_save_execution`
  unfoldable pub save_handle :
      Stored WorkerExecution → WorkerHandle → Time → Ledger Network → Coordinates (Ledger Network)
  save_handle stored h at l = do
    raise_if (not (is_of h stored.entity)) (lifecycle "worker_handle_registry_binding_mismatch")
    updated ← raised_as domain (validate_execution (handled stored.entity h at))
    saved ← raised_as store (save_execution updated stored.version l.executions)
    ok (record l { executions = saved.1 })

  -- The action of an execution, which must be running.
  unfoldable pub running_action : String → Ledger Network → Coordinates (Stored Action)
  unfolding ActionState-discrete
  running_action action_id l = do
    stored ← or_lifecycle (lookup action_id l.database.actions) "action_not_running"
    raise_if (not (stored.entity.state == ActionState.running)) (lifecycle "action_not_running")
    ok stored

  -- `transition_action`, and the save of its result.
  unfoldable pub close_action :
      Stored Action → ActionState → Time → Ledger Network → Coordinates (Ledger Network)
  close_action stored target at l = do
    terminal ← raised_as domain (transition_action stored.entity target none (some at) at)
    saved ← raised_as store (save_action terminal stored.version l.database)
    ok (record l { database = saved.1 })

  -- `cancel`, where the manager gives a handle or raises.
  unfoldable pub cancel :
      String
      → Manages WorkerHandle
      → String
      → Time
      → Ledger Network
      → Coordinates (WorkerHandle × Ledger Network)
  unfolding WorkerState-discrete audit_destroyed
  cancel worker_id cancelled actor at l = do
    stored ← or_lifecycle (lookup worker_id l.executions) "worker_action_binding_not_found"
    action ← running_action stored.entity.action_id l
    h ← raised_as manager cancelled
    saved ← save_handle stored h at l
    let target =
        if h.state == WorkerState.lost then ActionState.worker_lost else ActionState.cancelled
    closed ← close_action action target at saved
    let audited =
        audit action.entity.engagement_id "worker.cancelled" actor
          (("worker_id", text worker_id) ∷ ("action_state", text (action_state_value target)) ∷ [])
          at closed
    ok (h, audit_destroyed action.entity.engagement_id h at audited)
