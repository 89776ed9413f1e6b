-- ===== src/Examples/LifecycleCases.antt =====
-- Collecting a response, and recovering after a restart, tried.
use vuln_proof_claw.Common.{
  All, String, List, [], ◌∷◌, none, some, true, ◌≡◌, refl, ◌==◌, lookup, OnSome, if_split,
  string_eq, eq_iff, Option,
}
use vuln_proof_claw.Common.Results.{ok}
use vuln_proof_claw.Domain.Enums.{
  WorkerState, ActionState, ActionState-discrete, WorkerState-discrete, worker_terminal,
}
use vuln_proof_claw.Domain.Errors.{require_text, require_sha256}
use vuln_proof_claw.Domain.Models.{Action, validate_action}
use vuln_proof_claw.Persistence.{Stored, save_action, is_same_progress}
use vuln_proof_claw.Execution.Protocol.{ProtocolVersion, WorkerResponse, WorkerResultStatus}
use vuln_proof_claw.Execution.Manager.{WorkerHandle, Manages}
use vuln_proof_claw.Execution.Registry.{
  list_in_flight, WorkerExecution, validate_execution, save_execution, is_same_execution,
}
use vuln_proof_claw.Execution.Registry.InFlight.{RowsFit}
use vuln_proof_claw.Execution.Lifecycle.{
  Ledger, verify_response, save_handle, running_action, close_action, terminal_action_state,
  audit_destroyed, action_state_value, status_value,
}
use vuln_proof_claw.Execution.Lifecycle.Collect.{
  Persisted, rejected, collect, accept, with_capture, with_evidence, collected_payload,
}
use vuln_proof_claw.Execution.Lifecycle.Accepted.{Outcome, collect-Outcome}
use vuln_proof_claw.Execution.Lifecycle.GivenUp.{ActionsFit}
use vuln_proof_claw.Execution.Lifecycle.Recovery.{reconcile_after_restart}
use vuln_proof_claw.Execution.Lifecycle.Recovered.{HasLanded, IsClosed, reconcile_after_restart_lem}
use vuln_proof_claw.Execution.Audit.{AuditEvent, text, texts, flag, nothing, worker_state_value}
use vuln_proof_claw.Domain.ActionState.{transition_action, may_move, needs_approval, moved}
use vuln_proof_claw.Examples.{action, digest}
use vuln_proof_claw.Examples.ExecutionCases.{database_after}
use vuln_proof_claw.Execution.Janitor.Restart.{RuntimeRecovery, recover_runtime_after_restart}
use vuln_proof_claw.Execution.Janitor.Landed.{
  AllLanded, IsNotLive, recover_runtime_after_restart_lem,
}
use vuln_proof_claw.Examples.JanitorCases.{execution, env, resources}

abbrev row : Stored WorkerExecution
row = record { entity = execution; version = 2 }

abbrev ledger : Ledger String
ledger = record {
  database = database_after;
  executions = ("w1", row) ∷ [];
  evidence =
      (
        "v1",
        record {
          id = "v1";
          action_id = "a1";
          tool_name = "http";
          tool_version = "1";
          digest = digest;
          previous_digest = none;
          captured_at = 350;
        },
      )
      ∷ [];
  audit = [];
}

abbrev reported : WorkerResponse
reported = record {
  protocol_version = ProtocolVersion.v1;
  request_id = "r1";
  engagement_id = "e1";
  action_id = "a1";
  status = WorkerResultStatus.succeeded;
  started_at = 300;
  completed_at = 350;
  evidence_ids = "v1" ∷ [];
  artifact_ids = [];
  http_captures = [];
  exit_code = none;
  error_code = none;
}

abbrev handle : WorkerHandle
handle = record {
  worker_id = "w1";
  request_id = "r1";
  state = WorkerState.completed;
  created_at = 100;
  updated_at = some 360;
  cleaned_up = true;
  error_code = none;
}

-- No capture is persisted.
abbrev persist : WorkerResponse → Action → Ledger String → Persisted String
persist response a l = rejected l

abbrev succeeded_row : Stored Action
succeeded_row = record {
  entity = record action {
    state = ActionState.succeeded;
    approval_id = some "p1";
    started_at = some 300;
    completed_at = some 400;
  };
  version = 5;
}

abbrev completed_row : Stored WorkerExecution
completed_row = record {
  entity = record execution { state = WorkerState.completed; updated_at = 360; cleaned_up = true };
  version = 3;
}

abbrev events : List AuditEvent
events =
    record {
      engagement_id = "e1";
      event_type = "worker.collected";
      actor = "system:worker-manager";
      payload =
          ("worker_id", text "w1")
          ∷ ("reported_worker_status", text "succeeded")
          ∷ ("accepted_worker_status", text "succeeded")
          ∷ ("action_state", text "succeeded")
          ∷ ("error_code", nothing)
          ∷ ("evidence_ids", texts ("v1" ∷ []))
          ∷ [];
      created_at = 400;
    }
    ∷ record {
      engagement_id = "e1";
      event_type = "worker.destroyed";
      actor = "system:worker-manager";
      payload =
          ("worker_id", text "w1")
          ∷ ("worker_state", text "completed")
          ∷ ("cleaned_up", flag true)
          ∷ ("error_code", nothing)
          ∷ [];
      created_at = 400;
    }
    ∷ []

abbrev after : Ledger String
after = record {
  database = record database_after { actions = ("a1", succeeded_row) ∷ [] };
  executions = ("w1", completed_row) ∷ [];
  evidence = ledger.evidence;
  audit = events;
}

abbrev answered : Manages (Option WorkerResponse)
answered = ok (some reported)

collected : collect persist "w1" answered (some handle) 400 ledger ≡ ok (reported, after)
unfolding collect accept verify_response save_handle validate_execution require_text save_execution
    is_same_execution running_action with_capture with_evidence close_action transition_action
    may_move needs_approval moved validate_action require_sha256 save_action is_same_progress
    terminal_action_state audit_destroyed collected_payload action_state_value status_value
    worker_state_value ActionState-discrete WorkerState-discrete worker_terminal
collected = refl

collect-Outcome_example :
    (stored : Stored WorkerExecution) × (r : WorkerResponse) × (h : WorkerHandle) × (lookup "w1"
        ledger.executions
      ≡ some stored)
    × (answered ≡ ok (some r))
    × (some handle ≡ some h)
    × Outcome stored r h reported ledger after
collect-Outcome_example =
    collect-Outcome persist "w1" answered (some handle) 400 ledger {accepted = reported}
      {l' = after} collected

ledger-RowsFit : RowsFit ledger.executions
unfolding validate_execution require_text
ledger-RowsFit = ((((refl, refl), tt)), (refl, tt))

ledger-ActionsFit : ActionsFit ledger.database.actions
unfolding validate_action require_text require_sha256
ledger-ActionsFit k =
    if_split
      (OnSome (λ (x : Stored Action). (x.entity.id ≡ k) × (validate_action x.entity ≡ ok x.entity)))
      ("a1" == k) _ _ (λ same. ((eq_iff "a1" k).0 same, refl)) (λ _. tt)

reconcile_after_restart_lem_example :
    (es : List WorkerExecution) × (l' : Ledger String) × (reconcile_after_restart 500 ledger
      ≡ ok (es, l'))
    × ((k : String) → OnSome HasLanded (lookup k l'.executions))
    × All (IsClosed l') (list_in_flight ledger.executions)
    × ActionsFit l'.database.actions
reconcile_after_restart_lem_example =
    reconcile_after_restart_lem 500 ledger ledger-RowsFit ledger-ActionsFit

recover_runtime_after_restart_lem_example :
    (x : RuntimeRecovery String) × (recover_runtime_after_restart env 60 resources 500 ledger
      ≡ ok x)
    × All IsNotLive x.outcomes
    × AllLanded x.swept.rows
recover_runtime_after_restart_lem_example =
    recover_runtime_after_restart_lem env (λ reference rows landed. landed) 60 resources 500 ledger
      ledger-RowsFit ledger-ActionsFit
