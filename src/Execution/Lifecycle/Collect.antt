-- ===== src/Execution/Lifecycle/Collect.antt =====
-- `collect` of execution/lifecycle.py: one response is accepted or turned into a failure, and the action
-- is closed by it.
use vuln_proof_claw.Common.{
  Bool, false, not, ◌&&◌, Option, none, some, List, [], ◌∷◌, String, ◌==◌, all, is_empty, lookup,
  if◌then◌else◌, string_eq,
}
use vuln_proof_claw.Common.Results.{ok, err, ◌>>=◌, ◌>>◌}
use vuln_proof_claw.Domain.Enums.{ActionState, ActionState-discrete, action_state_eq}
use vuln_proof_claw.Domain.Errors.{Time}
use vuln_proof_claw.Domain.Models.{Action}
use vuln_proof_claw.Persistence.{Stored}
use vuln_proof_claw.Execution.Audit.{AuditValue, text, texts, optional_text}
use vuln_proof_claw.Execution.Protocol.{
  ProtocolVersion, WorkerResponse, Validates, validate_response,
}
use vuln_proof_claw.Execution.Manager.{WorkerHandle, Manages}
use vuln_proof_claw.Execution.Registry.{WorkerExecution}
use vuln_proof_claw.Execution.Lifecycle.{
  Ledger, Evidence, Coordinates, LifecycleError, or_lifecycle, raised_as, protocol, manager,
  terminal_action_state, action_state_value, status_value, failed_response, verify_response, audit,
  audit_destroyed, save_handle, running_action, close_action,
}

-- What `_persist_http_capture` does up to the response that it builds: it persists the evidence under a
-- new identifier, or raises an error that `collect` catches, or another one; the first two leave the
-- ledger as they say.
pub data Persisted (Network : Type 0) : Type 0 where
  persisted : (evidence_id : String) → Ledger Network → Persisted Network
  rejected : Ledger Network → Persisted Network
  aborted : LifecycleError → Persisted Network

-- The response that is accepted so far, the state that it closes the action in, and the error code.
pub record Closing (Network : Type 0) : Type 0 where
  pub response : WorkerResponse
  pub target : ActionState
  pub error_code : Option String
  pub ledger : Ledger Network

-- The response that `_persist_http_capture` builds, which names the evidence in place of the capture.
unfoldable pub captured_response : WorkerResponse → String → Validates WorkerResponse
captured_response r evidence_id = validate_response (record {
  protocol_version = ProtocolVersion.v1;
  request_id = r.request_id;
  engagement_id = r.engagement_id;
  action_id = r.action_id;
  status = r.status;
  started_at = r.started_at;
  completed_at = r.completed_at;
  evidence_ids = evidence_id ∷ [];
  artifact_ids = r.artifact_ids;
  http_captures = [];
  exit_code = r.exit_code;
  error_code = none;
})

-- `_evidence_belongs_to_action`, for one identifier.
abbrev pub belongs : List (String × Evidence) → String → String → Bool
belongs rows action_id evidence_id = elim (lookup evidence_id rows) [
  | none ↦ false
  | some e ↦ e.action_id == action_id
]

module _ {Network : Type 0} where
  -- The response is turned into a failure.
  unfoldable pub fail_with :
      WorkerResponse → String → Ledger Network → Coordinates (Closing Network)
  fail_with r code l = do
    failed ← raised_as protocol (failed_response r code)
    ok (record {
      response = failed;
      target = ActionState.failed;
      error_code = some code;
      ledger = l;
    })

  -- With the response built, or the error of its construction caught.
  unfoldable pub accept_capture :
      Closing Network → Ledger Network → Validates WorkerResponse → Coordinates (Closing Network)
  accept_capture c l (ok r) = ok (record c { response = r; ledger = l })
  accept_capture c l (err _) = fail_with c.response "worker_capture_binding_invalid" l

  unfoldable pub after_persist : Closing Network → Persisted Network → Coordinates (Closing Network)
  unfolding captured_response
  after_persist c (persisted evidence_id l) =
      accept_capture c l (captured_response c.response evidence_id)
  after_persist c (rejected l) = fail_with c.response "worker_capture_binding_invalid" l
  after_persist c (aborted e) = err e

  -- The capture of a success is persisted.
  unfoldable pub with_capture :
      (WorkerResponse → Action → Ledger Network → Persisted Network)
      → Action
      → Closing Network
      → Coordinates (Closing Network)
  unfolding ActionState-discrete
  with_capture persist a c =
      if c.target == ActionState.succeeded && not (is_empty c.response.http_captures)
      then after_persist c (persist c.response a c.ledger)
      else ok c

  -- A success must name evidence of its action.
  unfoldable pub with_evidence : Closing Network → Coordinates (Closing Network)
  unfolding ActionState-discrete
  with_evidence c =
      if c.target == ActionState.succeeded
        && not (all (belongs c.ledger.evidence c.response.action_id) c.response.evidence_ids)
      then fail_with c.response "worker_evidence_binding_invalid" c.ledger
      else ok c

  -- The event that `collect` records.
  unfoldable pub collected_payload :
      String → WorkerResponse → Closing Network → List (String × AuditValue)
  collected_payload worker_id reported c =
      ("worker_id", text worker_id)
      ∷ ("reported_worker_status", text (status_value reported.status))
      ∷ ("accepted_worker_status", text (status_value c.response.status))
      ∷ ("action_state", text (action_state_value c.target))
      ∷ ("error_code", optional_text c.error_code)
      ∷ ("evidence_ids", texts c.response.evidence_ids)
      ∷ []

  module _ (persist : WorkerResponse → Action → Ledger Network → Persisted Network) where
    -- `collect`, from where the manager gave the response and the handle.
    unfoldable pub accept :
        String
        → Stored WorkerExecution
        → WorkerResponse
        → WorkerHandle
        → Time
        → Ledger Network
        → Coordinates (WorkerResponse × Ledger Network)
    unfolding audit_destroyed collected_payload
    accept worker_id stored r h at l = do
      verify_response r stored.entity
      saved ← save_handle stored h at l
      action ← running_action stored.entity.action_id saved
      captured ← with_capture persist action.entity (record {
        response = r;
        target = terminal_action_state r.status h.state;
        error_code = r.error_code;
        ledger = saved;
      })
      c ← with_evidence captured
      closed ← close_action action c.target at c.ledger
      let audited =
          audit c.response.engagement_id "worker.collected" "system:worker-manager"
            (collected_payload worker_id r c) at closed
      ok (c.response, audit_destroyed c.response.engagement_id h at audited)

    -- `collect`, where the manager's `collect` and `status` give these.
    unfoldable pub collect :
        String
        → Manages (Option WorkerResponse)
        → Option WorkerHandle
        → Time
        → Ledger Network
        → Coordinates (WorkerResponse × Ledger Network)
    collect worker_id collected status at l = do
      stored ← or_lifecycle (lookup worker_id l.executions) "worker_action_binding_not_found"
      answer ← raised_as manager collected
      r ← or_lifecycle answer "worker_terminal_response_missing"
      h ← or_lifecycle status "worker_terminal_response_missing"
      accept worker_id stored r h at l
