-- ===== src/Examples/StartCases.antt =====
-- The start of a worker, tried.
use vuln_proof_claw.Common.{map, ℕ, String, [], ◌∷◌, none, some, false, ◌≡◌, refl, option_eq}
use vuln_proof_claw.Common.Unicode.{ascii}
use vuln_proof_claw.Common.Results.{ok, err}
use vuln_proof_claw.Domain.Enums.{RiskLevel, RiskLevel-discrete, WorkerState}
use vuln_proof_claw.Policy.Scope.{EngagementScope}
use vuln_proof_claw.Execution.Protocol.{
  ProtocolVersion, WorkerRequest, WorkerScope, is_same_scope, Validates,
}
use vuln_proof_claw.Execution.Manager.{WorkerHandle, manager_error}
use vuln_proof_claw.Execution.Lifecycle.{
  Ledger, lifecycle, save_handle, audit_destroyed, close_action,
}
use vuln_proof_claw.Execution.Audit.{AuditEvent}
use vuln_proof_claw.Persistence.{Stored}
use vuln_proof_claw.Domain.Models.{Action}
use vuln_proof_claw.Domain.Enums.{ActionState}
use vuln_proof_claw.Execution.Lifecycle.Start.{
  ManagerAnswers, to_submit, to_start, to_cancel, start, begin_failed, start_failed, manager_code,
  prepare, verify_request, is_bound_to, after_prepare, after_submit, after_register, register,
  after_begin, after_start,
}
use vuln_proof_claw.Execution.Registry.{
  get_for_action, get_for_request, find_row, validate_execution, add_execution, save_execution,
}
use vuln_proof_claw.Examples.{digest, no_addresses, read_target}
use vuln_proof_claw.Examples.ExecutionCases.{ready, queued_row}
use vuln_proof_claw.Domain.Errors.{require_text, require_sha256}
use vuln_proof_claw.Domain.Models.{validate_action, validate_approval_record, authorizes}
use vuln_proof_claw.Domain.ActionState.{transition_action, may_move, needs_approval, moved}
use vuln_proof_claw.Policy.Approval.{consume_approval, validate_approval}
use vuln_proof_claw.Persistence.{save_action, save_approval, is_same_progress}
use vuln_proof_claw.Execution.Authorization.{begin_execution, consume_bound, begin_left}
use mathlib.Core.List.{flat_map}
use vuln_proof_claw.Common.{is_space, false}
use vuln_proof_claw.Domain.Enums.{requires_approval, ActionState-discrete}
use vuln_proof_claw.Policy.Risk.{
  classify_risk, normalize_action_type, is_permanently_denied, strip, squeeze, is_separator,
  risk_of_name,
}
use vuln_proof_claw.Policy.Decision.{
  decide_action, risk_rank, verdict, approval_verdict, approval_needed,
}
use vuln_proof_claw.Policy.Scope.{
  evaluate_scope, evaluate_scope_text, deny_reason, host_allowed, in_networks, is_ip, path_matches,
  wildcard_matches, target_text, authority, decimal_digits,
}
use vuln_proof_claw.Execution.Authorization.{
  authorize_queued_action, find_engagement, find_approval,
}

-- The scope that a worker is given here names no network.
abbrev worker_scope : EngagementScope String → Validates WorkerScope
worker_scope s = ok (record {
  allowed_hostnames = s.allowed_hostnames;
  allowed_cidrs = [];
  allowed_ports = s.allowed_ports;
  allowed_schemes = s.allowed_schemes;
  allowed_paths = s.allowed_paths;
  denied_hostnames = s.denied_hostnames;
  denied_cidrs = [];
  denied_paths = s.denied_paths;
  allowed_wildcards = s.allowed_wildcards;
  denied_wildcards = s.denied_wildcards;
})

abbrev request : WorkerRequest ℕ
request = record {
  protocol_version = ProtocolVersion.v1;
  request_id = "r1";
  engagement_id = "e1";
  action_id = "a1";
  action_type = "vulnerability_scan";
  normalized_target = "https://example.com:443/";
  parameter_digest = digest;
  risk_level = RiskLevel.l2;
  approval_id = some "p1";
  idempotency_key = "k1";
  capabilities = "http_client" ∷ [];
  http_action = none;
  scope = record {
    allowed_hostnames = "example.com" ∷ [];
    allowed_cidrs = [];
    allowed_ports = 443 ∷ [];
    allowed_schemes = "https" ∷ [];
    allowed_paths = "/" ∷ [];
    denied_hostnames = [];
    denied_cidrs = [];
    denied_paths = "/admin" ∷ [];
    allowed_wildcards = [];
    denied_wildcards = [];
  };
  limits = record {
    timeout_seconds = 30;
    memory_megabytes = 256;
    cpu_count = 1;
    process_limit = 16;
  };
}

abbrev handle : WorkerHandle
handle = record {
  worker_id = "w1";
  request_id = "r1";
  state = WorkerState.starting;
  created_at = 300;
  updated_at = none;
  cleaned_up = false;
  error_code = none;
}

abbrev answers : ManagerAnswers
answers = record {
  runtime_identity = "docker";
  submits = ok handle;
  cancels = ok handle;
  starts = ok (record handle { state = WorkerState.running; updated_at = some 310 });
  status = none;
}

abbrev ledger : Ledger String
ledger = record { database = ready; executions = []; evidence = []; audit = [] }

start_calls :
    (start ascii no_addresses read_target worker_scope request answers
      (λ l. l)
      "operator"
      300
      ledger).calls
    ≡ to_submit ∷ to_start "w1" ∷ []
unfolding start prepare verify_request is_bound_to is_same_scope authorize_queued_action
    find_engagement find_approval decide_action evaluate_scope_text evaluate_scope deny_reason
    host_allowed in_networks is_ip path_matches wildcard_matches target_text authority
    decimal_digits classify_risk is_permanently_denied normalize_action_type strip squeeze
    is_separator risk_of_name is_space verdict approval_verdict approval_needed risk_rank
    RiskLevel-discrete requires_approval validate_approval authorizes flat_map ActionState-discrete
    get_for_action get_for_request find_row after_prepare after_submit after_register register
    validate_execution require_text add_execution after_begin begin_execution transition_action
    may_move needs_approval moved validate_action require_sha256 save_action is_same_progress
    consume_bound consume_approval validate_approval_record save_approval after_start
start_calls = refl

-- An action that is created after the time of the start, so that it cannot begin to run.
abbrev too_early : Ledger String
too_early = record ledger {
  database = record ready {
    actions =
        ("a1", record queued_row { entity = record (queued_row.entity) { created_at = 350 } }) ∷ [];
  };
}

-- The worker that was created is cancelled, which is recorded although `start` raises.
start_refused :
    let x =
      start ascii no_addresses read_target worker_scope request answers
        (λ l. l)
        "operator"
        300
        too_early in
    (x.calls ≡ to_submit ∷ to_cancel "w1" ∷ [])
    × (map (λ (e : AuditEvent). e.event_type) x.ended.0.audit
        ≡ "worker.created" ∷ "worker.destroyed" ∷ [])
    × (x.ended.0.database ≡ too_early.database)
unfolding start prepare verify_request is_bound_to is_same_scope authorize_queued_action
    find_engagement find_approval decide_action evaluate_scope_text evaluate_scope deny_reason
    host_allowed in_networks is_ip path_matches wildcard_matches target_text authority
    decimal_digits classify_risk is_permanently_denied normalize_action_type strip squeeze
    is_separator risk_of_name is_space verdict approval_verdict approval_needed risk_rank
    RiskLevel-discrete requires_approval validate_approval authorizes flat_map ActionState-discrete
    get_for_action get_for_request find_row after_prepare after_submit after_register register
    validate_execution require_text add_execution after_begin begin_execution transition_action
    may_move needs_approval moved validate_action require_sha256 save_action is_same_progress
    consume_bound consume_approval validate_approval_record save_approval after_start begin_failed
    begin_left save_handle save_execution audit_destroyed start_failed close_action manager_code
start_refused = (refl, refl, refl)

-- The manager cannot start the worker, and no longer knows it.
abbrev unaccounted : ManagerAnswers
unaccounted = record answers { starts = err (manager_error "worker_start_failed") }

start_unaccounted :
    let x =
      start ascii no_addresses read_target worker_scope request unaccounted
        (λ l. l)
        "operator"
        300
        ledger in
    (x.ended.1 ≡ err (lifecycle "worker_start_failed"))
    × (map (λ (e : AuditEvent). e.event_type) x.ended.0.audit
        ≡ "worker.created" ∷ "worker.start_failed" ∷ [])
    × (map (λ (row : String × Stored Action). row.1.entity.state) x.ended.0.database.actions
        ≡ ActionState.worker_lost ∷ [])
unfolding start prepare verify_request is_bound_to is_same_scope authorize_queued_action
    find_engagement find_approval decide_action evaluate_scope_text evaluate_scope deny_reason
    host_allowed in_networks is_ip path_matches wildcard_matches target_text authority
    decimal_digits classify_risk is_permanently_denied normalize_action_type strip squeeze
    is_separator risk_of_name is_space verdict approval_verdict approval_needed risk_rank
    RiskLevel-discrete requires_approval validate_approval authorizes flat_map ActionState-discrete
    get_for_action get_for_request find_row after_prepare after_submit after_register register
    validate_execution require_text add_execution after_begin begin_execution transition_action
    may_move needs_approval moved validate_action require_sha256 save_action is_same_progress
    consume_bound consume_approval validate_approval_record save_approval after_start begin_failed
    begin_left save_handle save_execution audit_destroyed start_failed close_action manager_code
start_unaccounted = (refl, refl, refl)
