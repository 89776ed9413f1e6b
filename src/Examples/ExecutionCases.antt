-- ===== src/Examples/ExecutionCases.antt =====
-- The start of an execution, tried.
use vuln_proof_claw.Common.{true, ◌≡◌, ◌≢◌, refl, some, [], ◌∷◌, String}
use vuln_proof_claw.Common.Results.{ok}
use vuln_proof_claw.Domain.Enums.{RiskLevel, RiskLevel-discrete, ActionState}
use vuln_proof_claw.Domain.Errors.{require_text, require_sha256}
use vuln_proof_claw.Domain.Models.{
  Action, Approval, validate_action, validate_approval_record, authorizes,
}
use vuln_proof_claw.Domain.ActionState.{transition_action, may_move, needs_approval, moved}
use vuln_proof_claw.Policy.Approval.{consume_approval, validate_approval, used}
use vuln_proof_claw.Policy.Decision.{DecisionKind}
use vuln_proof_claw.Persistence.{Stored, Database, save_action, save_approval, is_same_progress}
use vuln_proof_claw.Execution.Authorization.{ExecutionAuthorization, begin_execution, consume_bound}
use vuln_proof_claw.Execution.Authorization.Once.{
  Started, begin_execution-Started, begin_execution-once,
}
use mathlib.Core.List.{flat_map}
use vuln_proof_claw.Common.{is_space, false}
use vuln_proof_claw.Common.Unicode.{ascii}
use vuln_proof_claw.Domain.Enums.{requires_approval, ActionState-discrete}
use vuln_proof_claw.Domain.Models.{Engagement}
use vuln_proof_claw.Policy.Risk.{
  classify_risk, normalize_action_type, is_permanently_denied, strip, squeeze, is_separator,
  risk_of_name,
}
use vuln_proof_claw.Policy.Decision.{
  decide_action, risk_rank, verdict, approval_verdict, approval_needed,
}
use vuln_proof_claw.Policy.Scope.{
  evaluate_scope, evaluate_scope_text, deny_reason, host_allowed, in_networks, is_ip, path_matches,
  wildcard_matches, target_text, authority, decimal_digits,
}
use vuln_proof_claw.Execution.Authorization.{
  authorize_queued_action, find_engagement, find_approval,
}
use vuln_proof_claw.Execution.Authorization.Recheck.{Rechecked, authorize_queued_action-Rechecked}
use vuln_proof_claw.Examples.{read_target, no_addresses, scope}
use vuln_proof_claw.Examples.{action, approval, target}

abbrev pub queued_row : Stored Action
queued_row = record {
  entity = record action { state = ActionState.queued; approval_id = some "p1" };
  version = 3;
}

abbrev pub approval_row : Stored Approval
approval_row = record { entity = approval; version = 1 }

abbrev pub database : Database String
database = record {
  engagements = [];
  scopes = [];
  approvals = ("p1", approval_row) ∷ [];
  actions = ("a1", queued_row) ∷ [];
}

abbrev pub authorization : ExecutionAuthorization
authorization = record {
  action = queued_row;
  approval = some approval_row;
  decision = record {
    kind = DecisionKind.allow;
    reason = "valid_approval";
    risk_level = RiskLevel.l2;
    target = target;
    requires_dns_recheck = true;
    approval_id = some "p1";
  };
}

abbrev pub running_row : Stored Action
running_row = record {
  entity = record action {
    state = ActionState.running;
    approval_id = some "p1";
    started_at = some 300;
  };
  version = 4;
}

abbrev pub database_after : Database String
database_after = record database {
  approvals = ("p1", record { entity = used approval; version = 2 }) ∷ [];
  actions = ("a1", running_row) ∷ [];
}

begun : begin_execution authorization 300 database ≡ ok (running_row, database_after)
unfolding begin_execution transition_action may_move needs_approval moved validate_action
    require_text require_sha256 save_action is_same_progress consume_bound consume_approval
    validate_approval authorizes RiskLevel-discrete validate_approval_record save_approval
begun = refl

begin_execution-Started_example : Started authorization 300 database running_row database_after
begin_execution-Started_example =
    begin_execution-Started authorization 300 database {s = running_row} {db' = database_after} refl
      begun

begin_execution-once_example :
    begin_execution authorization 400 database_after ≢ ok (running_row, database)
begin_execution-once_example =
    begin_execution-once authorization 300 database {s = running_row} {db' = database_after}
      authorization 400 refl begun refl (running_row, database)

abbrev pub engagement : Engagement
engagement = record {
  project_id = "j1";
  name = "spring";
  starts_at = 100;
  ends_at = 1000;
  maximum_risk = RiskLevel.l3;
  auto_execute_l1 = false;
  destructive_actions_enabled = false;
  id = "e1";
  created_at = 100;
}

abbrev pub ready : Database String
ready = record database {
  engagements = ("e1", record { entity = engagement; version = 1 }) ∷ [];
  scopes = ("e1", scope) ∷ [];
}

pub rechecked :
    authorize_queued_action ascii no_addresses read_target queued_row 300 ready ≡ ok authorization
unfolding authorize_queued_action find_engagement find_approval decide_action evaluate_scope_text
    evaluate_scope deny_reason host_allowed in_networks is_ip path_matches wildcard_matches
    target_text authority decimal_digits classify_risk is_permanently_denied normalize_action_type
    strip squeeze is_separator risk_of_name is_space verdict approval_verdict approval_needed
    risk_rank RiskLevel-discrete requires_approval validate_approval authorizes flat_map
    ActionState-discrete
rechecked = refl

authorize_queued_action-Rechecked_example :
    Rechecked ascii no_addresses read_target queued_row 300 ready authorization
authorize_queued_action-Rechecked_example =
    authorize_queued_action-Rechecked ascii no_addresses read_target queued_row 300 ready
      {auth = authorization} rechecked
