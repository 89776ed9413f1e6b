-- ===== src/Examples/SpendingCases.antt =====
-- The executions that an approval permits, tried.
use vuln_proof_claw.Common.{
  ◌+◌, ◌≤◌, ◌≡◌, refl, some, String, arith, Bool-cases, inl, inr, ◌==◌, eq_iff, string_eq, subst,
  sym, if◌then◌else◌, none,
}
use vuln_proof_claw.Common.Unicode.{ascii}
use vuln_proof_claw.Common.Results.{ok}
use vuln_proof_claw.Domain.Enums.{RiskLevel-discrete}
use vuln_proof_claw.Domain.Errors.{require_text, require_sha256}
use vuln_proof_claw.Domain.Models.{validate_action, validate_approval_record, authorizes}
use vuln_proof_claw.Domain.ActionState.{transition_action, may_move, needs_approval, moved}
use vuln_proof_claw.Policy.Approval.{consume_approval, validate_approval}
use vuln_proof_claw.Persistence.{Database, save_action, save_approval, is_same_progress}
use vuln_proof_claw.Execution.Authorization.{begin_execution, consume_bound}
use vuln_proof_claw.Execution.Authorization.Spending.{IsKeyed, HasKeys}
use vuln_proof_claw.Execution.Authorization.Executions.{Execution, Executions, Executions-le}
use vuln_proof_claw.Examples.{read_target, no_addresses}
use vuln_proof_claw.Examples.ExecutionCases.{
  queued_row, approval_row, authorization, running_row, database_after, ready, rechecked,
}

abbrev ready_after : Database String
ready_after = record ready {
  approvals = database_after.approvals;
  actions = database_after.actions;
}

begun_ready : begin_execution authorization 300 ready ≡ ok (running_row, ready_after)
unfolding begin_execution transition_action may_move needs_approval moved validate_action
    require_text require_sha256 save_action is_same_progress consume_bound consume_approval
    validate_approval authorizes RiskLevel-discrete validate_approval_record save_approval
begun_ready = refl

ready-HasKeys : HasKeys ready
ready-HasKeys k = elim (Bool-cases ("p1" == k)) [
  | inl same ↦
      subst (λ b. IsKeyed k (if b then some approval_row else none)) (sym same)
        ((eq_iff "p1" k).0 same)
  | inr other ↦ subst (λ b. IsKeyed k (if b then some approval_row else none)) (sym other) tt
]

execution : Execution ascii no_addresses read_target queued_row ready ready_after
execution = record {
  at = 300;
  authorization = authorization;
  row = running_row;
  authorized = rechecked;
  begun = begun_ready;
}

Executions-le_example : 1 + 0 ≤ 2
Executions-le_example =
    Executions-le ascii no_addresses read_target {k = "p1"} {db = ready} {db' = ready_after} {n = 1}
      approval_row (Executions.of_named queued_row Executions.idle refl execution) ready-HasKeys
      refl (omega arith)
