-- ===== src/Policy/Decision.antt =====
-- policy/decision.py: permanent deny, scope, risk and approval, in that order.
mod Verdicts
pub mod Allow
use vuln_proof_claw.Common.{
  ℕ, Bool, true, false, ◌&&◌, ◌||◌, not, Option, none, some, ltb, codes, codes_beq, ◌==◌,
  if◌then◌else◌, String,
}
use vuln_proof_claw.Common.Unicode.{Unicode}
use vuln_proof_claw.Common.Results.{Result, ok, err, ◌>>=◌}
use vuln_proof_claw.Domain.Enums.{RiskLevel, RiskLevel-discrete, risk_level_eq, requires_approval}
use vuln_proof_claw.Domain.Errors.{Time, Raises}
use vuln_proof_claw.Domain.Models.{Action, Approval}
use vuln_proof_claw.Policy.Approval.{validate_approval}
use vuln_proof_claw.Policy.Risk.{classify_risk, is_permanently_denied}
use vuln_proof_claw.Policy.Scope.{
  IpLibrary, NormalizedTarget, EngagementScope, ScopeDecision, evaluate_scope_text, target_text,
}

pub data DecisionKind : Type 0 where
  allow approval_required deny : DecisionKind

pub record PolicyConfig : Type 0 where
  pub maximum_risk : RiskLevel
  pub auto_execute_l1 : Bool
  pub destructive_actions_enabled : Bool

pub record PolicyDecision : Type 0 where
  pub kind : DecisionKind
  pub reason : String
  pub risk_level : RiskLevel
  pub target : NormalizedTarget
  pub requires_dns_recheck : Bool
  pub approval_id : Option String

-- `_risk_rank`
unfoldable pub risk_rank : RiskLevel → ℕ
risk_rank RiskLevel.l0 = 0
risk_rank RiskLevel.l1 = 1
risk_rank RiskLevel.l2 = 2
risk_rank RiskLevel.l3 = 3
risk_rank RiskLevel.l4 = 4

-- The kind, the reason and the approval that a decision names.
abbrev pub Verdict : Type 0
Verdict = DecisionKind × String × Option String

abbrev deny_with : String → Verdict
deny_with reason = (DecisionKind.deny, reason, none)

-- Whether an action of this risk has to be approved under this configuration.
unfoldable pub approval_needed : RiskLevel → PolicyConfig → Bool
unfolding RiskLevel-discrete requires_approval
approval_needed level config =
    requires_approval level || (level == RiskLevel.l1 && not config.auto_execute_l1)

-- The last step: the approval, where one is needed.
unfoldable pub approval_verdict : Bool → Action → Option Approval → Time → Verdict
unfolding validate_approval
approval_verdict false a approval at = (DecisionKind.allow, "automatic_policy_allow", none)
approval_verdict true a none at =
    (DecisionKind.approval_required, "explicit_approval_required", none)
approval_verdict true a (some p) at = elim (validate_approval p a at) [
  | ok _ ↦ (DecisionKind.allow, "valid_approval", some p.id)
  | err _ ↦ (DecisionKind.approval_required, "approval_invalid", none)
]

-- The chain of tests in `decide_action`, over what it has computed first.
unfoldable pub verdict :
    Action → Bool → ScopeDecision → RiskLevel → PolicyConfig → Option Approval → Time → Verdict
unfolding RiskLevel-discrete
verdict a permanent scope_decision classified config approval at =
    if permanent
    then deny_with "system_permanent_deny"
    else if not scope_decision.allowed
    then deny_with scope_decision.reason
    else if not (codes_beq (codes a.normalized_target) (target_text scope_decision.target))
    then deny_with "target_not_normalized"
    else if not (a.risk_level == classified)
    then deny_with "risk_classification_mismatch"
    else if ltb (risk_rank config.maximum_risk) (risk_rank classified)
    then deny_with "risk_exceeds_engagement_maximum"
    else if classified == RiskLevel.l4 && not config.destructive_actions_enabled
    then deny_with "destructive_actions_disabled"
    else approval_verdict (approval_needed classified config) a approval at

module _ (unicode : Unicode) (ip : IpLibrary)
    (normalize_target : String → Raises NormalizedTarget) where
  open ip use {Network}

  unfoldable pub decide_action :
      Action
      → EngagementScope Network
      → PolicyConfig
      → Time
      → Option Approval
      → Raises PolicyDecision
  decide_action a scope config at approval = do
    scope_decision ← evaluate_scope_text ip normalize_target a.normalized_target scope at
    classified ← classify_risk unicode a.action_type
    permanent ← is_permanently_denied unicode a.action_type
    let outcome = verdict a permanent scope_decision classified config approval at
    ok (record {
      kind = outcome.0;
      reason = outcome.1;
      risk_level = classified;
      target = scope_decision.target;
      requires_dns_recheck = scope_decision.requires_dns_recheck;
      approval_id = outcome.2;
    })
