-- ===== src/Agent/Planner.antt =====
-- agent/planner.py: the plan that a planner proposes, and `validate_plan`, which comes before the
-- policy. `normalize_target` is an argument.
pub mod Accepted
use Prim.Native.String.{◌++◌ as str_append}
use vuln_proof_claw.Common.{
  Bool, Option, none, some, List, [], ◌∷◌, String, ltb, not, length, codes, codes_beq, ◌==◌,
  if◌then◌else◌,
}
use vuln_proof_claw.Common.Unicode.{Unicode}
use vuln_proof_claw.Common.Results.{Result, ok, err, ◌>>=◌, ◌>>◌}
use vuln_proof_claw.Domain.Enums.{RiskLevel, RiskLevel-discrete, risk_level_eq}
use vuln_proof_claw.Domain.Errors.{Error, Raises, domain_validation, require_text, refuse_if}
use vuln_proof_claw.Domain.Autonomous.{Mission}
use vuln_proof_claw.Policy.Risk.{classify_risk, is_permanently_denied}
use vuln_proof_claw.Policy.Decision.{risk_rank}
use vuln_proof_claw.Policy.Scope.{NormalizedTarget, target_text}

pub record ProposedAction : Type 0 where
  pub action_type : String
  pub target : String
  pub parameters : List (String × String)
  pub query : String

-- `ProposedAction.__post_init__`
unfoldable pub validate_proposed : ProposedAction → Raises ProposedAction
validate_proposed a = do
  require_text a.action_type "action_type"
  require_text a.target "target"
  ok a

pub record ResearchPlan : Type 0 where
  pub lead_id : String
  pub objective : String
  pub hypothesis : String
  pub proposed_action : ProposedAction
  pub expected_observation : String
  pub reason : String
  pub success_condition : String
  pub failure_condition : String
  pub risk_level : RiskLevel
  pub known_evidence : List String
  pub contradicting_evidence : List String

-- One round of the loop of `ResearchPlan.__post_init__`
abbrev pub require_summary : String → String → Raises (Unit {0})
require_summary value name = do
  require_text value name
  refuse_if (ltb 2000 (length (codes value))) (str_append name " exceeds the maximum length")

unfoldable pub validate_research_plan : ResearchPlan → Raises ResearchPlan
validate_research_plan p = do
  require_summary p.lead_id "lead_id"
  require_summary p.objective "objective"
  require_summary p.hypothesis "hypothesis"
  require_summary p.expected_observation "expected_observation"
  require_summary p.reason "reason"
  require_summary p.success_condition "success_condition"
  require_summary p.failure_condition "failure_condition"
  ok p

-- `PlanRejection`, by its reason
pub record PlanRejection : Type 0 where
  pub reason : String

-- The last check of `validate_plan`, by what `normalize_target` gave or raised.
unfoldable pub check_target : String → Raises NormalizedTarget → Raises (Option PlanRejection)
check_target target (ok normalized) = ok (
    if not (codes_beq (target_text normalized) (codes target))
    then some (record { reason = "target_not_normalized" })
    else none)
check_target target (err (domain_validation _)) =
    ok (some (record { reason = "target_not_normalizable" }))
check_target target (err e) = err e

-- `validate_plan`, from where the risk is classified.
unfoldable pub check_classified :
    ResearchPlan → Mission → Raises NormalizedTarget → RiskLevel → Raises (Option PlanRejection)
unfolding RiskLevel-discrete check_target
check_classified p mission normalized classified =
    if not (p.risk_level == classified)
    then ok (some (record { reason = "risk_classification_mismatch" }))
    else if ltb (risk_rank mission.maximum_autonomous_risk) (risk_rank classified)
    then ok (some (record { reason = "risk_exceeds_autonomous_ceiling" }))
    else check_target p.proposed_action.target normalized

module _ (unicode : Unicode) (normalize_target : String → Raises NormalizedTarget) where
  unfoldable pub validate_plan : ResearchPlan → Mission → Raises (Option PlanRejection)
  unfolding check_classified
  validate_plan p mission =
      is_permanently_denied unicode p.proposed_action.action_type >>= λ denied.
      if denied
      then ok (some (record { reason = "system_permanent_deny" }))
      else classify_risk unicode p.proposed_action.action_type
        >>= check_classified p mission (normalize_target p.proposed_action.target)
