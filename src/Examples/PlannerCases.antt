-- ===== src/Examples/PlannerCases.antt =====
-- A proposed plan, tried.
use mathlib.Core.List.{flat_map}
use vuln_proof_claw.Common.{ℕ, [], true, false, none, ◌≡◌, refl, codes, is_space, is_blank, List}
use vuln_proof_claw.Common.Unicode.{ascii}
use vuln_proof_claw.Common.Results.{ok}
use vuln_proof_claw.Domain.Enums.{RiskLevel, RiskLevel-discrete}
use vuln_proof_claw.Domain.Errors.{require_text}
use vuln_proof_claw.Domain.Autonomous.{validate_mission}
use vuln_proof_claw.Policy.Risk.{
  classify_risk, is_permanently_denied, normalize_action_type, strip, squeeze, is_separator,
  risk_of_name,
}
use vuln_proof_claw.Policy.Risk.Known.{is_automatic}
use vuln_proof_claw.Policy.Decision.{risk_rank}
use vuln_proof_claw.Policy.Scope.{NormalizedTarget, target_text, authority, decimal_digits}
use vuln_proof_claw.Agent.Planner.{
  ResearchPlan, validate_research_plan, validate_plan, check_classified, check_target,
}
use vuln_proof_claw.Agent.Planner.Accepted.{validate_plan-automatic}
use vuln_proof_claw.Examples.{mission, read_target}

abbrev plan : ResearchPlan
plan = record {
  lead_id = "l1";
  objective = "Collect evidence for: open redirect";
  hypothesis = "the redirect parameter is not checked";
  proposed_action = record {
    action_type = "Public-Page Read";
    target = "https://example.com:443/";
    parameters = [];
    query = "";
  };
  expected_observation = "a response";
  reason = "nothing is recorded";
  success_condition = "it differs";
  failure_condition = "it does not";
  risk_level = RiskLevel.l0;
  known_evidence = [];
  contradicting_evidence = [];
}

plan-valid : validate_research_plan plan ≡ ok plan
unfolding validate_research_plan require_text is_blank is_space
plan-valid = refl

mission-valid : validate_mission mission ≡ ok mission
unfolding validate_mission require_text is_blank is_space
mission-valid = refl

accepted : validate_plan ascii read_target plan mission ≡ ok none
unfolding validate_plan is_permanently_denied classify_risk normalize_action_type strip squeeze
    is_separator risk_of_name is_space check_classified check_target target_text authority
    decimal_digits risk_rank RiskLevel-discrete flat_map
accepted = refl

validate_plan-automatic_example :
    (is_permanently_denied ascii "Public-Page Read" ≡ ok false)
    × (classify_risk ascii "Public-Page Read" ≡ ok RiskLevel.l0)
    × ((name : List ℕ) × (normalize_action_type ascii "Public-Page Read" ≡ ok name)
        × (is_automatic name ≡ true))
    × ((t : NormalizedTarget) × (read_target "https://example.com:443/" ≡ ok t)
        × (target_text t ≡ codes "https://example.com:443/"))
validate_plan-automatic_example =
    validate_plan-automatic ascii read_target plan mission mission-valid accepted
