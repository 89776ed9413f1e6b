-- ===== src/Examples/PolicyCases.antt =====
-- Findings, risk, approvals and decisions, tried.
use mathlib.Core.List.{flat_map}
use vuln_proof_claw.Common.{
  ◌+◌, ◌≤◌, true, false, ◌≡◌, ◌≢◌, refl, ◌↔◌, none, some, [], ◌∷◌, arith, is_space,
}
use vuln_proof_claw.Common.Results.{ok}
use vuln_proof_claw.Common.Unicode.{ascii}
use vuln_proof_claw.Domain.Enums.{
  RiskLevel, RiskLevel-discrete, FindingStatus, FindingStatus-discrete, FindingSeverity,
  FindingConfidence, VerificationMethod, requires_approval,
}
use vuln_proof_claw.Domain.Errors.{require_text, require_sha256}
use vuln_proof_claw.Domain.Models.{validate_approval_record, authorizes}
use vuln_proof_claw.Domain.Finding.{
  Finding, validate_finding, review_finding, requires_stated_method, is_unique, is_disjoint,
  is_differential, is_reviewable, reviewed, is_cwe, is_numbered, partition_dash,
}
use vuln_proof_claw.Domain.Finding.Review.{
  IsBacked, validate_finding-IsBacked, review_finding-IsBacked,
}
use vuln_proof_claw.Policy.Risk.{
  classify_risk, normalize_action_type, is_permanently_denied, strip, squeeze, is_separator,
  risk_of_name,
}
use vuln_proof_claw.Policy.Approval.{consume_approval, validate_approval, used}
use vuln_proof_claw.Policy.Approval.Use.{Uses, unused, use_again, Uses-le}
use vuln_proof_claw.Policy.Decision.{
  DecisionKind, PolicyConfig, PolicyDecision, decide_action, risk_rank, verdict, approval_verdict,
  approval_needed,
}
use vuln_proof_claw.Policy.Decision.Allow.{Grounds, decide_action-Grounds}
use vuln_proof_claw.Policy.Scope.{
  evaluate_scope, evaluate_scope_text, deny_reason, host_allowed, in_networks, is_ip, path_matches,
  wildcard_matches, target_text, authority, decimal_digits,
}
use vuln_proof_claw.Examples.{action, approval, target, read_target, no_addresses, scope}

abbrev finding : Finding
finding = record {
  engagement_id = "e1";
  title = "stored script";
  vulnerability_class = "xss";
  affected_target = "https://example.com:443/";
  evidence_ids = "v1" ∷ [];
  control_evidence_ids = [];
  verification_method = some VerificationMethod.differential;
  cwe_id = some "CWE-79";
  status = FindingStatus.pending_verification;
  severity = FindingSeverity.high;
  confidence = FindingConfidence.medium;
  remediation = "encode the output";
  id = "f1";
  created_at = 100;
}

abbrev confirmed : Finding
confirmed = record finding { status = FindingStatus.verified; control_evidence_ids = "v2" ∷ [] }

finding_valid : validate_finding ascii finding ≡ ok finding
unfolding validate_finding require_text FindingStatus-discrete is_cwe is_numbered partition_dash
    requires_stated_method is_unique is_disjoint is_differential
finding_valid = refl

finding_reviewed :
    review_finding ascii finding FindingStatus.verified none (some ("v2" ∷ [])) ≡ ok confirmed
unfolding review_finding reviewed is_reviewable validate_finding require_text FindingStatus-discrete
    is_cwe is_numbered partition_dash requires_stated_method is_unique is_disjoint is_differential
finding_reviewed = refl

review_finding-IsBacked_example :
    IsBacked confirmed
    × (FindingStatus.verified ≡ FindingStatus.verified)
    × (FindingStatus.verified ≢ FindingStatus.candidate)
    × (¬ (
        (FindingStatus.pending_verification ≡ FindingStatus.verified)
        × (FindingStatus.verified ≡ FindingStatus.pending_verification)))
    × (¬ (
        (FindingStatus.pending_verification ≡ FindingStatus.rejected)
        × (FindingStatus.verified ≡ FindingStatus.pending_verification)))
    × (confirmed.evidence_ids ≡ finding.evidence_ids)
    × (confirmed.severity ≡ finding.severity)
    × (confirmed.id ≡ finding.id)
review_finding-IsBacked_example =
    review_finding-IsBacked ascii finding FindingStatus.verified none (some ("v2" ∷ []))
      {g = confirmed} (validate_finding-IsBacked ascii finding finding_valid).1 finding_reviewed

approval_valid : validate_approval_record approval ≡ ok approval
unfolding validate_approval_record require_text require_sha256
approval_valid = refl

used_once : Uses approval 1 (used approval)
unfolding consume_approval validate_approval authorizes validate_approval_record require_text
    require_sha256 RiskLevel-discrete
used_once = use_again action 200 unused refl

Uses-le_example : 1 + 0 ≤ 2
Uses-le_example = Uses-le used_once (omega arith)

abbrev config : PolicyConfig
config = record {
  maximum_risk = RiskLevel.l3;
  auto_execute_l1 = false;
  destructive_actions_enabled = false;
}

abbrev decision : PolicyDecision
decision = record {
  kind = DecisionKind.allow;
  reason = "valid_approval";
  risk_level = RiskLevel.l2;
  target = target;
  requires_dns_recheck = true;
  approval_id = some "p1";
}

decided :
    decide_action ascii no_addresses read_target action scope config 200 (some approval)
    ≡ ok decision
unfolding decide_action evaluate_scope_text evaluate_scope deny_reason host_allowed in_networks
    is_ip path_matches wildcard_matches target_text authority decimal_digits classify_risk
    is_permanently_denied normalize_action_type strip squeeze is_separator risk_of_name is_space
    verdict approval_verdict approval_needed risk_rank RiskLevel-discrete requires_approval
    validate_approval authorizes flat_map
decided = refl

decide_action-Grounds_example :
    (DecisionKind.allow ≡ DecisionKind.allow)
    ↔ Grounds ascii no_addresses read_target action scope config 200 (some approval) decision
decide_action-Grounds_example =
    decide_action-Grounds ascii no_addresses read_target action scope config 200 (some approval)
      {d = decision} decided
