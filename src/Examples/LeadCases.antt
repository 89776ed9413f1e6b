-- ===== src/Examples/LeadCases.antt =====
-- Leads, tried.
use vuln_proof_claw.Common.{ℕ, ◌+◌, ◌≤◌, leb, true, false, ◌≡◌, refl, none, some, [], arith}
use vuln_proof_claw.Common.Results.{ok}
use vuln_proof_claw.Domain.Enums.{LeadStatus, LeadStatus-discrete, eligible_for_scheduling}
use vuln_proof_claw.Domain.Errors.{require_text}
use vuln_proof_claw.Agent.Scheduler.{retry_backoff, next_attempt_at}
use vuln_proof_claw.Agent.Leads.{
  Floats, Lead, validate_lead, evaluate_eligibility, begin_attempt, record_failure,
}
use vuln_proof_claw.Agent.Leads.Attempts.{Work, untouched, attempt, Work-le}
use vuln_proof_claw.Common.{◌∷◌}
use vuln_proof_claw.Common.Unicode.{ascii}
use vuln_proof_claw.Domain.Enums.{
  FindingStatus-discrete, FindingSeverity, FindingConfidence, VerificationMethod,
}
use vuln_proof_claw.Domain.Finding.{
  validate_finding, is_unique, is_disjoint, requires_stated_method, is_differential,
}
use vuln_proof_claw.Agent.Leads.Promotion.{
  VerificationOutcome, verification_verdict, from_keys, finding_of, promote_verified, by_status,
  promote_to_finding,
}
use vuln_proof_claw.Agent.Leads.Promotion.Verdict.{Ends, promote_to_finding-Ends}
use vuln_proof_claw.Examples.{cadence, mission}

-- Confidences in hundredths.
abbrev hundredths : Floats
hundredths = record { Float = ℕ; is_unit = λ x. leb x 100 }

abbrev lead : Lead hundredths
lead = record {
  engagement_id = "e1";
  mission_id = "m1";
  title = "open redirect";
  hypothesis = "the next parameter is not checked";
  category = "redirect";
  asset_id = none;
  endpoint_id = none;
  confidence = 50;
  priority = 50;
  status = LeadStatus.queued;
  origin = [];
  evidence_ids = [];
  related_findings = [];
  attempt_count = 1;
  failure_count = 0;
  last_attempt_at = some 150;
  next_attempt = none;
  last_reasoning_summary = none;
  next_action = none;
  blocked_reason = none;
  dedupe_key = none;
  id = "l1";
  created_at = 100;
  updated_at = 150;
}

abbrev rested : Lead hundredths
rested = record lead {
  status = LeadStatus.waiting;
  failure_count = 1;
  last_reasoning_summary = some "no redirect seen";
  next_attempt = some 3600000300;
  updated_at = 300;
}

lead_failed : record_failure hundredths lead "no redirect seen" cadence 300 ≡ ok rested
unfolding record_failure validate_lead require_text LeadStatus-discrete next_attempt_at
    retry_backoff
lead_failed = refl

abbrev attempted : Lead hundredths
attempted = record lead {
  status = LeadStatus.investigating;
  attempt_count = 2;
  last_attempt_at = some 400;
  updated_at = 400;
}

abbrev Worked : ℕ → Lead hundredths → Type 0
Worked n l = Work hundredths mission.budget lead n l

one_attempt : Worked 1 attempted
unfolding evaluate_eligibility eligible_for_scheduling begin_attempt validate_lead require_text
    LeadStatus-discrete
one_attempt = attempt 400 false untouched refl refl

Work-le_example : 1 + 1 ≤ 5
Work-le_example = Work-le hundredths one_attempt (omega arith)

abbrev outcome : VerificationOutcome
outcome = record {
  reproducible = true;
  expected_behavior = false;
  proves_security_impact = true;
  requires_destructive_testing = false;
  vulnerability_class = "open_redirect";
  affected_target = "https://example.com:443/";
  rationale = "redirects to any host";
  evidence_ids = "v1" ∷ [];
  severity = FindingSeverity.medium;
  confidence = FindingConfidence.medium;
  remediation = "check the parameter";
  verification_method = some VerificationMethod.observed;
  control_evidence_ids = [];
}

abbrev verified_lead : Lead hundredths
verified_lead = record lead {
  status = LeadStatus.verified;
  evidence_ids = "v1" ∷ [];
  related_findings = "f1" ∷ [];
  last_reasoning_summary = some "redirects to any host";
  updated_at = 500;
}

lead_promoted :
    promote_to_finding hundredths ascii lead outcome "f1" 500
    ≡ ok (verified_lead, some (finding_of hundredths lead outcome "f1" 500))
unfolding promote_to_finding by_status promote_verified verification_verdict finding_of from_keys
    validate_finding validate_lead require_text LeadStatus-discrete FindingStatus-discrete is_unique
    is_disjoint requires_stated_method is_differential
lead_promoted = refl

promote_to_finding-Ends_example :
    Ends hundredths ascii lead outcome "f1"
      (verified_lead, some (finding_of hundredths lead outcome "f1" 500))
promote_to_finding-Ends_example =
    promote_to_finding-Ends hundredths ascii lead outcome "f1" 500
      {out = (verified_lead, some (finding_of hundredths lead outcome "f1" 500))} lead_promoted
