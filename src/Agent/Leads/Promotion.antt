-- ===== src/Agent/Leads/Promotion.antt =====
-- agent/leads.py: `VerificationOutcome`, the verdict on it, and the promotion of a lead to a finding.
pub mod Verdict
use Prim.Native.String.{◌++◌ as str_append}
use vuln_proof_claw.Common.{
  Bool, true, false, not, ◌&&◌, ◌||◌, Option, none, some, List, [], ◌∷◌, ◌++◌, contains, is_empty,
  is_some, String, string_eq, if◌then◌else◌,
}
use vuln_proof_claw.Common.Results.{ok, ◌>>=◌, ◌>>◌}
use vuln_proof_claw.Common.Unicode.{Unicode}
use vuln_proof_claw.Domain.Enums.{
  FindingStatus, FindingSeverity, FindingConfidence, VerificationMethod, LeadStatus,
}
use vuln_proof_claw.Domain.Errors.{Time, Raises, require_text, refuse_if}
use vuln_proof_claw.Domain.Finding.{
  Finding, validate_finding, requires_stated_method, is_differential,
}
use vuln_proof_claw.Agent.Leads.{Floats, Lead, validate_lead, record_blocked, record_rejected}

pub record VerificationOutcome : Type 0 where
  pub reproducible : Bool
  pub expected_behavior : Bool
  pub proves_security_impact : Bool
  pub requires_destructive_testing : Bool
  pub vulnerability_class : String
  pub affected_target : String
  pub rationale : String
  pub evidence_ids : List String
  pub severity : FindingSeverity
  pub confidence : FindingConfidence
  pub remediation : String
  pub verification_method : Option VerificationMethod
  pub control_evidence_ids : List String

-- `FindingSeverity.value`
unfoldable pub severity_value : FindingSeverity → String
severity_value FindingSeverity.informational = "informational"
severity_value FindingSeverity.low = "low"
severity_value FindingSeverity.medium = "medium"
severity_value FindingSeverity.high = "high"
severity_value FindingSeverity.critical = "critical"

unfoldable pub validate_outcome : VerificationOutcome → Raises VerificationOutcome
validate_outcome o = do
  require_text o.vulnerability_class "vulnerability_class"
  require_text o.affected_target "affected_target"
  require_text o.rationale "rationale"
  require_text o.remediation "remediation"
  refuse_if (requires_stated_method o.severity && not (is_some o.verification_method)) (
      str_append "a "
        (str_append (severity_value o.severity) " outcome must state a verification_method"))
  refuse_if (is_differential o.verification_method && is_empty o.control_evidence_ids)
      "a differential outcome must carry the control it compared against"
  ok o

unfoldable pub verification_verdict : VerificationOutcome → FindingStatus
verification_verdict o =
    if o.requires_destructive_testing
    then FindingStatus.needs_manual_review
    else if not o.reproducible
        || o.expected_behavior
        || not o.proves_security_impact
        || is_empty o.evidence_ids
    then FindingStatus.rejected
    else if not (is_some o.verification_method)
    then FindingStatus.needs_manual_review
    else FindingStatus.verified

-- `dict.fromkeys(xs)`: the first of each, where those of `seen` have come before.
unfoldable pub from_keys : List String → List String → List String
from_keys seen [] = []
from_keys seen (x ∷ xs) = elim (contains seen x) [
  | true ↦ from_keys seen xs
  | false ↦ x ∷ from_keys (x ∷ seen) xs
]

-- The finding that a verified outcome makes of a lead; `id` is the new identifier.
unfoldable pub finding_of :
    (floats : Floats) → Lead floats → VerificationOutcome → String → Time → Finding
finding_of floats l o id now = record {
  engagement_id = l.engagement_id;
  title = l.title;
  vulnerability_class = o.vulnerability_class;
  affected_target = o.affected_target;
  evidence_ids = o.evidence_ids;
  control_evidence_ids = o.control_evidence_ids;
  verification_method = o.verification_method;
  cwe_id = none;
  status = FindingStatus.verified;
  severity = o.severity;
  confidence = o.confidence;
  remediation = o.remediation;
  id = id;
  created_at = now;
}

module _ (floats : Floats) (unicode : Unicode) where
  -- The part of `promote_to_finding` after a verdict of `verified`.
  unfoldable pub promote_verified :
      Lead floats → VerificationOutcome → String → Time → Raises (Lead floats × Option Finding)
  promote_verified l o id now = do
    finding ← validate_finding unicode (finding_of floats l o id now)
    verified ← validate_lead floats (record l {
      status = LeadStatus.verified;
      evidence_ids = from_keys [] (l.evidence_ids ++ o.evidence_ids);
      related_findings = l.related_findings ++ finding.id ∷ [];
      last_reasoning_summary = some o.rationale;
      blocked_reason = none;
      next_attempt = none;
      updated_at = now;
    })
    ok (verified, some finding)

  -- The lead with no finding.
  abbrev pub alone : Lead floats → Raises (Lead floats × Option Finding)
  alone l = ok (l, none)

  -- What is done after each verdict.
  unfoldable pub by_status :
      Lead floats
      → VerificationOutcome
      → String
      → Time
      → FindingStatus
      → Raises (Lead floats × Option Finding)
  by_status l o id now FindingStatus.rejected = record_rejected floats l o.rationale now >>= alone
  by_status l o id now FindingStatus.needs_manual_review =
      record_blocked floats l "requires_manual_review" now >>= alone
  by_status l o id now _ = promote_verified l o id now

  unfoldable pub promote_to_finding :
      Lead floats → VerificationOutcome → String → Time → Raises (Lead floats × Option Finding)
  promote_to_finding l o id now = by_status l o id now (verification_verdict o)
