-- ===== src/Domain/Finding.antt =====
-- domain/models.py and domain/finding.py: a finding, what `__post_init__` refuses, and its review.
pub mod Review
use vuln_proof_claw.Common.{
  ℕ, Bool, true, false, ◌&&◌, ◌||◌, not, Option, none, some, List, [], ◌∷◌, ◌==◌, contains, any,
  all, length, leb, nat_beq, if◌then◌else◌, String, string_eq, option_eq, is_some, codes, codes_beq,
  is_empty, or_else,
}
use vuln_proof_claw.Common.Unicode.{Unicode}
use vuln_proof_claw.Common.Results.{ok, ◌>>◌}
use vuln_proof_claw.Domain.Enums.{
  FindingStatus, FindingStatus-discrete, finding_status_eq, FindingSeverity, FindingConfidence,
  VerificationMethod, VerificationMethod-discrete, verification_method_eq,
}
use vuln_proof_claw.Domain.Errors.{Time, Raises, require_text, refuse_if}

pub record Finding : Type 0 where
  pub engagement_id : String
  pub title : String
  pub vulnerability_class : String
  pub affected_target : String
  pub evidence_ids : List String
  pub control_evidence_ids : List String
  pub verification_method : Option VerificationMethod
  pub cwe_id : Option String
  pub status : FindingStatus
  pub severity : FindingSeverity
  pub confidence : FindingConfidence
  pub remediation : String
  pub id : String
  pub created_at : Time

-- `severity in SEVERITY_REQUIRES_STATED_METHOD`
unfoldable pub requires_stated_method : FindingSeverity → Bool
requires_stated_method FindingSeverity.high = true
requires_stated_method FindingSeverity.critical = true
requires_stated_method _ = false

-- `len(set(ids)) == len(ids)`
unfoldable pub is_unique : List String → Bool
is_unique [] = true
is_unique (x ∷ xs) = not (contains xs x) && is_unique xs

-- `set(xs) & set(ys)` is empty
unfoldable pub is_disjoint : List String → List String → Bool
is_disjoint xs ys = not (any (contains ys) xs)

-- `value.partition("-")`: what stands before the first dash, and what stands behind it.
unfoldable pub partition_dash : List ℕ → List ℕ × Option (List ℕ)
partition_dash [] = ([], none)
partition_dash (c ∷ cs) =
    let rest = partition_dash cs in if nat_beq c b'-' then ([], some cs) else (c ∷ rest.0, rest.1)

abbrev is_none {ℓ} : {A : Type ℓ} → Option A → Bool
is_none o = not (is_some o)

-- `is VerificationMethod.DIFFERENTIAL`
unfoldable pub is_differential : Option VerificationMethod → Bool
is_differential (some VerificationMethod.differential) = true
is_differential _ = false

module _ (unicode : Unicode) where
  -- `1 <= len(number) <= _MAX_CWE_DIGITS` and `number.isdigit()`
  unfoldable pub is_numbered : Option (List ℕ) → Bool
  is_numbered none = false
  is_numbered (some number) =
      not (is_empty number) && all unicode.is_digit number && leb (length number) 5

  -- What `_require_cwe` asks of an identifier.
  unfoldable pub is_cwe : String → Bool
  unfolding is_numbered partition_dash
  is_cwe value =
      let parts = partition_dash (codes value) in
      codes_beq parts.0 (codes "CWE") && is_numbered parts.1

  abbrev bad_cwe : Option String → Bool
  bad_cwe none = false
  bad_cwe (some c) = not (is_cwe c)

  unfoldable pub validate_finding : Finding → Raises Finding
  unfolding FindingStatus-discrete
  validate_finding f = do
    require_text f.title "title"
    require_text f.vulnerability_class "vulnerability_class"
    require_text f.affected_target "affected_target"
    require_text f.remediation "remediation"
    refuse_if (bad_cwe f.cwe_id) "cwe_id must look like CWE-79"
    refuse_if (not (is_unique f.evidence_ids) || not (is_unique f.control_evidence_ids))
        "finding evidence IDs must be unique within each role"
    refuse_if (not (is_disjoint f.evidence_ids f.control_evidence_ids))
        "one evidence record cannot be both payload and control"
    refuse_if (f.status == FindingStatus.verified && is_empty f.evidence_ids)
        "verified findings require at least one evidence record"
    refuse_if (f.status == FindingStatus.verified && is_none f.verification_method)
        "verified findings must state a verification method"
    refuse_if (requires_stated_method f.severity && is_none f.verification_method)
        "high and critical findings must state a verification method"
    refuse_if
        (f.status == FindingStatus.verified
          && is_differential f.verification_method
          && is_empty f.control_evidence_ids)
        "differential verification requires at least one control evidence record"
    ok f

-- `status in _REVIEWABLE`
unfoldable pub is_reviewable : FindingStatus → Bool
is_reviewable FindingStatus.candidate = false
is_reviewable _ = true

-- `requires_control_evidence`
unfoldable pub requires_control_evidence : Finding → Bool
unfolding is_differential
requires_control_evidence f = is_differential f.verification_method

-- `verification_method or finding.verification_method`
abbrev pub some_or {ℓ} : {A : Type ℓ} → Option A → Option A → Option A
some_or (some a) b = some a
some_or none b = b

-- The fields that the review's `replace` sets.
unfoldable pub reviewed :
    Finding → FindingStatus → Option VerificationMethod → Option (List String) → Finding
reviewed f status method controls = record f {
  status = status;
  verification_method = some_or method f.verification_method;
  control_evidence_ids = or_else controls f.control_evidence_ids;
}

module _ (unicode : Unicode) where
  unfoldable pub review_finding :
      Finding → FindingStatus → Option VerificationMethod → Option (List String) → Raises Finding
  unfolding FindingStatus-discrete is_reviewable
  review_finding f status method controls = do
    refuse_if (not (is_reviewable status)) "finding review must use a review status"
    if f.status == status && is_none method && is_none controls then ok f else do
      refuse_if (f.status == FindingStatus.verified && status == FindingStatus.pending_verification)
          "verified findings must be reopened for manual review first"
      refuse_if (f.status == FindingStatus.rejected && status == FindingStatus.pending_verification)
          "rejected findings must be reopened for manual review first"
      validate_finding unicode (reviewed f status method controls)
