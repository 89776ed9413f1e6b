-- ===== src/Evidence.antt =====
-- evidence/models.py: metadata, records and the errors of the evidence store.
pub mod Bytes
pub mod HashChain
pub mod Store
use vuln_proof_claw.Common.{ℕ, List, Bool, true, not, Option, none, some, String, is_sha256}
use vuln_proof_claw.Common.Results.{Result, ok, err, ◌>>=◌, ◌>>◌}
use vuln_proof_claw.Domain.Errors.{Time, Raises, Error, require_text, refuse_if}

-- `Mapping` is what `freeze_canonical` makes of a mapping.
pub record EvidenceMetadata (Mapping : Type 0) : Type 0 where
  pub evidence_id : String
  pub engagement_id : String
  pub action_id : String
  pub tool_name : String
  pub tool_version : String
  pub normalized_parameters : Mapping
  pub captured_at : Time
  pub duration_ms : ℕ
  pub worker_image : String
  pub environment : Mapping
  pub scope_decision : String
  pub approval_id : Option String
  pub media_type : String

pub record EvidenceRecord (Mapping : Type 0) : Type 0 where
  pub metadata : EvidenceMetadata Mapping
  pub raw_content : List ℕ
  pub previous_digest : Option String
  pub digest : String

pub data EvidenceError : Type 0 where
  duplicate_evidence invalid_evidence : EvidenceError
  evidence_store_error : (message : String) → EvidenceError
  domain : Error → EvidenceError
  -- `bytes.fromhex` and `int.to_bytes`
  value_error overflow_error : EvidenceError

abbrev pub Keeps : Type 0 → Type 0
Keeps A = Result EvidenceError A

abbrev pub of_domain : {A : Type 0} → Raises A → Keeps A
of_domain (ok a) = ok a
of_domain (err e) = err (domain e)

-- An optional digest is one in form.
abbrev pub has_form : Option String → Bool
has_form none = true
has_form (some digest) = is_sha256 digest

-- `EvidenceRecord.__post_init__`
unfoldable pub validate_record :
    {Mapping : Type 0} → EvidenceRecord Mapping → Raises (EvidenceRecord Mapping)
unfolding is_sha256
validate_record r = do
  refuse_if (not (has_form r.previous_digest)) "previous_digest must be a lowercase SHA-256 digest"
  refuse_if (not (is_sha256 r.digest)) "digest must be a lowercase SHA-256 digest"
  ok r
