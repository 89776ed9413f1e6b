-- ===== src/Evidence/HashChain.antt =====
-- evidence/hash_chain.py: SHA-256 evidence chaining and verification.
pub mod Framing
pub mod Chains
pub mod Tampering
use vuln_proof_claw.Common.{
  ℕ, zero, suc, Bool, true, false, not, Option, none, some, List, [], ◌∷◌, ◌++◌, ◌==◌, ltb, length,
  codes, contains, string_eq, option_eq, if◌then◌else◌, String, ◌≡◌, is_sha256,
}
use vuln_proof_claw.Common.Results.{ok, err, ◌>>=◌, ◌>>◌}
use vuln_proof_claw.Domain.Errors.{Raises}
use vuln_proof_claw.Evidence.{
  EvidenceMetadata, EvidenceRecord, Keeps, of_domain, value_error, overflow_error, validate_record,
}
use vuln_proof_claw.Evidence.Bytes.{to_bytes, join, from_hex, limit}

-- `hashlib.sha256`: the hexadecimal digest of a byte string.
pub record Hash : Type 0 where
  pub sha256 : List ℕ → String
  pub sha256-IsSha256 : (bytes : List ℕ) → is_sha256 (sha256 bytes) ≡ true

-- `_DOMAIN_SEPARATOR`
abbrev pub domain_separator : List ℕ
domain_separator = codes "vuln-proof-claw:evidence:v1" ++ 0 ∷ []

abbrev pub repeat : ℕ → ℕ → List ℕ
repeat zero b = []
repeat (suc n) b = b ∷ repeat n b

-- `_GENESIS_DIGEST`
abbrev pub genesis_digest : List ℕ
genesis_digest = repeat 32 0

abbrev pub or_value_error : {A : Type 0} → Option A → Keeps A
or_value_error none = err value_error
or_value_error (some a) = ok a

unfoldable pub previous_bytes : Option String → Keeps (List ℕ)
previous_bytes none = ok genesis_digest
previous_bytes (some digest) = or_value_error (from_hex (codes digest))

-- `len(xs).to_bytes(8, "big")`
unfoldable pub length_bytes : List ℕ → Keeps (List ℕ)
length_bytes xs =
    if ltb (length xs) (limit 8) then ok (to_bytes 8 (length xs)) else err overflow_error

-- The bytes that `compute_digest` hashes.
unfoldable pub framed : Option String → List ℕ → List ℕ → Keeps (List ℕ)
framed previous_digest canonical_metadata raw_content = do
  previous ← previous_bytes previous_digest
  metadata_length ← length_bytes canonical_metadata
  content_length ← length_bytes raw_content
  ok (
      join (
        domain_separator ∷ previous ∷ metadata_length ∷ canonical_metadata ∷ content_length
        ∷ raw_content ∷ []))

pub record ChainVerification : Type 0 where
  pub valid : Bool
  pub checked_records : ℕ
  pub invalid_index : Option ℕ
  pub reason : Option String
  pub expected_digest : Option String
  pub actual_digest : Option String

abbrev pub invalid_at : ℕ → String → ChainVerification
invalid_at index reason = record {
  valid = false;
  checked_records = index;
  invalid_index = some index;
  reason = some reason;
  expected_digest = none;
  actual_digest = none;
}

abbrev pub verified : ℕ → ChainVerification
verified count = record {
  valid = true;
  checked_records = count;
  invalid_index = none;
  reason = none;
  expected_digest = none;
  actual_digest = none;
}

-- `canonical` stands for `canonical_json(metadata.as_canonical_mapping())`.
module _ (hash : Hash) {Mapping : Type 0}
    (canonical : EvidenceMetadata Mapping → Raises (List ℕ)) where
  unfoldable pub compute_digest : Option String → List ℕ → List ℕ → Keeps String
  compute_digest previous_digest canonical_metadata raw_content = do
    payload ← framed previous_digest canonical_metadata raw_content
    ok (hash.sha256 payload)

  -- The digest that a record with these contents should have.
  unfoldable pub digest_of : Option String → EvidenceMetadata Mapping → List ℕ → Keeps String
  digest_of previous_digest metadata raw_content = do
    encoded ← of_domain (canonical metadata)
    compute_digest previous_digest encoded raw_content

  unfoldable pub append_to_chain :
      EvidenceMetadata Mapping → List ℕ → Option String → Keeps (EvidenceRecord Mapping)
  append_to_chain metadata raw_content previous_digest = do
    digest ← digest_of previous_digest metadata raw_content
    let made : EvidenceRecord Mapping = record {
      metadata = metadata;
      raw_content = raw_content;
      previous_digest = previous_digest;
      digest = digest;
    }
    of_domain (validate_record made)

  -- The loop of `verify_chain`, from the record at `index` on.
  unfoldable pub verify_from :
      List (EvidenceRecord Mapping) → ℕ → List String → Option String → Keeps ChainVerification
  verify_from [] index seen_ids expected_previous = ok (verified index)
  verify_from (r ∷ rs) index seen_ids expected_previous =
      if contains seen_ids r.metadata.evidence_id
      then ok (invalid_at index "duplicate_evidence_id")
      else if not (r.previous_digest == expected_previous)
      then ok (invalid_at index "previous_digest_mismatch")
      else do
        expected_digest ← digest_of r.previous_digest r.metadata r.raw_content
        let rest = verify_from rs (suc index) (r.metadata.evidence_id ∷ seen_ids) (some r.digest)
        if not (r.digest == expected_digest)
            then ok (record (invalid_at index "digest_mismatch") {
              expected_digest = some expected_digest;
              actual_digest = some r.digest;
            })
            else rest

  unfoldable pub verify_chain : List (EvidenceRecord Mapping) → Keeps ChainVerification
  verify_chain records = verify_from records 0 [] none
