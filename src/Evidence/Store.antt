-- ===== src/Evidence/Store.antt =====
-- evidence/store.py: `InMemoryEvidenceStore`. A call gives its result or its exception, and the store
-- as it leaves it; the lock makes each call one step.
pub mod Chains
pub mod Appending
pub mod Histories
use vuln_proof_claw.Common.{
  ℕ, not, Option, none, some, List, [], ◌∷◌, ◌++◌, ◌==◌, last?, lookup, insert, is_some, string_eq,
  option_eq, if◌then◌else◌, String,
}
use vuln_proof_claw.Common.Results.{ok, err}
use vuln_proof_claw.Domain.Errors.{Raises}
use vuln_proof_claw.Evidence.{
  EvidenceMetadata, EvidenceRecord, EvidenceError, Keeps, duplicate_evidence, invalid_evidence,
  evidence_store_error,
}
use vuln_proof_claw.Evidence.HashChain.{Hash, append_to_chain}

-- `or_empty(d.get(k))`, what `setdefault(k, [])` gives.
abbrev pub or_empty : {A : Type 0} → Option (List A) → List A
or_empty none = []
or_empty (some xs) = xs

pub record EvidenceStore (Mapping : Type 0) : Type 0 where
  pub records : List (String × EvidenceRecord Mapping)
  pub chains : List (String × List (EvidenceRecord Mapping))

module _ {Mapping : Type 0} where
  abbrev pub empty : EvidenceStore Mapping
  empty = record { records = []; chains = [] }

  -- `chain[-1].digest if chain else None`
  abbrev pub digest_of_last : Option (EvidenceRecord Mapping) → Option String
  digest_of_last none = none
  digest_of_last (some r) = some r.digest

  unfoldable pub get : String → EvidenceStore Mapping → Option (EvidenceRecord Mapping)
  get evidence_id store = lookup evidence_id store.records

  unfoldable pub for_engagement : String → EvidenceStore Mapping → List (EvidenceRecord Mapping)
  for_engagement engagement_id store = or_empty (lookup engagement_id store.chains)

  -- The store after `setdefault`: the engagement has a chain, if an empty one.
  unfoldable pub opened : String → EvidenceStore Mapping → EvidenceStore Mapping
  unfolding for_engagement
  opened engagement_id store = record store {
    chains = insert engagement_id (for_engagement engagement_id store) store.chains;
  }

  -- The record indexed, and put at the end of its chain.
  unfoldable pub indexed : EvidenceRecord Mapping → EvidenceStore Mapping → EvidenceStore Mapping
  unfolding for_engagement
  indexed r store =
      let engagement_id = r.metadata.engagement_id in
      record {
        records = insert r.metadata.evidence_id r store.records;
        chains = insert engagement_id (for_engagement engagement_id store ++ r ∷ []) store.chains;
      }

  module _ (hash : Hash) (canonical : EvidenceMetadata Mapping → Raises (List ℕ)) where
    unfoldable pub append :
        EvidenceMetadata Mapping
        → List ℕ
        → EvidenceStore Mapping
        → Keeps (EvidenceRecord Mapping) × EvidenceStore Mapping
    append metadata raw_content store =
        if is_some (lookup metadata.evidence_id store.records)
        then (err duplicate_evidence, store)
        else let ready = opened metadata.engagement_id store in
          let chain = for_engagement metadata.engagement_id store in
          elim (append_to_chain hash canonical metadata raw_content
            (digest_of_last (last? chain))) [
              | ok r ↦ (ok r, indexed r ready)
              | err e ↦ (err e, ready)
            ]

    unfoldable pub add :
        EvidenceRecord Mapping → EvidenceStore Mapping → Keeps (Unit {0}) × EvidenceStore Mapping
    add r store =
        if is_some (lookup r.metadata.evidence_id store.records)
        then (err duplicate_evidence, store)
        else let ready = opened r.metadata.engagement_id store in
          let chain = for_engagement r.metadata.engagement_id store in
          if not (r.previous_digest == digest_of_last (last? chain))
          then (err (evidence_store_error "record does not extend the engagement chain"), ready)
          else elim (append_to_chain hash canonical r.metadata r.raw_content r.previous_digest) [
            | ok expected_record ↦
                if not (r.digest == expected_record.digest)
                then (err invalid_evidence, ready)
                else (ok tt, indexed r ready)
            | err e ↦ (err e, ready)
          ]
