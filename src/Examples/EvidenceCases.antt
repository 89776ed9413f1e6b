-- ===== src/Examples/EvidenceCases.antt =====
-- The evidence chain and its store, tried.
use vuln_proof_claw.Common.{
  ℕ, Bool, true, false, ◌≡◌, refl, ◌↔◌, ◌⊎◌, Option, none, some, List, [], ◌∷◌, ◌++◌, String,
  length, codes, is_sha256, ltb, if◌then◌else◌, subst, ap,
}
use vuln_proof_claw.Common.Results.{ok}
use vuln_proof_claw.Domain.Errors.{Raises}
use vuln_proof_claw.Evidence.{EvidenceMetadata, EvidenceRecord, validate_record, Keeps}
use vuln_proof_claw.Evidence.Bytes.{from_hex, to_bytes, join}
use vuln_proof_claw.Evidence.HashChain.{
  Hash, compute_digest, digest_of, append_to_chain, verify_from, verify_chain, verified, framed,
  previous_bytes, length_bytes, genesis_digest, domain_separator,
}
use vuln_proof_claw.Evidence.HashChain.Framing.{framed_inj}
use vuln_proof_claw.Evidence.HashChain.Chains.{IsChain, verify_chain-IsChain}
use vuln_proof_claw.Evidence.HashChain.Tampering.{HasCollision, AllAgree, IsChain-same_end}
use vuln_proof_claw.Evidence.Store.{
  EvidenceStore, empty, get, for_engagement, opened, indexed, append,
}
use vuln_proof_claw.Evidence.Store.Appending.{append-for_engagement}
use vuln_proof_claw.Evidence.Store.Histories.{History, created, appended, History-verify_chain}
use vuln_proof_claw.Examples.{digest}

abbrev long_digest : String
long_digest = "fedcba9876543210fedcba9876543210fedcba9876543210fedcba9876543210"

-- A stand-in for the hash that tells only short inputs from long ones.
abbrev by_length : List ℕ → String
by_length bytes = if ltb (length bytes) 80 then digest else long_digest

by_length-IsSha256 : (b : Bool) → is_sha256 (if b then digest else long_digest) ≡ true
unfolding is_sha256
by_length-IsSha256 true = refl
by_length-IsSha256 false = refl

abbrev hash : Hash
hash = record {
  sha256 = by_length;
  sha256-IsSha256 = λ bytes. by_length-IsSha256 (ltb (length bytes) 80);
}

abbrev Metadata : Type 0
Metadata = EvidenceMetadata String

-- The identifier stands for the whole of the metadata.
abbrev canonical : Metadata → Raises (List ℕ)
canonical m = ok (codes m.evidence_id)

abbrev metadata : String → Metadata
metadata id = record {
  evidence_id = id;
  engagement_id = "e1";
  action_id = "a1";
  tool_name = "http";
  tool_version = "1";
  normalized_parameters = "{}";
  captured_at = 100;
  duration_ms = 5;
  worker_image = "worker";
  environment = "{}";
  scope_decision = "scope_allowed";
  approval_id = none;
  media_type = "text/plain";
}

abbrev first : EvidenceRecord String
first = record {
  metadata = metadata "v1";
  raw_content = 1 ∷ 2 ∷ [];
  previous_digest = none;
  digest = long_digest;
}

abbrev second : EvidenceRecord String
second = record {
  metadata = metadata "v2";
  raw_content = 3 ∷ [];
  previous_digest = some long_digest;
  digest = digest;
}

abbrev chain : List (EvidenceRecord String)
chain = first ∷ second ∷ []

verify_chain-chain : verify_chain hash canonical chain ≡ ok (verified 2)
unfolding verify_chain verify_from digest_of compute_digest framed previous_bytes length_bytes
    from_hex
verify_chain-chain = refl

verify_chain-IsChain_example :
    (verify_chain hash canonical chain ≡ ok (verified 2)) ↔ IsChain hash canonical chain
verify_chain-IsChain_example = verify_chain-IsChain hash canonical chain

chain-IsChain : IsChain hash canonical chain
chain-IsChain = (verify_chain-IsChain hash canonical chain).0 verify_chain-chain

IsChain-same_end_example :
    HasCollision hash canonical chain chain ⊎ AllAgree hash canonical chain chain
IsChain-same_end_example =
    IsChain-same_end hash canonical chain chain chain-IsChain chain-IsChain refl refl

abbrev seven : List ℕ
seven = 7 ∷ []

abbrev eight : List ℕ
eight = 8 ∷ []

abbrev no_link : Option String
no_link = none

abbrev payload : List ℕ
payload =
    join
      (domain_separator ∷ genesis_digest ∷ to_bytes 8 1 ∷ (7 ∷ []) ∷ to_bytes 8 1 ∷ (8 ∷ []) ∷ [])

framing : framed none (7 ∷ []) (8 ∷ []) ≡ ok payload
unfolding framed previous_bytes length_bytes
framing = refl

framed_inj_example :
    (seven ≡ seven)
    × (eight ≡ eight)
    × ((no_link ≡ no_link)
        ⊎ (previous_bytes none ≡ ok genesis_digest) × (previous_bytes none ≡ ok genesis_digest))
framed_inj_example =
    framed_inj none none (7 ∷ []) (7 ∷ []) (8 ∷ []) (8 ∷ []) {payload = payload} refl refl framing
      framing

abbrev store : EvidenceStore String
store = record { records = ("v1", first) ∷ []; chains = ("e1", first ∷ []) ∷ [] }

appended_first : append hash canonical (metadata "v1") (1 ∷ 2 ∷ []) empty ≡ (ok first, store)
unfolding append append_to_chain digest_of compute_digest framed previous_bytes length_bytes
    for_engagement opened indexed validate_record
appended_first = refl

append-for_engagement_example :
    (metadata "v1" ≡ metadata "v1")
    × (first.raw_content ≡ 1 ∷ 2 ∷ [])
    × (get "v1" store ≡ some first)
    × (for_engagement "e1" store ≡ for_engagement "e1" (empty {Mapping = String}) ++ first ∷ [])
append-for_engagement_example =
    append-for_engagement hash canonical (metadata "v1") (1 ∷ 2 ∷ []) empty {r = first}
      {after = store} appended_first

abbrev Reached : EvidenceStore String → Type 0
Reached s = History hash canonical s

one_appended : Reached (append hash canonical (metadata "v1") (1 ∷ 2 ∷ []) empty).1
one_appended = appended (metadata "v1") (1 ∷ 2 ∷ []) created

Reached-store : Reached store
Reached-store =
    subst Reached
      (ap (λ (o : Keeps (EvidenceRecord String) × EvidenceStore String). o.1) appended_first)
      one_appended

History-verify_chain_example :
    verify_chain hash canonical (for_engagement "e1" store)
    ≡ ok (verified (length (for_engagement "e1" store)))
History-verify_chain_example = History-verify_chain hash canonical Reached-store "e1"
