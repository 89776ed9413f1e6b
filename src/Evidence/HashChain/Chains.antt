-- ===== src/Evidence/HashChain/Chains.antt =====
-- What `verify_chain` accepts.
use vuln_proof_claw.Common.{
  ℕ, suc, ◌+◌, Bool, true, false, ◌≡◌, ◌≢◌, refl, ◌↔◌, inl, inr, Option, none, some, List, [], ◌∷◌,
  arith, length, All, contains, ◌==◌, string_eq, option_eq, option_beq_iff, eq_iff, String,
  Bool-cases, if◌then◌else◌, not, ap, ◌∙◌, sym, subst,
}
use vuln_proof_claw.Common.Results.{ok, err, ◌>>=◌}
use vuln_proof_claw.Domain.Errors.{Raises}
use vuln_proof_claw.Evidence.{EvidenceMetadata, EvidenceRecord, Keeps}
use vuln_proof_claw.Evidence.HashChain.{
  Hash, ChainVerification, verified, invalid_at, digest_of, verify_from, verify_chain,
}

-- One turn of the loop ends in the verdict that all is well only by way of the rest.
turn :
    (seen linked : Bool) (m : Keeps String) (digest : String) (rest : Keeps ChainVerification)
    (i n : ℕ)
    → (if seen
        then ok (invalid_at i "duplicate_evidence_id")
        else if not linked
        then ok (invalid_at i "previous_digest_mismatch")
        else m >>= (λ expected.
          if not (digest == expected)
          then ok (record (invalid_at i "digest_mismatch") {
            expected_digest = some expected;
            actual_digest = some digest;
          })
          else rest))
      ≡ ok (verified n)
    → (seen ≡ false) × (linked ≡ true) × (m ≡ ok digest) × (rest ≡ ok (verified n))
turn true linked m digest rest i n h = cc h
turn false false m digest rest i n h = cc h
turn false true (err e) digest rest i n h = cc h
turn false true (ok expected) digest rest i n h = elim (Bool-cases (digest == expected)) [
  | inl same ↦ (refl, refl, ap ok (sym ((eq_iff digest expected).0 same)), ground arith)
  | inr other ↦ ground arith
]

module _ (hash : Hash) {Mapping : Type 0}
    (canonical : EvidenceMetadata Mapping → Raises (List ℕ)) where
  -- Each record names the digest of the one before it, and has the digest of its own contents.
  abbrev pub IsLinked : Option String → List (EvidenceRecord Mapping) → Type 0
  IsLinked previous [] = Unit
  IsLinked previous (r ∷ rs) =
      (r.previous_digest ≡ previous)
      × (digest_of hash canonical previous r.metadata r.raw_content ≡ ok r.digest)
      × IsLinked (some r.digest) rs

  abbrev Differs : EvidenceRecord Mapping → EvidenceRecord Mapping → Type 0
  Differs r s = r.metadata.evidence_id ≢ s.metadata.evidence_id

  -- No two records share an identifier.
  abbrev pub HasDistinctIds : List (EvidenceRecord Mapping) → Type 0
  HasDistinctIds [] = Unit
  HasDistinctIds (r ∷ rs) = All (Differs r) rs × HasDistinctIds rs

  abbrev pub IsChain : List (EvidenceRecord Mapping) → Type 0
  IsChain rs = HasDistinctIds rs × IsLinked none rs

  abbrev IsUnseen : List String → EvidenceRecord Mapping → Type 0
  IsUnseen seen r = contains seen r.metadata.evidence_id ≡ false

  verify_end :
      (index : ℕ) (seen : List String) (previous : Option String)
      → verify_from hash canonical [] index seen previous ≡ ok (verified index)
  unfolding verify_from
  verify_end index seen previous = refl

  verify_step :
      (r : EvidenceRecord Mapping) (rs : List (EvidenceRecord Mapping)) (index : ℕ)
      (seen : List String) (previous : Option String)
      → IsUnseen seen r
      → r.previous_digest ≡ previous
      → digest_of hash canonical previous r.metadata r.raw_content ≡ ok r.digest
      → verify_from hash canonical (r ∷ rs) index seen previous
        ≡ verify_from hash canonical rs (suc index) (r.metadata.evidence_id ∷ seen) (some r.digest)
  unfolding verify_from
  verify_step r rs index seen previous unseen linked digest =
      let d =
        subst (λ p. digest_of hash canonical p r.metadata r.raw_content ≡ ok r.digest) (sym linked)
          digest in
      rw (
        unseen,
        (option_beq_iff r.previous_digest previous).1 linked,
        d,
        (eq_iff r.digest r.digest).1 refl,
      )

  verify_inv :
      (r : EvidenceRecord Mapping) (rs : List (EvidenceRecord Mapping)) (index n : ℕ)
      (seen : List String) (previous : Option String)
      → verify_from hash canonical (r ∷ rs) index seen previous ≡ ok (verified n)
      → IsUnseen seen r
        × (r.previous_digest ≡ previous)
        × (digest_of hash canonical previous r.metadata r.raw_content ≡ ok r.digest)
        × (verify_from hash canonical rs (suc index) (r.metadata.evidence_id ∷ seen) (some r.digest)
            ≡ ok (verified n))
  unfolding verify_from
  verify_inv r rs index n seen previous h =
      let (unseen, linked, digest, rest) =
        turn (contains seen r.metadata.evidence_id) (r.previous_digest == previous)
          (digest_of hash canonical r.previous_digest r.metadata r.raw_content) r.digest
          (verify_from hash canonical rs (suc index) (r.metadata.evidence_id ∷ seen)
            (some r.digest))
          index n h in
      let same = (option_beq_iff r.previous_digest previous).0 linked in
      (
        unseen,
        same,
        subst (λ p. digest_of hash canonical p r.metadata r.raw_content ≡ ok r.digest) same digest,
        rest,
      )

  -- A record is new to the loop if it differs from the last one and was new before.
  IsUnseen-iff :
      (r : EvidenceRecord Mapping) (rs : List (EvidenceRecord Mapping)) (seen : List String)
      → All (IsUnseen (r.metadata.evidence_id ∷ seen)) rs
        ↔ (All (IsUnseen seen) rs × All (Differs r) rs)
  IsUnseen-iff r [] seen = (λ h. (tt, tt), λ h. tt)
  IsUnseen-iff r (s ∷ rs) seen = (
    λ h.
        let (unseen, differs) = (IsUnseen-iff r rs seen).0 h.1 in
        (
          (ground (arith, h.0), unseen),
          (ground (arith, h.0, eq_iff s.metadata.evidence_id r.metadata.evidence_id), differs),
        ),
    λ h. (
      ground (arith, h.0.0, h.1.0, eq_iff s.metadata.evidence_id r.metadata.evidence_id),
      (IsUnseen-iff r rs seen).1 (h.0.1, h.1.1),
    ),
  )

  -- The loop, as one condition on what it has seen.
  verify_from_iff :
      (rs : List (EvidenceRecord Mapping)) (index n : ℕ) (seen : List String)
      (previous : Option String)
      → n ≡ length rs + index
      → (verify_from hash canonical rs index seen previous ≡ ok (verified n))
        ↔ (All (IsUnseen seen) rs × HasDistinctIds rs × IsLinked previous rs)
  verify_from_iff [] index n seen previous e = (
    λ h. (tt, tt, tt),
    λ g. verify_end index seen previous ∙ ap (λ k. ok (verified k)) (omega (arith, e)),
  )
  verify_from_iff (r ∷ rs) index n seen previous e =
      let later =
        verify_from_iff rs (suc index) n (r.metadata.evidence_id ∷ seen) (some r.digest)
          (omega (arith, e)) in
      (
        λ h.
            let (unseen, linked, digest, rest) = verify_inv r rs index n seen previous h in
            let (new, distinct, links) = later.0 rest in
            let (others, differs) = (IsUnseen-iff r rs seen).0 new in
            ((unseen, others), (differs, distinct), (linked, digest, links)),
        λ g.
            let ((unseen, others), (differs, distinct), (linked, digest, links)) = g in
            verify_step r rs index seen previous unseen linked digest
            ∙ later.1 ((IsUnseen-iff r rs seen).1 (others, differs), distinct, links),
      )

  none_seen : (rs : List (EvidenceRecord Mapping)) → All (IsUnseen []) rs
  none_seen [] = tt
  none_seen (r ∷ rs) = (refl, none_seen rs)

  -- `verify_chain` finds all of the given records valid exactly if their identifiers are distinct,
  -- each names the digest of the one before it, the first none, and each has the digest of its own
  -- link, metadata and content.
  pub verify_chain-IsChain :
      (rs : List (EvidenceRecord Mapping))
      → (verify_chain hash canonical rs ≡ ok (verified (length rs))) ↔ IsChain rs
  unfolding verify_chain
  verify_chain-IsChain rs =
      let whole = verify_from_iff rs 0 (length rs) [] none (omega arith) in
      (
        λ h. let (_, distinct, links) = whole.0 h in (distinct, links),
        λ c. whole.1 (none_seen rs, c.0, c.1),
      )
