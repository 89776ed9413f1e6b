-- ===== src/Domain/Finding/Review.antt =====
-- The evidence of a finding, through construction and review.
use vuln_proof_claw.Common.{
  true, ◌≡◌, ◌≢◌, Option, none, some, List, [], arith, String, ◌⊎◌, inl, inr, sym, subst, ap,
}
use vuln_proof_claw.Common.Unicode.{Unicode}
use vuln_proof_claw.Common.Results.{ok}
use vuln_proof_claw.Domain.Enums.{FindingStatus, VerificationMethod}
use vuln_proof_claw.Domain.Finding.{
  Finding, validate_finding, review_finding, is_unique, is_disjoint, requires_stated_method,
  is_differential, reviewed,
}

-- What a finding's evidence has to be, by its status, its severity and its method.
pub record IsBacked (f : Finding) : Type 0 where
  pub unique : (is_unique f.evidence_ids ≡ true) × (is_unique f.control_evidence_ids ≡ true)
  pub disjoint : is_disjoint f.evidence_ids f.control_evidence_ids ≡ true
  pub evidence : ¬ ((f.status ≡ FindingStatus.verified) × (f.evidence_ids ≡ []))
  pub method : ¬ ((f.status ≡ FindingStatus.verified) × (f.verification_method ≡ none))
  pub severe : ¬ ((requires_stated_method f.severity ≡ true) × (f.verification_method ≡ none))
  pub controls : ¬ (
      (f.status ≡ FindingStatus.verified)
      × (f.verification_method ≡ some VerificationMethod.differential)
      × (f.control_evidence_ids ≡ []))

module _ (unicode : Unicode) where
  -- A finding that construction accepts is returned unchanged, and its evidence is as `IsBacked`
  -- asks of its status, severity and method.
  pub validate_finding-IsBacked :
      (f : Finding) {g : Finding} → validate_finding unicode f ≡ ok g → (g ≡ f) × IsBacked f
  unfolding validate_finding is_differential
  validate_finding-IsBacked f h = ground arith

  -- An accepted review left the finding alone, or built the reviewed one.
  review_finding-ok :
      (f : Finding) (status : FindingStatus) (method : Option VerificationMethod)
      (controls : Option (List String)) {g : Finding}
      → review_finding unicode f status method controls ≡ ok g
      → (status ≢ FindingStatus.candidate)
        × (((g ≡ f) × (f.status ≡ status))
            ⊎ ((validate_finding unicode (reviewed f status method controls) ≡ ok g)
                × (¬ (
                    (f.status ≡ FindingStatus.verified)
                    × (status ≡ FindingStatus.pending_verification)))
                × (¬ (
                    (f.status ≡ FindingStatus.rejected)
                    × (status ≡ FindingStatus.pending_verification)))))
  unfolding review_finding
  review_finding-ok f status method controls h = ground arith

  -- A review that is accepted, of a finding that is backed: the result is backed too, it has the
  -- status that was asked for, which is never `candidate`; a verified or a rejected finding does not
  -- go back to pending verification; and its payload evidence, severity and identity are kept.
  pub review_finding-IsBacked :
      (f : Finding) (status : FindingStatus) (method : Option VerificationMethod)
      (controls : Option (List String)) {g : Finding}
      → IsBacked f
      → review_finding unicode f status method controls ≡ ok g
      → IsBacked g
        × (g.status ≡ status)
        × (status ≢ FindingStatus.candidate)
        × (¬ (
            (f.status ≡ FindingStatus.verified) × (g.status ≡ FindingStatus.pending_verification)))
        × (¬ (
            (f.status ≡ FindingStatus.rejected) × (g.status ≡ FindingStatus.pending_verification)))
        × (g.evidence_ids ≡ f.evidence_ids)
        × (g.severity ≡ f.severity)
        × (g.id ≡ f.id)
  unfolding reviewed
  review_finding-IsBacked f status method controls {g} backed h =
      let (kind, outcome) = review_finding-ok f status method controls h in
      elim outcome [
        | inl (same, stays) ↦ (
          subst IsBacked (sym same) backed,
          ground arith,
          kind,
          ground arith,
          ground arith,
          ground arith,
          ground arith,
          ground arith,
        )
        | inr (built, unverified, unrejected) ↦
            let (e, b) = validate_finding-IsBacked (reviewed f status method controls) built in
            (
              subst IsBacked (sym e) b,
              ap (λ (x : Finding). x.status) e,
              kind,
              ground arith,
              ground arith,
              ap (λ (x : Finding). x.evidence_ids) e,
              ap (λ (x : Finding). x.severity) e,
              ap (λ (x : Finding). x.id) e,
            )
      ]
