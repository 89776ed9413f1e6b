-- ===== src/Agent/Leads/Promotion/Verdict.antt =====
-- What a finding that a lead was promoted to rests on.
use vuln_proof_claw.Common.{
  true, false, ◌≡◌, ◌≢◌, ◌⊎◌, inl, inr, Option, none, some, [], ◌∷◌, ◌++◌, String, arith, ap, ◌∙◌,
  sym, subst,
}
use vuln_proof_claw.Common.Results.{ok, ◌>>=◌, >>=-eq-ok}
use vuln_proof_claw.Common.Unicode.{Unicode}
use vuln_proof_claw.Domain.Enums.{FindingStatus, LeadStatus}
use vuln_proof_claw.Domain.Errors.{Time, require_text}
use vuln_proof_claw.Domain.Finding.{Finding, validate_finding}
use vuln_proof_claw.Domain.Finding.Review.{IsBacked, validate_finding-IsBacked}
use vuln_proof_claw.Agent.Leads.{Floats, Lead, validate_lead, record_blocked, record_rejected}
use vuln_proof_claw.Agent.Leads.Eligibility.{validate_lead-ok}
use vuln_proof_claw.Agent.Leads.Promotion.{
  VerificationOutcome, verification_verdict, finding_of, promote_verified, promote_to_finding,
  by_status, alone,
}

-- The answers that prove a claim: it is reproducible, not what is expected of the target, and of
-- consequence; it needs no destructive test; and its evidence and its method are stated.
pub record IsProven (o : VerificationOutcome) : Type 0 where
  pub reproducible : o.reproducible ≡ true
  pub unexpected : o.expected_behavior ≡ false
  pub impact : o.proves_security_impact ≡ true
  pub harmless : o.requires_destructive_testing ≡ false
  pub evidence : o.evidence_ids ≢ []
  pub method : o.verification_method ≢ none

verification_verdict-IsProven :
    (o : VerificationOutcome) → verification_verdict o ≡ FindingStatus.verified → IsProven o
unfolding verification_verdict
verification_verdict-IsProven o h = ground arith

verdict_cases :
    (o : VerificationOutcome)
    → (verification_verdict o ≡ FindingStatus.rejected)
      ⊎ ((verification_verdict o ≡ FindingStatus.needs_manual_review)
          ⊎ (verification_verdict o ≡ FindingStatus.verified))
unfolding verification_verdict
verdict_cases o = ground arith

module _ (floats : Floats) (unicode : Unicode) where
  -- A lead and the finding that it was promoted to.
  pub record Promoted (l : Lead floats) (o : VerificationOutcome) (id : String) (l' : Lead floats)
      (f : Finding) : Type 0 where
    pub proven : IsProven o
    pub backed : IsBacked f
    pub finding_verified : f.status ≡ FindingStatus.verified
    pub evidence : f.evidence_ids ≡ o.evidence_ids
    pub identity : f.id ≡ id
    pub engagement : f.engagement_id ≡ l.engagement_id
    pub lead_verified : l'.status ≡ LeadStatus.verified
    pub related : l'.related_findings ≡ l.related_findings ++ f.id ∷ []

  -- A lead that was not promoted: closed, or left to a human decision.
  abbrev pub IsParked : Lead floats → Type 0
  IsParked l' =
      (l'.status ≡ LeadStatus.rejected)
      ⊎ ((l'.status ≡ LeadStatus.needs_approval)
          × (l'.blocked_reason ≡ some "requires_manual_review"))

  -- What becomes of a lead, with the finding or without one.
  abbrev pub Ends :
      Lead floats → VerificationOutcome → String → Lead floats × Option Finding → Type 0
  Ends l o id (l', none) = IsParked l'
  Ends l o id (l', some f) = Promoted l o id l' f

  promote_verified-Ends :
      (l : Lead floats) (o : VerificationOutcome) (id : String) (now : Time)
      {out : Lead floats × Option Finding}
      → IsProven o
      → promote_verified floats unicode l o id now ≡ ok out
      → Ends l o id out
  unfolding promote_verified finding_of
  promote_verified-Ends l o id now {out} proven h =
      let (f, made, h1) = >>=-eq-ok (validate_finding unicode _) _ h in
      let (l', kept, h2) = >>=-eq-ok (validate_lead floats _) _ h1 in
      let (same, backed) = validate_finding-IsBacked unicode _ made in
      let lead = validate_lead-ok floats _ kept in
      let end : out ≡ (l', some f) = sym (cc h2) in
      subst (Ends l o id) (sym end) (record {
        proven = proven;
        backed = subst IsBacked (sym same) backed;
        finding_verified = ap (λ (x : Finding). x.status) same;
        evidence = ap (λ (x : Finding). x.evidence_ids) same;
        identity = ap (λ (x : Finding). x.id) same;
        engagement = ap (λ (x : Finding). x.engagement_id) same;
        lead_verified = ap (λ (x : Lead floats). x.status) lead;
        related = ap (λ (x : Lead floats). x.related_findings) lead;
      })

  alone-ok :
      (l : Lead floats) {out : Lead floats × Option Finding}
      → alone floats unicode l ≡ ok out
      → out ≡ (l, none)
  alone-ok l h = sym (cc h)

  rejected-Ends :
      (l : Lead floats) (o : VerificationOutcome) (id : String) (now : Time)
      {out : Lead floats × Option Finding}
      → (record_rejected floats l o.rationale now >>= alone floats unicode) ≡ ok out
      → Ends l o id out
  unfolding record_rejected
  rejected-Ends l o id now {out} h =
      let (l', made, h1) = >>=-eq-ok (record_rejected floats l o.rationale now) _ h in
      let (_, _, kept) = >>=-eq-ok (require_text o.rationale "reason") _ made in
      let lead = validate_lead-ok floats _ kept in
      subst (Ends l o id) (sym (alone-ok l' h1)) (inl (ap (λ (x : Lead floats). x.status) lead))

  blocked-Ends :
      (l : Lead floats) (o : VerificationOutcome) (id : String) (now : Time)
      {out : Lead floats × Option Finding}
      → (record_blocked floats l "requires_manual_review" now >>= alone floats unicode) ≡ ok out
      → Ends l o id out
  unfolding record_blocked
  blocked-Ends l o id now {out} h =
      let (l', made, h1) = >>=-eq-ok (record_blocked floats l "requires_manual_review" now) _ h in
      let (_, _, kept) = >>=-eq-ok (require_text "requires_manual_review" "reason") _ made in
      let lead = validate_lead-ok floats _ kept in
      subst (Ends l o id) (sym (alone-ok l' h1)) (
        inr (
          ap (λ (x : Lead floats). x.status) lead,
          ap (λ (x : Lead floats). x.blocked_reason) lead,
        ))

  -- Where `promote_to_finding` returns a finding, every answer that proves the claim was given, the
  -- finding is verified and backed by the evidence of the outcome, and the lead is verified and names
  -- the finding; where it returns none, the lead is rejected or awaits a manual review.
  pub promote_to_finding-Ends :
      (l : Lead floats) (o : VerificationOutcome) (id : String) (now : Time)
      {out : Lead floats × Option Finding}
      → promote_to_finding floats unicode l o id now ≡ ok out
      → Ends l o id out
  unfolding promote_to_finding by_status
  promote_to_finding-Ends l o id now {out} h = elim (verdict_cases o) [
    | inl rejected ↦ rejected-Ends l o id now {out = out} (sym (after rejected) ∙ h)
    | inr (inl manual) ↦ blocked-Ends l o id now {out = out} (sym (after manual) ∙ h)
    | inr (inr proven) ↦
        promote_verified-Ends l o id now {out = out} (verification_verdict-IsProven o proven)
          (sym (after proven) ∙ h)
  ]
    where
      after :
          {s : FindingStatus}
          → verification_verdict o ≡ s
          → promote_to_finding floats unicode l o id now ≡ by_status floats unicode l o id now s
      after e = ap (by_status floats unicode l o id now) e
