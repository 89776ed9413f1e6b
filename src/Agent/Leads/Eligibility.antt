-- ===== src/Agent/Leads/Eligibility.antt =====
-- Which leads the controller may work on.
use vuln_proof_claw.Common.{
  ◌+◌, ◌≤◌, ◌<◌, Bool, true, false, ◌≡◌, ◌↔◌, ◌⊎◌, inl, inr, some, arith, String, ap, ◌∙◌, subst,
}
use vuln_proof_claw.Common.Results.{ok, >>=-eq-ok}
use vuln_proof_claw.Domain.Enums.{eligible_for_scheduling}
use vuln_proof_claw.Domain.Errors.{Time, require_text}
use vuln_proof_claw.Domain.Autonomous.{MissionBudget, MissionCadence}
use vuln_proof_claw.Agent.Scheduler.{next_attempt_at}
use vuln_proof_claw.Agent.Leads.{
  Floats, Lead, truthy, cooling, validate_lead, evaluate_eligibility, record_failure,
}

module _ (floats : Floats) where
  -- The lead is open, not blocked, has attempts left, is past its cooldown, and has new evidence if
  -- it has failed.
  pub record IsEligible (l : Lead floats) (now : Time) (budget : MissionBudget)
      (new_evidence : Bool) : Type 0 where
    pub status : eligible_for_scheduling l.status ≡ true
    pub unblocked : truthy l.blocked_reason ≡ false
    pub attempts : l.attempt_count < budget.maximum_lead_attempts
    pub cooled : cooling floats l.next_attempt now ≡ false
    pub evidence : (l.failure_count ≡ 0) ⊎ (new_evidence ≡ true)

  -- A lead is eligible exactly if its status is open to scheduling, it is not blocked, it has
  -- attempts left, its cooldown is over, and it has never failed or has new evidence.
  pub evaluate_eligibility-IsEligible :
      (l : Lead floats) (now : Time) (budget : MissionBudget) (new_evidence : Bool)
      → ((evaluate_eligibility floats l now budget new_evidence).eligible ≡ true)
        ↔ IsEligible l now budget new_evidence
  unfolding evaluate_eligibility
  evaluate_eligibility-IsEligible l now budget new_evidence = (λ h. ground arith, λ e. ground arith)

  pub validate_lead-ok : (x : Lead floats) {l : Lead floats} → validate_lead floats x ≡ ok l → l ≡ x
  unfolding validate_lead
  validate_lead-ok x h = ground arith

  -- What recording a failure makes of a lead.
  pub record_failure-ok :
      (l : Lead floats) (reason : String) (cadence : MissionCadence) (now : Time) {l' : Lead floats}
      → record_failure floats l reason cadence now ≡ ok l'
      → (l'.failure_count ≡ l.failure_count + 1)
        × (l'.attempt_count ≡ l.attempt_count)
        × (l'.next_attempt ≡ some (next_attempt_at (l.failure_count + 1) cadence now))
  unfolding record_failure
  record_failure-ok l reason cadence now {l'} h =
      let (_, _, h1) = >>=-eq-ok (require_text reason "reason") _ h in
      let (failed, made, h2) = >>=-eq-ok (validate_lead floats _) _ h1 in
      let first = validate_lead-ok _ made in
      let second = validate_lead-ok _ h2 in
      let failures : failed.failure_count ≡ l.failure_count + 1 =
        ap (λ (x : Lead floats). x.failure_count) first in
      (
        ap (λ (x : Lead floats). x.failure_count) second ∙ failures,
        ap (λ (x : Lead floats). x.attempt_count) second
            ∙ ap (λ (x : Lead floats). x.attempt_count) first,
        ap (λ (x : Lead floats). x.next_attempt) second
            ∙ ap (λ n. some (next_attempt_at n cadence now)) failures,
      )

  -- A lead whose failure was recorded is eligible later only with new evidence, and only once the
  -- backoff of its failures is over.
  record_failure-waits :
      (l : Lead floats) (reason : String) (cadence : MissionCadence) (now : Time) {l' : Lead floats}
      (later : Time) (budget : MissionBudget) (new_evidence : Bool)
      → record_failure floats l reason cadence now ≡ ok l'
      → (evaluate_eligibility floats l' later budget new_evidence).eligible ≡ true
      → (new_evidence ≡ true) × (next_attempt_at (l.failure_count + 1) cadence now ≤ later)
  record_failure-waits l reason cadence now {l'} later budget new_evidence h eligible =
      let (failures, _, next) = record_failure-ok l reason cadence now h in
      let e = (evaluate_eligibility-IsEligible l' later budget new_evidence).0 eligible in
      (
        elim e.evidence [ inl never ↦ absurd (omega (arith, failures, never)) | inr given ↦ given ],
        let cooled = subst (λ n. cooling floats n later ≡ false) next e.cooled in ground arith,
      )
