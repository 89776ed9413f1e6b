-- ===== src/Agent/Leads/Attempts.antt =====
-- A lead through any work on it.
use vuln_proof_claw.Common.{ℕ, suc, ◌+◌, ◌≤◌, Bool, true, ◌≡◌, arith, String, ap, not}
use vuln_proof_claw.Common.Results.{ok, >>=-eq-ok}
use vuln_proof_claw.Domain.Enums.{reawakenable}
use vuln_proof_claw.Domain.Errors.{Time, require_text, refuse_if}
use vuln_proof_claw.Domain.Autonomous.{MissionBudget, MissionCadence}
use vuln_proof_claw.Agent.Leads.{
  Floats, Lead, evaluate_eligibility, begin_attempt, record_failure, record_blocked,
  record_rejected, mark_stale, reawaken,
}
use vuln_proof_claw.Agent.Leads.Eligibility.{
  evaluate_eligibility-IsEligible, validate_lead-ok, record_failure-ok,
}

module _ (floats : Floats) where
  -- What the controller may do to a lead that is not a new attempt.
  pub data Records (l l' : Lead floats) : Type 0 where
    failed :
        (reason : String) (cadence : MissionCadence) (now : Time)
        → record_failure floats l reason cadence now ≡ ok l'
        → Records l l'
    blocked :
        (reason : String) (now : Time) → record_blocked floats l reason now ≡ ok l' → Records l l'
    rejected :
        (reason : String) (now : Time) → record_rejected floats l reason now ≡ ok l' → Records l l'
    grew_stale : (now : Time) → mark_stale floats l now ≡ ok l' → Records l l'
    woke : (reason : String) (now : Time) → reawaken floats l reason now ≡ ok l' → Records l l'

  -- `n` attempts at a lead, each begun when the lead was eligible, and what was recorded in between.
  pub data Work (budget : MissionBudget) (l : Lead floats) : ℕ → Lead floats → Type 0 where
    untouched : Work budget l 0 l
    attempt :
        {n : ℕ} {k k' : Lead floats} (now : Time) (new_evidence : Bool)
        → Work budget l n k
        → (evaluate_eligibility floats k now budget new_evidence).eligible ≡ true
        → begin_attempt floats k now ≡ ok k'
        → Work budget l (suc n) k'
    record_it : {n : ℕ} {k k' : Lead floats} → Work budget l n k → Records k k' → Work budget l n k'

  abbrev attempts : Lead floats → ℕ
  attempts l = l.attempt_count

  begin-attempts :
      (l : Lead floats) (now : Time) {l' : Lead floats}
      → begin_attempt floats l now ≡ ok l'
      → l'.attempt_count ≡ l.attempt_count + 1
  unfolding begin_attempt
  begin-attempts l now h = ap attempts (validate_lead-ok floats _ h)

  -- No record changes the number of attempts.
  Records-attempts :
      (l : Lead floats) {l' : Lead floats} → Records l l' → l'.attempt_count ≡ l.attempt_count
  unfolding record_blocked record_rejected mark_stale reawaken
  Records-attempts l (failed reason cadence now h) =
      (record_failure-ok floats l reason cadence now h).1
  Records-attempts l (blocked reason now h) =
      let (_, _, made) = >>=-eq-ok (require_text reason "reason") _ h in
      ap attempts (validate_lead-ok floats _ made)
  Records-attempts l (rejected reason now h) =
      let (_, _, made) = >>=-eq-ok (require_text reason "reason") _ h in
      ap attempts (validate_lead-ok floats _ made)
  Records-attempts l (grew_stale now h) = ap attempts (validate_lead-ok floats _ h)
  Records-attempts l (woke reason now h) =
      let (_, _, h1) = >>=-eq-ok (require_text reason "reason") _ h in
      let (_, _, made) = >>=-eq-ok (refuse_if (not (reawakenable l.status)) _) _ h1 in
      ap attempts (validate_lead-ok floats _ made)

  Work-attempts :
      {budget : MissionBudget} {l k : Lead floats} {n : ℕ}
      → Work budget l n k
      → l.attempt_count ≤ budget.maximum_lead_attempts
      → (k.attempt_count ≡ n + l.attempt_count) × (k.attempt_count ≤ budget.maximum_lead_attempts)
  Work-attempts untouched le = (omega arith, le)
  Work-attempts {budget = budget} (attempt {n} {k} now new_evidence w eligible h) le =
      let before = Work-attempts w le in
      let e = (evaluate_eligibility-IsEligible floats k now budget new_evidence).0 eligible in
      let one = begin-attempts k now h in
      (omega (arith, before.0, one), omega (arith, e.attempts, one))
  Work-attempts (record_it {k = k} w r) le =
      let before = Work-attempts w le in
      let same = Records-attempts k r in
      (omega (arith, before.0, same), omega (arith, before.1, same))

  -- Of a lead with no more attempts than the budget allows, the attempts begun when it was
  -- eligible, with any failures, blocks, rejections, staleness and returns to the queue recorded
  -- in between, and those before are together at most as many as the budget allows.
  pub Work-le :
      {budget : MissionBudget} {l k : Lead floats} {n : ℕ}
      → Work budget l n k
      → l.attempt_count ≤ budget.maximum_lead_attempts
      → n + l.attempt_count ≤ budget.maximum_lead_attempts
  Work-le w le = let facts = Work-attempts w le in omega (arith, facts.0, facts.1)
