-- ===== src/Agent/Planner/Accepted.antt =====
-- What a plan is that `validate_plan` of agent/planner.py accepts.
use vuln_proof_claw.Common.{
  ℕ, true, false, ◌≡◌, refl, ap, ◌∙◌, sym, none, List, String, ltb, codes, codes_beq_iff, arith,
}
use vuln_proof_claw.Common.Unicode.{Unicode}
use vuln_proof_claw.Common.Results.{ok, err, ◌>>=◌, >>=-eq-ok}
use vuln_proof_claw.Domain.Enums.{RiskLevel, risk_level_eq, requires_approval}
use vuln_proof_claw.Domain.Errors.{
  Raises, domain_validation, invalid_action_transition, approval_required, invalid_approval,
}
use vuln_proof_claw.Domain.Autonomous.{Mission, validate_mission, is_autonomous_risk}
use vuln_proof_claw.Policy.Risk.{classify_risk, is_permanently_denied, normalize_action_type}
use vuln_proof_claw.Policy.Risk.Known.{is_automatic, classify_risk-automatic}
use vuln_proof_claw.Policy.Decision.{risk_rank}
use vuln_proof_claw.Policy.Scope.{NormalizedTarget, target_text}
use vuln_proof_claw.Agent.Planner.{ResearchPlan, check_target, check_classified, validate_plan}

check_target-none :
    (target : String) (r : Raises NormalizedTarget)
    → check_target target r ≡ ok none
    → (t : NormalizedTarget) × (r ≡ ok t) × (target_text t ≡ codes target)
unfolding check_target
check_target-none target (ok t) h =
    (t, refl, (codes_beq_iff (target_text t) (codes target)).0 (ground arith))
check_target-none target (err (domain_validation _)) h = cc
check_target-none target (err (invalid_action_transition _ _)) h = cc
check_target-none target (err approval_required) h = cc
check_target-none target (err invalid_approval) h = cc

-- A level that a mission may run by itself needs no approval.
ceiling_free :
    (ceiling level : RiskLevel)
    → is_autonomous_risk ceiling ≡ true
    → ltb (risk_rank ceiling) (risk_rank level) ≡ false
    → requires_approval level ≡ false
unfolding risk_rank requires_approval
ceiling_free ceiling level capped within = ground arith

check_classified-none :
    (p : ResearchPlan) (m : Mission) (normalized : Raises NormalizedTarget) (level : RiskLevel)
    → check_classified p m normalized level ≡ ok none
    → (p.risk_level ≡ level)
      × (ltb (risk_rank m.maximum_autonomous_risk) (risk_rank level) ≡ false)
      × (check_target p.proposed_action.target normalized ≡ ok none)
unfolding check_classified
check_classified-none p m normalized level h =
    ((risk_level_eq.beq_iff p.risk_level level).0 (ground arith), ground arith, ground arith)

validate_mission-capped :
    (m : Mission) → validate_mission m ≡ ok m → is_autonomous_risk m.maximum_autonomous_risk ≡ true
unfolding validate_mission
validate_mission-capped m h = ground arith

module _ (unicode : Unicode) (normalize_target : String → Raises NormalizedTarget) where
  -- A plan that `validate_plan` accepts for a mission that passes its constructor's checks: its action
  -- type is not permanently denied, its risk is the one that the policy gives the action type, the normal
  -- form of the action type is one of the eight names that need no approval, and its target is spelled
  -- the way that `normalize_target` gives it.
  pub validate_plan-automatic :
      (p : ResearchPlan) (m : Mission)
      → validate_mission m ≡ ok m
      → validate_plan unicode normalize_target p m ≡ ok none
      → (is_permanently_denied unicode p.proposed_action.action_type ≡ ok false)
        × (classify_risk unicode p.proposed_action.action_type ≡ ok p.risk_level)
        × ((name : List ℕ) × (normalize_action_type unicode p.proposed_action.action_type ≡ ok name)
            × (is_automatic name ≡ true))
        × ((t : NormalizedTarget) × (normalize_target p.proposed_action.target ≡ ok t)
            × (target_text t ≡ codes p.proposed_action.target))
  unfolding validate_plan
  validate_plan-automatic p m valid h =
      let (denied, d, h1) =
        >>=-eq-ok (is_permanently_denied unicode p.proposed_action.action_type) _ h in
      let allowed : denied ≡ false = ground arith in
      let h2 : (classify_risk unicode p.proposed_action.action_type
            >>= check_classified p m (normalize_target p.proposed_action.target))
          ≡ ok none =
        rw allowed at h1 in
      let (level, c, h3) = >>=-eq-ok (classify_risk unicode p.proposed_action.action_type) _ h2 in
      let (same, within, target) = check_classified-none p m _ level h3 in
      let (name, n, _, _, automatic) =
        classify_risk-automatic unicode p.proposed_action.action_type c in
      let free =
        ceiling_free m.maximum_autonomous_risk level (validate_mission-capped m valid) within in
      (
        d ∙ ap ok allowed,
        c ∙ ap ok (sym same),
        (name, n, ground arith),
        check_target-none _ _ target,
      )
