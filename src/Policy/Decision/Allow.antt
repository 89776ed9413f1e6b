-- ===== src/Policy/Decision/Allow.antt =====
-- What a decision to allow rests on.
use vuln_proof_claw.Common.{
  ◌≤◌, Bool, true, false, ◌≡◌, ◌↔◌, ◌⊎◌, inl, inr, Option, arith, codes, String, ◌≢◌, ◌∙◌, sym,
  subst, ap,
}
use vuln_proof_claw.Common.Unicode.{Unicode}
use vuln_proof_claw.Common.Results.{ok, >>=-eq-ok}
use vuln_proof_claw.Domain.Enums.{RiskLevel, risk_level_eq}
use vuln_proof_claw.Domain.Errors.{Time, Raises}
use vuln_proof_claw.Domain.Models.{Action, Approval}
use vuln_proof_claw.Policy.Approval.Use.{authorizes-Covers}
use vuln_proof_claw.Policy.Risk.{classify_risk, is_permanently_denied}
use vuln_proof_claw.Policy.Scope.{
  IpLibrary, NormalizedTarget, EngagementScope, ScopeDecision, evaluate_scope, evaluate_scope_text,
  target_text,
}
use vuln_proof_claw.Policy.Scope.Allowed.{evaluate_scope-Passes}
use vuln_proof_claw.Policy.Scope.Described.{InScope, evaluate_scope-InScope}
use vuln_proof_claw.Policy.Decision.{
  DecisionKind, PolicyConfig, PolicyDecision, Verdict, risk_rank, approval_needed, verdict,
  decide_action,
}
use vuln_proof_claw.Policy.Decision.Verdicts.{
  Approved, Admissible, approval_verdict-allow, verdict-allow, allow-verdict,
  allow-approval_verdict,
}

module _ (unicode : Unicode) (ip : IpLibrary)
    (normalize_target : String → Raises NormalizedTarget) where
  open ip use {Network}

  -- The grounds of a decision to allow, with the approval that it names: the target is normal and in
  -- scope, the action type is not permanently denied, its own risk is the one that the action claims
  -- and is within the engagement's maximum, an L4 action needs the engagement's consent, and the
  -- approval that the risk asks for covers the action.
  pub record Grounds (a : Action) (scope : EngagementScope Network) (config : PolicyConfig)
      (at : Time) (approval : Option Approval) (d : PolicyDecision) : Type 0 where
    pub normal : normalize_target a.normalized_target ≡ ok d.target
    pub spelled : codes a.normalized_target ≡ target_text d.target
    pub in_scope : InScope ip d.target scope at
    pub permitted : is_permanently_denied unicode a.action_type ≡ ok false
    pub classified : classify_risk unicode a.action_type ≡ ok a.risk_level
    pub within_maximum : risk_rank a.risk_level ≤ risk_rank config.maximum_risk
    pub consented : (a.risk_level ≢ RiskLevel.l4) ⊎ (config.destructive_actions_enabled ≡ true)
    pub approved : Approved a a.risk_level config approval at d.approval_id

  -- The steps of `decide_action`, where it returns a decision.
  record Decided (a : Action) (scope : EngagementScope Network) (config : PolicyConfig) (at : Time)
      (approval : Option Approval) (d : PolicyDecision) : Type 0 where
    target : NormalizedTarget
    level : RiskLevel
    permanent : Bool
    normal : normalize_target a.normalized_target ≡ ok target
    classified : classify_risk unicode a.action_type ≡ ok level
    denied : is_permanently_denied unicode a.action_type ≡ ok permanent
    kind :
        d.kind
        ≡ (verdict a permanent (evaluate_scope ip target scope at) level config approval at).0
    named :
        d.approval_id
        ≡ (verdict a permanent (evaluate_scope ip target scope at) level config approval at).2
    same_level : d.risk_level ≡ level
    same_target : d.target ≡ (evaluate_scope ip target scope at).target

  decide_action-Decided :
      (a : Action) (scope : EngagementScope Network) (config : PolicyConfig) (at : Time)
      (approval : Option Approval) {d : PolicyDecision}
      → decide_action unicode ip normalize_target a scope config at approval ≡ ok d
      → Decided a scope config at approval d
  unfolding decide_action evaluate_scope_text
  decide_action-Decided a scope config at approval {d} h =
      let (sd, e, h') =
        >>=-eq-ok (evaluate_scope_text ip normalize_target a.normalized_target scope at) _ h in
      let (t, normal, same) = >>=-eq-ok (normalize_target a.normalized_target) _ e in
      let (level, classified, h'') = >>=-eq-ok (classify_risk unicode a.action_type) _ h' in
      let (permanent, denied, made) =
        >>=-eq-ok (is_permanently_denied unicode a.action_type) _ h'' in
      record {
        target = t;
        level = level;
        permanent = permanent;
        normal = normal;
        classified = classified;
        denied = denied;
        kind = ground arith;
        named = ground arith;
        same_level = ground arith;
        same_target = ground arith;
      }

  module _ (a : Action) (scope : EngagementScope Network) (config : PolicyConfig) (at : Time)
      (approval : Option Approval) {d : PolicyDecision}
      (made : Decided a scope config at approval d) where
    abbrev scoped : ScopeDecision
    scoped = evaluate_scope ip made.target scope at

    abbrev outcome : Verdict
    outcome = verdict a made.permanent scoped made.level config approval at

    target_kept : d.target ≡ made.target
    target_kept = made.same_target ∙ (evaluate_scope-Passes ip made.target scope at).2

    allowed-Grounds : d.kind ≡ DecisionKind.allow → Grounds a scope config at approval d
    allowed-Grounds k =
        let (admissible, by_approval) =
          verdict-allow a made.permanent scoped made.level config approval at (sym made.kind ∙ k) in
        let (permanent, allowed, spelled, risk, maximum, consent) = admissible in
        let at_level = λ (l : RiskLevel). Approved a l config approval at d.approval_id in
        record {
          normal = rw target_kept made.normal;
          spelled = rw made.same_target spelled;
          in_scope =
              subst (λ t. InScope ip t scope at) (sym target_kept)
                ((evaluate_scope-InScope ip made.target scope at).0 allowed);
          permitted = cc (made.denied, permanent);
          classified = cc (made.classified, risk);
          within_maximum =
              subst (λ l. risk_rank l ≤ risk_rank config.maximum_risk) (sym risk) maximum;
          consented =
              subst (λ l. (l ≢ RiskLevel.l4) ⊎ (config.destructive_actions_enabled ≡ true))
                (sym risk) consent;
          approved =
              subst at_level (sym risk)
                (elim (approval_verdict-allow (approval_needed made.level config) a approval at
                  (ap (λ (v : Verdict). v.0) (sym by_approval) ∙ sym made.kind ∙ k)) [
                    | inl (unneeded, named) ↦
                        inl (unneeded, made.named ∙ ap (λ (v : Verdict). v.2) by_approval ∙ named)
                    | inr (p, needed, given, authorized, named) ↦ inr (
                      p,
                      needed,
                      given,
                      (authorizes-Covers p a at).0 authorized,
                      made.named ∙ ap (λ (v : Verdict). v.2) by_approval ∙ named,
                    )
                  ]);
        }

    Grounds-allowed : Grounds a scope config at approval d → d.kind ≡ DecisionKind.allow
    Grounds-allowed g =
        let same_risk : a.risk_level ≡ made.level = cc (g.classified, made.classified) in
        let admissible : Admissible a made.permanent scoped made.level config = (
          cc (g.permitted, made.denied),
          (evaluate_scope-InScope ip made.target scope at).1
              (subst (λ t. InScope ip t scope at) target_kept g.in_scope),
          g.spelled ∙ ap target_text made.same_target,
          same_risk,
          subst (λ l. risk_rank l ≤ risk_rank config.maximum_risk) same_risk g.within_maximum,
          subst (λ l. (l ≢ RiskLevel.l4) ⊎ (config.destructive_actions_enabled ≡ true)) same_risk
              g.consented,
        ) in
        let by_approval =
          allow-verdict a made.permanent scoped made.level config approval at admissible in
        made.kind
        ∙ ap (λ (v : Verdict). v.0) by_approval
        ∙ allow-approval_verdict (approval_needed made.level config) a approval at
            (elim (subst (λ l. Approved a l config approval at d.approval_id) same_risk
              g.approved) [
                | inl (unneeded, _) ↦ inl unneeded
                | inr (p, needed, given, covers, _) ↦
                    inr (p, given, (authorizes-Covers p a at).1 covers)
              ])

  -- Where `decide_action` returns a decision, it allows the action exactly if all of `Grounds`
  -- holds: the target is normal, spelled that way and in scope, the action type is not permanently
  -- denied, its own risk is the one that the action claims and is within the engagement's maximum,
  -- an L4 action has the engagement's consent, and an approval that the risk asks for is given,
  -- covers the action and is named by the decision.
  pub decide_action-Grounds :
      (a : Action) (scope : EngagementScope Network) (config : PolicyConfig) (at : Time)
      (approval : Option Approval) {d : PolicyDecision}
      → decide_action unicode ip normalize_target a scope config at approval ≡ ok d
      → (d.kind ≡ DecisionKind.allow) ↔ Grounds a scope config at approval d
  decide_action-Grounds a scope config at approval {d} h =
      let made = decide_action-Decided a scope config at approval {d = d} h in
      (
        allowed-Grounds a scope config at approval made,
        Grounds-allowed a scope config at approval made,
      )
