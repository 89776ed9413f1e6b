-- ===== src/Policy/Decision/Verdicts.antt =====
-- The tests of `decide_action` on the values that it has computed.
use vuln_proof_claw.Common.{
  ◌≤◌, Bool, true, false, ◌≡◌, refl, ◌⊎◌, inl, inr, Option, none, some, arith, codes, codes_beq_iff,
  String, ◌≢◌,
}
use vuln_proof_claw.Domain.Enums.{RiskLevel, risk_level_eq}
use vuln_proof_claw.Domain.Errors.{Time}
use vuln_proof_claw.Domain.Models.{Action, Approval, authorizes}
use vuln_proof_claw.Policy.Approval.Use.{Covers}
use vuln_proof_claw.Policy.Scope.{ScopeDecision, target_text}
use vuln_proof_claw.Policy.Decision.{
  DecisionKind, PolicyConfig, risk_rank, approval_needed, approval_verdict, verdict,
}

-- The approval part of a decision to allow: none is needed, and none is named; or one was given
-- that covers the action, and it is named.
abbrev pub Approved :
    Action → RiskLevel → PolicyConfig → Option Approval → Time → Option String → Type 0
Approved a level config approval at named =
    (approval_needed level config ≡ false) × (named ≡ none)
    ⊎ ((p : Approval) × (approval_needed level config ≡ true)
        × (approval ≡ some p)
        × Covers p a at
        × (named ≡ some p.id))

-- What the tests before the approval ask, of values computed beforehand.
abbrev pub Admissible : Action → Bool → ScopeDecision → RiskLevel → PolicyConfig → Type 0
Admissible a permanent d level config =
    (permanent ≡ false)
    × (d.allowed ≡ true)
    × (codes a.normalized_target ≡ target_text d.target)
    × (a.risk_level ≡ level)
    × (risk_rank level ≤ risk_rank config.maximum_risk)
    × ((level ≢ RiskLevel.l4) ⊎ (config.destructive_actions_enabled ≡ true))

pub approval_verdict-allow :
    (needed : Bool) (a : Action) (approval : Option Approval) (at : Time)
    → ((approval_verdict needed a approval at).0 ≡ DecisionKind.allow)
    → (needed ≡ false) × ((approval_verdict needed a approval at).2 ≡ none)
      ⊎ ((p : Approval) × (needed ≡ true)
          × (approval ≡ some p)
          × (authorizes p a at ≡ true)
          × ((approval_verdict needed a approval at).2 ≡ some p.id))
unfolding approval_verdict
approval_verdict-allow false a approval at h = inl (refl, refl)
approval_verdict-allow true a none at h = cc
approval_verdict-allow true a (some p) at h = inr (p, refl, refl, ground arith, ground arith)

pub verdict-allow :
    (a : Action) (permanent : Bool) (d : ScopeDecision) (level : RiskLevel) (config : PolicyConfig)
    (approval : Option Approval) (at : Time)
    → (verdict a permanent d level config approval at).0 ≡ DecisionKind.allow
    → Admissible a permanent d level config
      × (verdict a permanent d level config approval at
          ≡ approval_verdict (approval_needed level config) a approval at)
unfolding verdict
verdict-allow a permanent d level config approval at h =
    ground (arith, codes_beq_iff (codes a.normalized_target) (target_text d.target))

-- The other way: an admissible and approved action is allowed.
pub allow-verdict :
    (a : Action) (permanent : Bool) (d : ScopeDecision) (level : RiskLevel) (config : PolicyConfig)
    (approval : Option Approval) (at : Time)
    → Admissible a permanent d level config
    → verdict a permanent d level config approval at
      ≡ approval_verdict (approval_needed level config) a approval at
unfolding verdict
allow-verdict a permanent d level config approval at h =
    ground (arith, codes_beq_iff (codes a.normalized_target) (target_text d.target))

pub allow-approval_verdict :
    (needed : Bool) (a : Action) (approval : Option Approval) (at : Time)
    → (needed ≡ false) ⊎ ((p : Approval) × (approval ≡ some p) × (authorizes p a at ≡ true))
    → (approval_verdict needed a approval at).0 ≡ DecisionKind.allow
unfolding approval_verdict
allow-approval_verdict false a approval at h = refl
allow-approval_verdict true a none at h = ground arith
allow-approval_verdict true a (some p) at h = ground arith
