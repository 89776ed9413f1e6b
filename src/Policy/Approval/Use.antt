-- ===== src/Policy/Approval/Use.antt =====
-- What an approval covers, and how often it is consumed.
use vuln_proof_claw.Common.{
  ℕ, suc, ◌+◌, ◌≤◌, ◌<◌, true, ◌≡◌, refl, arith, ◌↔◌, ◌⊎◌, inl, inr, Bool-cases, eq_iff,
}
use vuln_proof_claw.Common.Results.{ok, err}
use vuln_proof_claw.Domain.Errors.{Time, invalid_approval}
use vuln_proof_claw.Domain.Models.{Action, Approval, authorizes, validate_approval_record}
use vuln_proof_claw.Policy.Approval.{validate_approval, consume_approval, used}

-- The approval is in force, not used up, and bound to each protected property of the action.
pub record Covers (p : Approval) (a : Action) (at : Time) : Type 0 where
  pub approved : p.approved_at ≤ at
  pub unexpired : at < p.expires_at
  pub unused : p.consumed_executions < p.permitted_executions
  pub engagement : p.engagement_id ≡ a.engagement_id
  pub action_type : p.action_type ≡ a.action_type
  pub target : p.normalized_target ≡ a.normalized_target
  pub parameters : p.parameter_digest ≡ a.parameter_digest
  pub risk : p.risk_level ≡ a.risk_level

-- An approval authorizes an action exactly if it is in force and not used up and agrees with the
-- action in engagement, type, target, parameters and risk.
pub authorizes-Covers :
    (p : Approval) (a : Action) (at : Time) → (authorizes p a at ≡ true) ↔ Covers p a at
unfolding authorizes
authorizes-Covers p a at = (
  λ h. ground (
    arith,
    eq_iff p.engagement_id a.engagement_id,
    eq_iff p.action_type a.action_type,
    eq_iff p.normalized_target a.normalized_target,
    eq_iff p.parameter_digest a.parameter_digest,
  ),
  λ h. ground (
    arith,
    eq_iff p.engagement_id a.engagement_id,
    eq_iff p.action_type a.action_type,
    eq_iff p.normalized_target a.normalized_target,
    eq_iff p.parameter_digest a.parameter_digest,
  ),
)

used-validate :
    (p : Approval)
    → validate_approval_record p ≡ ok p
    → p.consumed_executions < p.permitted_executions
    → validate_approval_record (used p) ≡ ok (used p)
unfolding validate_approval_record
used-validate p h lt = ground arith

-- Of a valid approval, consumption for an action that it covers gives a valid approval with one
-- execution more consumed and the same in all else, and consumption for any other action is
-- refused as an invalid approval.
consume_approval_lem :
    (p : Approval) (a : Action) (at : Time)
    → validate_approval_record p ≡ ok p
    → Covers p a at
        × (consume_approval p a at ≡ ok (used p))
        × (validate_approval_record (used p) ≡ ok (used p))
      ⊎ (¬ Covers p a at) × (consume_approval p a at ≡ err invalid_approval)
unfolding consume_approval validate_approval
consume_approval_lem p a at h = elim (Bool-cases (authorizes p a at)) [
  | inl covered ↦
      let c = (authorizes-Covers p a at).0 covered in
      let valid = used-validate p h c.unused in inl (c, rw covered valid, valid)
  | inr other ↦ inr (λ c. cc ((authorizes-Covers p a at).1 c), rw other)
]

-- `n` executions consumed in a row, each for some action at some time.
pub data Uses (p : Approval) : ℕ → Approval → Type 0 where
  unused : Uses p 0 p
  use_again :
      {n : ℕ} {q r : Approval} (a : Action) (at : Time)
      → Uses p n q
      → consume_approval q a at ≡ ok r
      → Uses p (suc n) r

pub consume_approval-ok :
    (p : Approval) (a : Action) (at : Time) {q : Approval}
    → consume_approval p a at ≡ ok q
    → (q ≡ used p) × (authorizes p a at ≡ true)
unfolding consume_approval validate_approval validate_approval_record
consume_approval-ok p a at h = ground arith

Uses-consumed :
    {p q : Approval} {n : ℕ}
    → Uses p n q
    → p.consumed_executions ≤ p.permitted_executions
    → (q.consumed_executions ≡ n + p.consumed_executions)
      × (q.permitted_executions ≡ p.permitted_executions)
      × (q.consumed_executions ≤ q.permitted_executions)
Uses-consumed unused le = (omega arith, refl, le)
Uses-consumed (use_again {q = q} a at uses h) le =
    let (e, authorized) = consume_approval-ok q a at h in
    let c = (authorizes-Covers q a at).0 authorized in
    ground (arith, Uses-consumed uses le, c.unused)

-- Of an approval that has consumed no more than it permits, the executions consumed in a row, for
-- any actions at any times, and those consumed before are together at most as many as it permits.
pub Uses-le :
    {p q : Approval} {n : ℕ}
    → Uses p n q
    → p.consumed_executions ≤ p.permitted_executions
    → n + p.consumed_executions ≤ p.permitted_executions
Uses-le uses le = let facts = Uses-consumed uses le in omega (arith, facts)
