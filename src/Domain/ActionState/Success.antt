-- ===== src/Domain/ActionState/Success.antt =====
-- What a transition that is made has checked, and the action that it gives.
use vuln_proof_claw.Common.{Bool, true, false, ◌≡◌, refl, Option, arith, or_else}
use vuln_proof_claw.Common.Results.{ok, err, ◌>>◌}
use vuln_proof_claw.Domain.Enums.{ActionState}
use vuln_proof_claw.Domain.Errors.{Time, Raises, refuse_if}
use vuln_proof_claw.Domain.Models.{Action, validate_action, Approval, earlier}
use vuln_proof_claw.Common.{some, String}
use vuln_proof_claw.Domain.ActionState.{
  may_move, needs_approval, check_approval, moved, transition_action,
}

-- What `__post_init__` has checked of the times of a constructed action.
pub record InOrder (a : Action) : Type 0 where
  pub started : earlier a.started_at (some a.created_at) ≡ false
  pub completed : earlier a.completed_at (some a.created_at) ≡ false
  pub ended : earlier a.completed_at a.started_at ≡ false

pub seq-ok :
    {B : Type 0} (m : Raises (Unit {0})) (k : Raises B) {b : B}
    → (m >> k) ≡ ok b
    → (m ≡ ok tt) × (k ≡ ok b)
seq-ok (ok tt) k h = (refl, h)
seq-ok (err e) k h = cc

pub refuse_if-ok : (t : Bool) (message : String) → refuse_if t message ≡ ok tt → t ≡ false
refuse_if-ok t message h = ground arith

pub validate_action-ok : (a : Action) {b : Action} → validate_action a ≡ ok b → (b ≡ a) × InOrder b
unfolding validate_action
validate_action-ok a h = ground arith

pub record Made (a : Action) (target : ActionState) (approval : Option Approval) (t : Time)
    (b : Action) : Type 0 where
  pub allowed : may_move a.state target ≡ true
  pub approved : needs_approval a target ≡ true → check_approval approval a t ≡ ok tt
  pub result : b ≡ moved a target approval t
  pub in_order : InOrder b

pub transition_action-Made :
    (a : Action) (target : ActionState) (approval : Option Approval) (at : Option Time) (now : Time)
    {b : Action}
    → transition_action a target approval at now ≡ ok b
    → Made a target approval (or_else at now) b
unfolding transition_action
transition_action-Made a target approval at now {b} h =
    ground (arith, validate_action-ok (moved a target approval (or_else at now)) {b = b})
