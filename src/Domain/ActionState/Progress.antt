-- ===== src/Domain/ActionState/Progress.antt =====
-- Runs of transitions, and how many an action has left.
use vuln_proof_claw.Common.{ℕ, suc, ◌+◌, ◌≤◌, true, false, ◌≡◌, Option, none, some, arith}
use vuln_proof_claw.Common.Results.{ok, err}
use vuln_proof_claw.Domain.Enums.{ActionState, action_state_eq}
use vuln_proof_claw.Domain.Errors.{Time, invalid_action_transition}
use vuln_proof_claw.Domain.Models.{Action, validate_action, Approval, earlier}
use vuln_proof_claw.Domain.ActionState.{
  may_move, moved, needs_approval, is_terminal, transition_action,
}
use vuln_proof_claw.Domain.ActionState.Success.{transition_action-Made}

-- One transition that is made, with any approval and at any time.
pub data Step (a b : Action) : Type 0 where
  step :
      (target : ActionState) (approval : Option Approval) (at : Option Time) (now : Time)
      → transition_action a target approval at now ≡ ok b
      → Step a b

-- `n` transitions in a row.
pub data Run (a : Action) : ℕ → Action → Type 0 where
  here : Run a 0 a
  next : {n : ℕ} {b c : Action} → Run a n b → Step b c → Run a (suc n) c

-- The transitions that can still be made from a state, at most.
abbrev pub moves_left : ActionState → ℕ
moves_left ActionState.proposed = 5
moves_left ActionState.policy_check = 4
moves_left ActionState.pending_approval = 3
moves_left ActionState.queued = 2
moves_left ActionState.running = 1
moves_left _ = 0

moves_left-may_move : (s t : ActionState) → may_move s t ≡ true → suc (moves_left t) ≤ moves_left s
unfolding may_move
moves_left-may_move s t h = ground arith

Step-moves_left : {a b : Action} → Step a b → suc (moves_left b.state) ≤ moves_left a.state
unfolding moved
Step-moves_left {a} {b} (step target approval at now h) =
    let made = transition_action-Made a target approval at now h in
    ground (arith, made.result, moves_left-may_move a.state target made.allowed)

-- The transitions of a run and the `moves_left` of its last state are together at most the
-- `moves_left` of its first: five from `proposed`, none from a terminal state.
pub Run-moves_left :
    {a b : Action} {n : ℕ} → Run a n b → n + moves_left b.state ≤ moves_left a.state
Run-moves_left here = omega arith
Run-moves_left (next r s) = omega (arith, Run-moves_left r, Step-moves_left s)

-- Whatever is asked of an action in a terminal state is refused, with an error that names the two
-- states.
transition_action-terminal :
    (a : Action) (target : ActionState) (approval : Option Approval) (at : Option Time) (now : Time)
    → is_terminal a.state ≡ true
    → transition_action a target approval at now ≡ err (invalid_action_transition a.state target)
unfolding transition_action may_move is_terminal
transition_action-terminal a target approval at now h = ground arith

-- An action that is valid and not in a terminal state can be cancelled at any time that is not
-- before its creation or its start, with no approval; it is then terminal, it has that time as its
-- completion, and its start is kept.
pub transition_action-cancelled :
    (a : Action) (t now : Time)
    → is_terminal a.state ≡ false
    → validate_action a ≡ ok a
    → earlier (some t) (some a.created_at) ≡ false
    → earlier (some t) a.started_at ≡ false
    → transition_action a ActionState.cancelled none (some t) now
      ≡ ok (record a { state = ActionState.cancelled; completed_at = some t })
unfolding transition_action may_move is_terminal needs_approval moved validate_action
transition_action-cancelled a t now h v c s = ground arith
