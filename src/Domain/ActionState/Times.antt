-- ===== src/Domain/ActionState/Times.antt =====
-- The times that the transitions leave on an action.
use vuln_proof_claw.Common.{ℕ, Bool, true, false, ◌≡◌, Option, none, arith, or_else, is_some, subst}
use vuln_proof_claw.Domain.Enums.{ActionState}
use vuln_proof_claw.Domain.Errors.{Time}
use vuln_proof_claw.Domain.Models.{Action, Approval}
use vuln_proof_claw.Domain.ActionState.{may_move, moved, is_terminal}
use vuln_proof_claw.Domain.ActionState.Success.{InOrder, transition_action-Made}
use vuln_proof_claw.Domain.ActionState.Progress.{step, Run, here, next}

-- The states that an action reaches only by running.
abbrev pub has_run : ActionState → Bool
has_run ActionState.running = true
has_run ActionState.succeeded = true
has_run ActionState.failed = true
has_run ActionState.timed_out = true
has_run _ = false

pub record IsTimed (a : Action) : Type 0 where
  pub ended : is_some a.completed_at ≡ is_terminal a.state
  pub ran : ¬ ((has_run a.state ≡ true) × (a.started_at ≡ none))
  pub in_order : InOrder a

moved-ended :
    (a : Action) (t : ActionState) (p : Option Approval) (u : Time)
    → may_move a.state t ≡ true
    → is_some a.completed_at ≡ is_terminal a.state
    → is_some (moved a t p u).completed_at ≡ is_terminal (moved a t p u).state
unfolding moved may_move is_terminal
moved-ended a t p u m h = ground arith

moved-ran :
    (a : Action) (t : ActionState) (p : Option Approval) (u : Time)
    → may_move a.state t ≡ true
    → ¬ ((has_run a.state ≡ true) × (a.started_at ≡ none))
    → ¬ ((has_run (moved a t p u).state ≡ true) × ((moved a t p u).started_at ≡ none))
unfolding moved may_move
moved-ran a t p u m h = ground arith

start-IsTimed :
    (a : Action)
    → a.state ≡ ActionState.proposed
    → a.started_at ≡ none
    → a.completed_at ≡ none
    → IsTimed a
unfolding is_terminal
start-IsTimed a e s c = ground arith

moved-IsTimed :
    (a : Action) (t : ActionState) (p : Option Approval) (u : Time)
    → may_move a.state t ≡ true
    → InOrder (moved a t p u)
    → IsTimed a
    → IsTimed (moved a t p u)
moved-IsTimed a t p u m order before = record {
  ended = moved-ended a t p u m before.ended;
  ran = moved-ran a t p u m before.ran;
  in_order = order;
}

-- From `proposed` with no start and no completion, after any transitions: there is a completion
-- time exactly in the terminal states, there is a start time wherever the action has run, and no
-- time is earlier than the creation, nor the completion earlier than the start.
pub Run-IsTimed :
    {a b : Action} {n : ℕ}
    → a.state ≡ ActionState.proposed
    → a.started_at ≡ none
    → a.completed_at ≡ none
    → Run a n b
    → IsTimed b
Run-IsTimed {a} e s c here = start-IsTimed a e s c
Run-IsTimed e s c (next {b = b} run (step target approval at now h)) =
    let made = transition_action-Made b target approval at now h in
    let t = or_else at now in
    rw made.result (
      moved-IsTimed b target approval t made.allowed (subst InOrder made.result made.in_order)
        (Run-IsTimed e s c run))
