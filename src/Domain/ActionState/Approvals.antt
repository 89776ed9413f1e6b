-- ===== src/Domain/ActionState/Approvals.antt =====
-- The approvals behind the actions that have been queued.
use vuln_proof_claw.Common.{
  Bool, true, false, ◌≡◌, ◌⊎◌, refl, inl, inr, Option, none, some, arith, or_else, String, ◌∙◌,
  List, [], ◌∷◌, ◌++◌, ap,
}
use vuln_proof_claw.Common.Results.{ok}
use vuln_proof_claw.Domain.Enums.{ActionState, action_state_eq, requires_approval}
use vuln_proof_claw.Domain.Errors.{Time}
use vuln_proof_claw.Domain.Models.{Action, Approval, authorizes}
use vuln_proof_claw.Domain.ActionState.{
  may_move, needs_approval, check_approval, moved, approval_id_of, transition_action,
}
use vuln_proof_claw.Domain.ActionState.Success.{Made, transition_action-Made}

-- The states that an action reaches only through the queue.
abbrev pub past_queue : ActionState → Bool
past_queue ActionState.queued = true
past_queue ActionState.running = true
past_queue ActionState.succeeded = true
past_queue ActionState.failed = true
past_queue ActionState.timed_out = true
past_queue ActionState.worker_lost = true
past_queue _ = false

-- What a transition is given.
pub record Move : Type 0 where
  pub target : ActionState
  pub approval : Option Approval
  pub at : Option Time
  pub now : Time

-- `timestamp`
abbrev pub time_of : Move → Time
time_of m = or_else m.at m.now

-- Transitions that were all made, with what each was given, the last one first.
pub data Trace (a : Action) : List Move → Action → Type 0 where
  start : Trace a [] a
  then :
      {moves : List Move} {b c : Action} (m : Move)
      → Trace a moves b
      → transition_action b m.target m.approval m.at m.now ≡ ok c
      → Trace a (m ∷ moves) c

-- The identifier that an action carries after moves, from the one that it carried.
abbrev pub named_by : List Move → Option String → Option String
named_by [] id = id
named_by (m ∷ moves) id = approval_id_of m.approval (named_by moves id)

-- One of the moves queued the action, with an approval that authorizes exactly this action at the time
-- of that move; and the action carries that approval's identifier, or that of an approval that a later
-- move was given.
pub record IsAuthorized (moves : List Move) (a : Action) : Type 0 where
  pub later : List Move
  pub queueing : Move
  pub before_it : List Move
  pub placed : moves ≡ later ++ queueing ∷ before_it
  pub queues : queueing.target ≡ ActionState.queued
  pub approval : Approval
  pub given : queueing.approval ≡ some approval
  pub authorized : authorizes approval a (time_of queueing) ≡ true
  pub named : a.approval_id ≡ named_by later (some approval.id)

abbrev Backed : List Move → Action → Type 0
Backed moves a =
    requires_approval a.risk_level ≡ true → past_queue a.state ≡ true → IsAuthorized moves a

-- What an approval is compared with is not changed by a transition.
authorizes-moved :
    (p : Approval) (a : Action) (target : ActionState) (approval : Option Approval) (t u : Time)
    → authorizes p (moved a target approval t) u ≡ authorizes p a u
unfolding authorizes moved
authorizes-moved p a target approval t u = refl

enters_queue :
    (s t : ActionState)
    → may_move s t ≡ true
    → past_queue t ≡ true
    → (t ≡ ActionState.queued) ⊎ (past_queue s ≡ true)
unfolding may_move
enters_queue s t m p = ground arith

check_approval-ok :
    (approval : Option Approval) (a : Action) (t : Time)
    → check_approval approval a t ≡ ok tt
    → (p : Approval) × (approval ≡ some p) × (authorizes p a t ≡ true)
unfolding check_approval
check_approval-ok none a t h = cc
check_approval-ok (some p) a t h = (p, refl, ground arith)

needs_approval-queued :
    (a : Action) (t : ActionState)
    → t ≡ ActionState.queued
    → requires_approval a.risk_level ≡ true
    → needs_approval a t ≡ true
unfolding needs_approval
needs_approval-queued a t e r = ground arith

moved-Backed :
    (a : Action) (m : Move) (moves : List Move) {b : Action}
    → Made a m.target m.approval (time_of m) b
    → Backed moves a
    → Backed (m ∷ moves) (moved a m.target m.approval (time_of m))
unfolding moved
moved-Backed a m moves made backed r q = elim (enters_queue a.state m.target made.allowed q) [
  | inl queued ↦
      let (p, e, authorized) =
        check_approval-ok m.approval a (time_of m)
          (made.approved (needs_approval-queued a m.target queued r)) in
      record {
        later = [];
        queueing = m;
        before_it = moves;
        placed = refl;
        queues = queued;
        approval = p;
        given = e;
        authorized = authorizes-moved p a m.target m.approval (time_of m) (time_of m) ∙ authorized;
        named = ap (λ o. approval_id_of o a.approval_id) e;
      }
  | inr before ↦
      let i = backed r before in
      record {
        later = m ∷ i.later;
        queueing = i.queueing;
        before_it = i.before_it;
        placed = ap (λ ms. m ∷ ms) i.placed;
        queues = i.queues;
        approval = i.approval;
        given = i.given;
        authorized =
            authorizes-moved i.approval a m.target m.approval (time_of m) (time_of i.queueing)
            ∙ i.authorized;
        named = ap (approval_id_of m.approval) i.named;
      }
]

Trace-Backed :
    {a b : Action} {moves : List Move}
    → a.state ≡ ActionState.proposed
    → Trace a moves b
    → Backed moves b
Trace-Backed e start = λ r q. ground arith
Trace-Backed e (then {moves = moves} {b = b} m trace h) =
    let made = transition_action-Made b m.target m.approval m.at m.now h in
    rw made.result (moved-Backed b m moves made (Trace-Backed e trace))

-- Transitions from `proposed`, with what each was given: if they bring an action whose risk asks for
-- an approval into the queue or to a state beyond it, then the move that queued it was given an
-- approval, that approval authorizes exactly this action at the time of that move, and the action
-- carries the identifier of that approval or of one that a later move was given.
pub Trace-IsAuthorized :
    {a b : Action} {moves : List Move}
    → a.state ≡ ActionState.proposed
    → Trace a moves b
    → requires_approval b.risk_level ≡ true
    → past_queue b.state ≡ true
    → IsAuthorized moves b
Trace-IsAuthorized e trace = Trace-Backed e trace
