-- ===== src/Domain/ActionState.antt =====
-- domain/action_state.py: the lifecycle of an action.
pub mod Success
pub mod Approvals
pub mod Progress
pub mod Times
use vuln_proof_claw.Common.{
  Bool, ◌&&◌, ◌||◌, not, Option, none, some, List, [], ◌∷◌, ◌==◌, contains, or_else, if◌then◌else◌,
  String,
}
use vuln_proof_claw.Common.Results.{ok, err, raise_if, ◌>>◌}
use vuln_proof_claw.Domain.Enums.{
  ActionState, ActionState-discrete, action_state_eq, requires_approval,
}
use vuln_proof_claw.Domain.Errors.{
  Time, Raises, invalid_action_transition, approval_required, invalid_approval,
}
use vuln_proof_claw.Domain.Models.{Action, validate_action, Approval, authorizes}

-- `TERMINAL_ACTION_STATES`
abbrev pub terminal_action_states : List ActionState
terminal_action_states =
    ActionState.denied ∷ ActionState.succeeded ∷ ActionState.failed ∷ ActionState.timed_out
    ∷ ActionState.cancelled ∷ ActionState.worker_lost ∷ []

unfoldable pub is_terminal : ActionState → Bool
unfolding ActionState-discrete
is_terminal s = contains terminal_action_states s

-- `ACTION_TRANSITIONS.get(state, frozenset())`
unfoldable pub action_transitions : ActionState → List ActionState
action_transitions ActionState.proposed = ActionState.policy_check ∷ ActionState.cancelled ∷ []
action_transitions ActionState.policy_check =
    ActionState.denied ∷ ActionState.pending_approval ∷ ActionState.queued ∷ ActionState.cancelled
    ∷ []
action_transitions ActionState.pending_approval =
    ActionState.queued ∷ ActionState.denied ∷ ActionState.cancelled ∷ []
action_transitions ActionState.queued =
    ActionState.running ∷ ActionState.cancelled ∷ ActionState.worker_lost ∷ []
action_transitions ActionState.running =
    ActionState.succeeded ∷ ActionState.failed ∷ ActionState.timed_out ∷ ActionState.cancelled
    ∷ ActionState.worker_lost ∷ []
action_transitions _ = []

unfoldable pub may_move : ActionState → ActionState → Bool
unfolding action_transitions ActionState-discrete
may_move current target = contains (action_transitions current) target

-- Whether queueing the action needs an approval: by its risk, or because it waited for one.
unfoldable pub needs_approval : Action → ActionState → Bool
unfolding ActionState-discrete requires_approval
needs_approval a target =
    target == ActionState.queued
    && (requires_approval a.risk_level || a.state == ActionState.pending_approval)

-- The two checks on the approval of an action that needs one.
unfoldable pub check_approval : Option Approval → Action → Time → Raises (Unit {0})
check_approval none a at = err approval_required
check_approval (some p) a at = raise_if (not (authorizes p a at)) invalid_approval

abbrev pub approval_id_of : Option Approval → Option String → Option String
approval_id_of (some p) old = some p.id
approval_id_of none old = old

-- The fields that `replace` sets.
unfoldable pub moved : Action → ActionState → Option Approval → Time → Action
unfolding is_terminal
moved a target approval timestamp = record a {
  state = target;
  approval_id = approval_id_of approval a.approval_id;
  started_at = if target == ActionState.running then some timestamp else a.started_at;
  completed_at = if is_terminal target then some timestamp else a.completed_at;
}

-- `transition_action`. `at` is the optional argument and `now` what `utc_now()` reads.
unfoldable pub transition_action :
    Action → ActionState → Option Approval → Option Time → Time → Raises Action
transition_action a target approval at now = do
  raise_if (not (may_move a.state target)) (invalid_action_transition a.state target)
  let timestamp = or_else at now
  if needs_approval a target then check_approval approval a timestamp else ok tt
  validate_action (moved a target approval timestamp)
