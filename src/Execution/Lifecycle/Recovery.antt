-- ===== src/Execution/Lifecycle/Recovery.antt =====
-- `reconcile_after_restart` of execution/lifecycle.py: every execution that is in flight is closed as
-- lost, and so is its action if it is queued or running.
use vuln_proof_claw.Common.{
  Bool, false, ◌||◌, Option, none, some, List, [], ◌∷◌, String, ◌==◌, max, lookup, or_else,
  if◌then◌else◌, string_eq,
}
use vuln_proof_claw.Common.Results.{ok, ◌>>=◌}
use vuln_proof_claw.Domain.Enums.{ActionState, ActionState-discrete, action_state_eq, WorkerState}
use vuln_proof_claw.Domain.Errors.{Time}
use vuln_proof_claw.Domain.Models.{Action}
use vuln_proof_claw.Persistence.{Stored}
use vuln_proof_claw.Execution.Audit.{text, worker_state_value}
use vuln_proof_claw.Execution.Registry.{
  WorkerExecution, validate_execution, save_execution, list_in_flight,
}
use vuln_proof_claw.Execution.Lifecycle.{
  Ledger, Coordinates, raised_as, domain, store, action_state_value, audit, close_action,
}

-- `max(timestamp_floor)`
unfoldable pub reconciliation_time : Time → WorkerExecution → Option (Stored Action) → Time
reconciliation_time at e none = max at e.created_at
reconciliation_time at e (some a) =
    max (max (max at e.created_at) a.entity.created_at)
      (or_else a.entity.started_at a.entity.created_at)

-- The execution that is given up.
abbrev pub given_up : WorkerExecution → Time → WorkerExecution
given_up e at = record e {
  state = WorkerState.lost;
  cleaned_up = false;
  error_code = some "worker_recovery_unavailable";
  updated_at = at;
}

-- `QUEUED` or `RUNNING`
unfoldable pub is_started : ActionState → Bool
unfolding ActionState-discrete
is_started s = s == ActionState.queued || s == ActionState.running

module _ {Network : Type 0} where
  -- What becomes of the action, with its state for the event.
  unfoldable pub close_lost :
      Option (Stored Action) → Time → Ledger Network → Coordinates (String × Ledger Network)
  close_lost none at l = ok ("missing", l)
  close_lost (some a) at l =
      if is_started a.entity.state
      then (do
        closed ← close_action a ActionState.worker_lost at l
        ok (action_state_value ActionState.worker_lost, closed))
      else ok (action_state_value a.entity.state, l)

  -- The event of one reconciliation.
  unfoldable pub audit_lost :
      Stored WorkerExecution → String → Time → Ledger Network → Ledger Network
  audit_lost stored action_state at l =
      audit stored.entity.engagement_id "worker.reconciled_lost" "system:startup-recovery"
        (("worker_id", text stored.entity.id)
          ∷ ("previous_worker_state", text (worker_state_value stored.entity.state))
          ∷ ("action_state", text action_state)
          ∷ ("error_code", text "worker_recovery_unavailable")
          ∷ [])
        at l

  -- The body of the loop.
  unfoldable pub reconcile_one :
      Stored WorkerExecution
      → Time
      → Ledger Network
      → Coordinates (WorkerExecution × Ledger Network)
  reconcile_one stored at l = do
    let a = lookup stored.entity.action_id l.database.actions
    let then_at = reconciliation_time at stored.entity a
    lost ← raised_as domain (validate_execution (given_up stored.entity then_at))
    saved ← raised_as store (save_execution lost stored.version l.executions)
    closed ← close_lost a then_at (record l { executions = saved.1 })
    ok (saved.0.entity, audit_lost stored closed.0 then_at closed.1)

  unfoldable pub reconcile_all :
      List (Stored WorkerExecution)
      → Time
      → Ledger Network
      → Coordinates (List WorkerExecution × Ledger Network)
  reconcile_all [] at l = ok ([], l)
  reconcile_all (stored ∷ todo) at l = do
    first ← reconcile_one stored at l
    rest ← reconcile_all todo at first.1
    ok (first.0 ∷ rest.0, rest.1)

  unfoldable pub reconcile_after_restart :
      Time → Ledger Network → Coordinates (List WorkerExecution × Ledger Network)
  unfolding reconcile_all
  reconcile_after_restart at l = reconcile_all (list_in_flight l.executions) at l
