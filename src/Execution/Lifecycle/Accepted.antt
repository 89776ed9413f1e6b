-- ===== src/Execution/Lifecycle/Accepted.antt =====
-- What `collect` of execution/lifecycle.py has found where an action is closed as succeeded.
use vuln_proof_claw.Common.{
  Bool, true, false, not, ◌≡◌, ◌≢◌, refl, ap, ◌∙◌, sym, subst, Option, some, String, ◌==◌, all,
  lookup, string_eq, arith, ◌⊎◌, inl, inr, Bool-cases,
}
use vuln_proof_claw.Common.Results.{ok, raise_if, >>=-eq-ok}
use vuln_proof_claw.Domain.Enums.{ActionState, action_state_eq, WorkerState}
use vuln_proof_claw.Domain.Errors.{Time}
use vuln_proof_claw.Domain.Models.{Action}
use vuln_proof_claw.Domain.ActionState.{is_terminal}
use vuln_proof_claw.Persistence.{Stored, Database}
use vuln_proof_claw.Execution.Protocol.{WorkerResponse, WorkerResultStatus}
use vuln_proof_claw.Execution.Manager.{WorkerHandle, Manages}
use vuln_proof_claw.Execution.Registry.{WorkerExecution, validate_execution, save_execution}
use vuln_proof_claw.Execution.Lifecycle.{
  Ledger, or_lifecycle, raised_as, lifecycle, is_of, handled, manager, domain, store,
  terminal_action_state, verify_response, save_handle, running_action, close_action,
}
use vuln_proof_claw.Execution.Lifecycle.Collect.{
  Persisted, Closing, with_capture, belongs, with_evidence, accept, collect,
}
use vuln_proof_claw.Execution.Lifecycle.Closed.{
  raised_as-ok, or_lifecycle-ok, raise_if-ok, terminal_action_state-is_terminal,
  terminal_action_state-succeeded, verify_response-ok, close_action-ClosedAs,
}
use vuln_proof_claw.Execution.Lifecycle.Passing.{
  with_capture-Passes, with_evidence_lem, Passes-succeeded,
}

not-false : (b : Bool) → not b ≡ false → b ≡ true
not-false b h = ground arith

succeeded-cause :
    {P : Type 0} (r : WorkerResponse) (h : WorkerHandle) {first : ActionState}
    (target : ActionState) (row : Stored Action)
    → row.entity.state ≡ target
    → first ≡ terminal_action_state r.status h.state
    → (target ≢ ActionState.succeeded) ⊎ (first ≡ target) × P
    → (row.entity.state ≢ ActionState.succeeded)
      ⊎ (r.status ≡ WorkerResultStatus.succeeded) × (h.state ≢ WorkerState.lost) × P
succeeded-cause r h target row state start (inl other) = inl (λ e. other (sym state ∙ e))
succeeded-cause r h target row state start (inr (same, p)) =
    elim (Bool-cases (target == ActionState.succeeded)) [
      | inr other ↦ inl (λ e.
          cc (other, (action_state_eq.beq_iff target ActionState.succeeded).1 (sym state ∙ e)))
      | inl success ↦
          let (reported, alive) =
            terminal_action_state-succeeded r.status h.state (
              sym start
              ∙ same
              ∙ (action_state_eq.beq_iff target ActionState.succeeded).0 success) in
          inr (reported, alive, p)
    ]

module _ {Network : Type 0} where
  pub save_handle-kept :
      (stored : Stored WorkerExecution) (h : WorkerHandle) (at : Time) (l : Ledger Network)
      {l' : Ledger Network}
      → save_handle stored h at l ≡ ok l'
      → l'.database ≡ l.database
  unfolding save_handle
  save_handle-kept stored h at l {l'} done =
      let (_, _, done') =
        >>=-eq-ok
          (raise_if (not (is_of h stored.entity))
            (lifecycle "worker_handle_registry_binding_mismatch"))
          _ done in
      let (updated, _, done'') =
        >>=-eq-ok (raised_as domain (validate_execution (handled stored.entity h at))) _ done' in
      let (saved, _, made) =
        >>=-eq-ok (raised_as store (save_execution updated stored.version l.executions)) _ done'' in
      let left : record l { executions = saved.1 } ≡ l' = ground arith in
      ap (λ (x : Ledger Network). x.database) (sym left)

  running_action-ok :
      (action_id : String) (l : Ledger Network) {a : Stored Action}
      → running_action action_id l ≡ ok a
      → (lookup action_id l.database.actions ≡ some a) × (a.entity.state ≡ ActionState.running)
  unfolding running_action
  running_action-ok action_id l {a} h =
      let (stored, found, h') =
        >>=-eq-ok (or_lifecycle (lookup action_id l.database.actions) "action_not_running") _ h in
      let (_, running, made) =
        >>=-eq-ok
          (raise_if (not (stored.entity.state == ActionState.running))
            (lifecycle "action_not_running"))
          _ h' in
      let same : stored ≡ a = ground arith in
      (
        or_lifecycle-ok _ _ found ∙ ap some same,
        ap (λ (x : Stored Action). x.entity.state) (sym same)
            ∙ (action_state_eq.beq_iff stored.entity.state ActionState.running).0
                (not-false (stored.entity.state == ActionState.running) (raise_if-ok _ _ running)),
      )

  -- What `collect` found and left: the action of the execution, which was running and now stands in a
  -- terminal state; a response bound to the execution; and for success, a worker that reported success and
  -- was not lost, and a response all of whose evidence belongs to the execution's action.
  pub record Outcome (stored : Stored WorkerExecution) (reported : WorkerResponse)
      (h : WorkerHandle) (accepted : WorkerResponse) (l l' : Ledger Network) : Type 0 where
    pub action : Stored Action
    pub read : lookup stored.entity.action_id l.database.actions ≡ some action
    pub running : action.entity.state ≡ ActionState.running
    pub row : Stored Action
    pub written : lookup action.entity.id l'.database.actions ≡ some row
    pub ended : is_terminal row.entity.state ≡ true
    pub same_request : reported.request_id ≡ stored.entity.request_id
    pub same_engagement : reported.engagement_id ≡ stored.entity.engagement_id
    pub same_action : reported.action_id ≡ stored.entity.action_id
    pub success :
        (row.entity.state ≢ ActionState.succeeded)
        ⊎ (reported.status ≡ WorkerResultStatus.succeeded)
          × (h.state ≢ WorkerState.lost)
          × (all (belongs l'.evidence stored.entity.action_id) accepted.evidence_ids ≡ true)

  module _ (persist : WorkerResponse → Action → Ledger Network → Persisted Network) where
    closed-Outcome :
        (stored : Stored WorkerExecution) (r : WorkerResponse) (h : WorkerHandle)
        (action : Stored Action) (at : Time) (l saved closed l' : Ledger Network)
        (first captured c : Closing Network)
        → verify_response r stored.entity ≡ ok tt
        → saved.database ≡ l.database
        → running_action stored.entity.action_id saved ≡ ok action
        → first ≡ record {
          response = r;
          target = terminal_action_state r.status h.state;
          error_code = r.error_code;
          ledger = saved;
        }
        → with_capture persist action.entity first ≡ ok captured
        → with_evidence captured ≡ ok c
        → close_action action c.target at c.ledger ≡ ok closed
        → l'.database ≡ closed.database
        → l'.evidence ≡ closed.evidence
        → Outcome stored r h c.response l l'
    closed-Outcome stored r h action at l saved closed l' first captured c verified same_db run
          start capture evidence close db ev =
        let bound = verify_response-ok r stored.entity verified in
        let (read, running) = running_action-ok stored.entity.action_id saved run in
        let first_ended : is_terminal first.target ≡ true =
          ap (λ (x : Closing Network). is_terminal x.target) start
          ∙ terminal_action_state-is_terminal r.status h.state in
        let p = with_capture-Passes persist action.entity first captured first_ended capture in
        let (q, checked) = with_evidence_lem captured c p.ended evidence in
        let closing = close_action-ClosedAs action c.target at c.ledger close in
        record {
          action = action;
          read =
              ap (λ (d : Database Network). lookup stored.entity.action_id d.actions) (sym same_db)
              ∙ read;
          running = running;
          row = closing.row;
          written =
              ap (λ (d : Database Network). lookup action.entity.id d.actions) db ∙ closing.found;
          ended = ap is_terminal closing.state ∙ q.ended;
          same_request = bound.0;
          same_engagement = bound.1;
          same_action = bound.2;
          success =
              succeeded-cause r h c.target closing.row closing.state
                (ap (λ (x : Closing Network). x.target) start)
                (elim (Passes-succeeded first captured c stored.entity.action_id p q
                  (ap (λ (x : Closing Network). x.response.action_id) start ∙ bound.2) checked) [
                    | inl other ↦ inl other
                    | inr (same, belonging) ↦ inr (
                      same,
                      ap
                            (λ rows.
                              all (belongs rows stored.entity.action_id) c.response.evidence_ids)
                            (ev ∙ closing.evidence)
                          ∙ belonging,
                    )
                  ]);
        }

    accept-Outcome :
        (worker_id : String) (stored : Stored WorkerExecution) (r : WorkerResponse)
        (h : WorkerHandle) (at : Time) (l : Ledger Network) {accepted : WorkerResponse}
        {l' : Ledger Network}
        → accept persist worker_id stored r h at l ≡ ok (accepted, l')
        → Outcome stored r h accepted l l'
    unfolding accept
    accept-Outcome worker_id stored r h at l {accepted} {l'} done =
        let (u, verified, d1) = >>=-eq-ok (verify_response r stored.entity) _ done in
        let (saved, kept, d2) = >>=-eq-ok (save_handle stored h at l) _ d1 in
        let (action, run, d3) = >>=-eq-ok (running_action stored.entity.action_id saved) _ d2 in
        let first : Closing Network = record {
          response = r;
          target = terminal_action_state r.status h.state;
          error_code = r.error_code;
          ledger = saved;
        } in
        let (captured, capture, d4) = >>=-eq-ok (with_capture persist action.entity first) _ d3 in
        let (c, evidence, d5) = >>=-eq-ok (with_evidence captured) _ d4 in
        let (closed, close, made) = >>=-eq-ok (close_action action c.target at c.ledger) _ d5 in
        let same : c.response ≡ accepted = ground arith in
        subst (λ x. Outcome stored r h x l l') same
          (closed-Outcome stored r h action at l saved closed l' first captured c verified
            (save_handle-kept stored h at l kept) run refl capture evidence close (ground arith)
            (ground arith))

    -- Where `collect` returns, for any persisting of captures: the worker's execution was registered and
    -- the manager gave a response and a handle; the response is of the execution's request, engagement and
    -- action; the action was running and now stands in a terminal state; and it stands as succeeded only
    -- if the worker reported success and was not lost, and every piece of evidence that the accepted
    -- response names belongs to the execution's action.
    pub collect-Outcome :
        (worker_id : String) (collected : Manages (Option WorkerResponse))
        (status : Option WorkerHandle) (at : Time) (l : Ledger Network) {accepted : WorkerResponse}
        {l' : Ledger Network}
        → collect persist worker_id collected status at l ≡ ok (accepted, l')
        → (stored : Stored WorkerExecution) × (reported : WorkerResponse) × (h : WorkerHandle)
          × (lookup worker_id l.executions ≡ some stored)
          × (collected ≡ ok (some reported))
          × (status ≡ some h)
          × Outcome stored reported h accepted l l'
    unfolding collect
    collect-Outcome worker_id collected status at l done =
        let (stored, found, d1) =
          >>=-eq-ok (or_lifecycle (lookup worker_id l.executions) "worker_action_binding_not_found")
            _ done in
        let (answer, given, d2) = >>=-eq-ok (raised_as manager collected) _ d1 in
        let (r, some_answer, d3) =
          >>=-eq-ok (or_lifecycle answer "worker_terminal_response_missing") _ d2 in
        let (h, handle, d4) =
          >>=-eq-ok (or_lifecycle status "worker_terminal_response_missing") _ d3 in
        (
          stored,
          r,
          h,
          or_lifecycle-ok _ _ found,
          raised_as-ok manager collected given ∙ ap ok (or_lifecycle-ok _ _ some_answer),
          or_lifecycle-ok _ _ handle,
          accept-Outcome worker_id stored r h at l d4,
        )
