-- ===== src/Execution/Lifecycle/Closed.antt =====
-- How an action stands that `collect` of execution/lifecycle.py has closed.
use vuln_proof_claw.Common.{
  Bool, true, false, ◌≡◌, ◌≢◌, refl, ap, ◌∙◌, sym, subst, Option, none, some, String, lookup,
  lookup-insert, if◌then◌else◌, string_eq, eq_iff, arith,
}
use vuln_proof_claw.Common.Results.{Result, ok, err, raise_if, >>=-eq-ok}
use vuln_proof_claw.Domain.Enums.{ActionState, action_state_eq, WorkerState, worker_state_eq}
use vuln_proof_claw.Domain.Errors.{Time}
use vuln_proof_claw.Domain.Models.{Action}
use vuln_proof_claw.Domain.ActionState.{transition_action, moved, is_terminal}
use vuln_proof_claw.Domain.ActionState.Success.{transition_action-Made}
use vuln_proof_claw.Persistence.{Stored, Database, save_action}
use vuln_proof_claw.Execution.Authorization.Begin.{save_action-ok}
use vuln_proof_claw.Execution.Protocol.{WorkerResponse, WorkerResultStatus}
use vuln_proof_claw.Execution.Registry.{WorkerExecution}
use vuln_proof_claw.Execution.Lifecycle.{
  Ledger, LifecycleError, or_lifecycle, raised_as, domain, store, terminal_action_state,
  verify_response, close_action,
}

pub raised_as-ok :
    {D A : Type 0} (as_error : D → LifecycleError) (m : Result D A) {a : A}
    → raised_as as_error m ≡ ok a
    → m ≡ ok a
raised_as-ok as_error (ok a) h = ground arith
raised_as-ok as_error (err e) h = cc

pub or_lifecycle-ok :
    {A : Type 0} (o : Option A) (code : String) {a : A} → or_lifecycle o code ≡ ok a → o ≡ some a
or_lifecycle-ok none code h = cc
or_lifecycle-ok (some a) code h = ground arith

pub raise_if-ok : {D : Type 0} (test : Bool) (e : D) → raise_if test e ≡ ok tt → test ≡ false
raise_if-ok true e h = cc
raise_if-ok false e h = refl

pub terminal_action_state-is_terminal :
    (status : WorkerResultStatus) (state : WorkerState)
    → is_terminal (terminal_action_state status state) ≡ true
unfolding terminal_action_state is_terminal
terminal_action_state-is_terminal status state = ground arith

pub terminal_action_state-succeeded :
    (status : WorkerResultStatus) (state : WorkerState)
    → terminal_action_state status state ≡ ActionState.succeeded
    → (status ≡ WorkerResultStatus.succeeded) × (state ≢ WorkerState.lost)
unfolding terminal_action_state
terminal_action_state-succeeded status state h = ground arith

pub verify_response-ok :
    (r : WorkerResponse) (e : WorkerExecution)
    → verify_response r e ≡ ok tt
    → (r.request_id ≡ e.request_id)
      × (r.engagement_id ≡ e.engagement_id)
      × (r.action_id ≡ e.action_id)
unfolding verify_response
verify_response-ok r e h =
    let test = raise_if-ok _ _ h in
    (
      (eq_iff r.request_id e.request_id).0 (ground arith),
      (eq_iff r.engagement_id e.engagement_id).0 (ground arith),
      (eq_iff r.action_id e.action_id).0 (ground arith),
    )

moved-state :
    (a : Action) (target : ActionState) (at : Time) → (moved a target none at).state ≡ target
unfolding moved
moved-state a target at = refl

moved-id : (a : Action) (target : ActionState) (at : Time) → (moved a target none at).id ≡ a.id
unfolding moved
moved-id a target at = refl

module _ {Network : Type 0} where
  -- What closing an action leaves.
  pub record ClosedAs (stored : Stored Action) (target : ActionState) (l l' : Ledger Network)
      : Type 0 where
    pub row : Stored Action
    pub found : lookup stored.entity.id l'.database.actions ≡ some row
    pub state : row.entity.state ≡ target
    pub evidence : l'.evidence ≡ l.evidence
    pub executions : l'.executions ≡ l.executions

  pub close_action-ClosedAs :
      (stored : Stored Action) (target : ActionState) (at : Time) (l : Ledger Network)
      {l' : Ledger Network}
      → close_action stored target at l ≡ ok l'
      → ClosedAs stored target l l'
  unfolding close_action
  close_action-ClosedAs stored target at l {l'} h =
      let (terminal, made, h') =
        >>=-eq-ok (raised_as domain (transition_action stored.entity target none (some at) at)) _
          h in
      let (saved, written, h'') =
        >>=-eq-ok (raised_as store (save_action terminal stored.version l.database)) _ h' in
      let result =
        (transition_action-Made stored.entity target none (some at) at
          (raised_as-ok domain _ made)).result in
      let (row, _, _, entity, _, after) =
        save_action-ok terminal stored.version l.database {s = saved.0} {db' = saved.1}
          (raised_as-ok store _ written) in
      let left : record l { database = saved.1 } ≡ l' = ground arith in
      let same_id : terminal.id ≡ stored.entity.id =
        ap (λ (a : Action). a.id) result ∙ moved-id stored.entity target at in
      record {
        row = saved.0;
        found =
            subst
              (λ (x : Ledger Network). lookup stored.entity.id x.database.actions ≡ some saved.0)
              left
              (ap (λ (d : Database Network). lookup stored.entity.id d.actions) after
                ∙ lookup-insert terminal.id stored.entity.id saved.0 l.database.actions
                ∙ ap (λ b. if b then some saved.0 else lookup stored.entity.id l.database.actions)
                    ((eq_iff terminal.id stored.entity.id).1 same_id));
        state =
            ap (λ (a : Action). a.state) entity
            ∙ ap (λ (a : Action). a.state) result
            ∙ moved-state stored.entity target at;
        evidence = ap (λ (x : Ledger Network). x.evidence) (sym left);
        executions = ap (λ (x : Ledger Network). x.executions) (sym left);
      }
