-- ===== src/Execution/Lifecycle/Start.antt =====
-- `start` of execution/lifecycle.py: a worker is created for a queued action, the action's authority is
-- consumed, and the worker is told to run.
use vuln_proof_claw.Common.{
  Bool, not, ◌&&◌, Option, none, some, List, [], ◌∷◌, String, ◌==◌, is_some, lookup, or_else,
  string_eq, option_eq,
}
use vuln_proof_claw.Common.Unicode.{Unicode}
use vuln_proof_claw.Common.Results.{ok, err, raise_if, ◌>>=◌, ◌>>◌}
use vuln_proof_claw.Domain.Enums.{ActionState, RiskLevel-discrete, risk_level_eq}
use vuln_proof_claw.Domain.Errors.{Time, Raises}
use vuln_proof_claw.Domain.Models.{Action}
use vuln_proof_claw.Policy.Scope.{IpLibrary, NormalizedTarget, EngagementScope}
use vuln_proof_claw.Persistence.{Stored, Database}
use vuln_proof_claw.Execution.Audit.{text}
use vuln_proof_claw.Execution.Authorization.{
  Executes, ExecutionAuthorization, authorize_queued_action, begin_execution, begin_left,
  ExecutionError, refused, domain, store,
}
use vuln_proof_claw.Execution.Protocol.{WorkerRequest, WorkerScope, is_same_scope, Validates}
use vuln_proof_claw.Execution.Manager.{
  WorkerHandle, Manages, ManagerError, not_found, invalid_state, request_conflict, manager_error,
}
use vuln_proof_claw.Execution.Registry.{
  WorkerExecution, validate_execution, add_execution, get_for_action, get_for_request,
}
use vuln_proof_claw.Execution.Lifecycle.{
  Ledger, Coordinates, LifecycleError, lifecycle, integrity_error, protocol, manager, or_lifecycle,
  raised_as, audit, audit_destroyed, save_handle, close_action,
}
use vuln_proof_claw.Execution.Lifecycle as L

-- The calls of the manager that change a worker or ask for it.
pub data ManagerCall : Type 0 where
  to_submit : ManagerCall
  to_cancel to_start to_status : (worker_id : String) → ManagerCall

-- What the manager answers to each call, if it is made.
pub record ManagerAnswers : Type 0 where
  pub runtime_identity : String
  pub submits : Manages WorkerHandle
  pub cancels : Manages WorkerHandle
  pub starts : Manages WorkerHandle
  pub status : Option WorkerHandle

-- What the session holds in the end, and what was given back or raised.
abbrev pub Ended : Type 0 → Type 0
Ended Network = Ledger Network × Coordinates WorkerHandle

-- The calls that `start` has made, in order, and how it ended. The caller decides whether what the
-- session then holds is committed, also where `start` has raised.
pub record Run (Network : Type 0) : Type 0 where
  pub calls : List ManagerCall
  pub ended : Ended Network

-- An error of execution/authorization.py, as it leaves `start`.
abbrev pub executes_as : {A : Type 0} → Executes A → Coordinates A
executes_as (ok a) = ok a
executes_as (err (refused reason)) = err (lifecycle reason)
executes_as (err (domain e)) = err (L.domain e)
executes_as (err (store e)) = err (L.store e)

-- `str(error)` of a WorkerManagerError; other exceptions are not caught.
unfoldable pub manager_code : ManagerError → Option String
manager_code not_found = some "worker_not_found"
manager_code (invalid_state code) = some code
manager_code request_conflict = some "worker_request_id_conflict"
manager_code (manager_error code) = some code
manager_code _ = none

-- `all(bindings)` of `_verify_request`
unfoldable pub is_bound_to : {Cpu : Type 0} → WorkerRequest Cpu → Action → Bool
unfolding RiskLevel-discrete
is_bound_to r a =
    (r.engagement_id == a.engagement_id)
    && (r.action_id == a.id)
    && (r.action_type == a.action_type)
    && (r.normalized_target == a.normalized_target)
    && (r.parameter_digest == a.parameter_digest)
    && (r.risk_level == a.risk_level)
    && (r.approval_id == a.approval_id)
    && (r.idempotency_key == a.idempotency_key)

-- The execution that `start` registers.
abbrev pub new_execution :
    {Cpu : Type 0} → WorkerRequest Cpu → String → WorkerHandle → Time → WorkerExecution
new_execution r runtime_identity h at = record {
  request_id = r.request_id;
  engagement_id = r.engagement_id;
  action_id = r.action_id;
  runtime_identity = runtime_identity;
  state = h.state;
  created_at = h.created_at;
  updated_at = or_else h.updated_at at;
  id = h.worker_id;
  cleaned_up = h.cleaned_up;
  error_code = h.error_code;
}

module _ {Network Cpu : Type 0}
    (worker_scope : EngagementScope Network → Validates WorkerScope) where
  -- `_verify_request`
  unfoldable pub verify_request :
      WorkerRequest Cpu → Action → Database Network → Coordinates (Unit {0})
  unfolding is_same_scope is_bound_to
  verify_request r a db = do
    raise_if (not (is_bound_to r a)) (lifecycle "worker_request_action_binding_mismatch")
    scope ← or_lifecycle (lookup a.engagement_id db.scopes) "scope_not_found"
    expected ← raised_as protocol (worker_scope scope)
    raise_if (not (is_same_scope r.scope expected))
        (lifecycle "worker_request_scope_binding_mismatch")

module _ {Network : Type 0} where
  -- What follows a write to the session, which leaves it as it was where it raises.
  abbrev pub then_write :
      {A : Type 0} → Ledger Network → Coordinates A → (A → Ended Network) → Ended Network
  then_write l (err e) after = (l, err e)
  then_write l (ok a) after = after a

module _ {Network Cpu : Type 0} where
  -- The registration of a worker that was created.
  unfoldable pub register :
      WorkerRequest Cpu
      → String
      → WorkerHandle
      → Time
      → Ledger Network
      → Coordinates (Stored WorkerExecution × Ledger Network)
  unfolding add_execution
  register r runtime_identity h at l = do
    e ← raised_as L.domain (validate_execution (new_execution r runtime_identity h at))
    elim (add_execution e l.executions) [
      | none ↦ err integrity_error
      | some (row, rows) ↦ ok (row, record l { executions = rows })
    ]

  -- Where `manager.start` raised a WorkerManagerError: what is done with the worker that `status`
  -- gives, once the action is closed.
  unfoldable pub start_failed :
      WorkerRequest Cpu
      → Stored WorkerExecution
      → Stored Action
      → WorkerHandle
      → String
      → Option WorkerHandle
      → Time
      → Ledger Network
      → Ended Network
  unfolding audit_destroyed
  start_failed r row running h code terminal at l =
      then_write l (close_action running ActionState.worker_lost at l) λ closed.
        let audited =
          audit r.engagement_id "worker.start_failed" "system:worker-manager"
            (("worker_id", text h.worker_id) ∷ ("error_code", text code) ∷ []) at closed in
        elim terminal [
          | none ↦ (audited, err (lifecycle code))
          | some t ↦
              then_write audited (save_handle row t at audited)
                λ saved. (audit_destroyed r.engagement_id t at saved, ok t)
        ]

  -- The end of `start`, by what `manager.start` did.
  unfoldable pub after_start :
      WorkerRequest Cpu
      → ManagerAnswers
      → Stored WorkerExecution
      → Stored Action
      → WorkerHandle
      → String
      → Time
      → Ledger Network
      → Manages WorkerHandle
      → Run Network
  unfolding start_failed
  after_start r answers row running h actor at l (ok started) = record {
    calls = to_submit ∷ to_start h.worker_id ∷ [];
    ended = then_write l (save_handle row started at l) λ saved. (
      audit r.engagement_id "worker.started" "system:worker-manager"
          (("worker_id", text h.worker_id) ∷ []) at saved,
      ok started,
    );
  }
  after_start r answers row running h actor at l (err e) = elim (manager_code e) [
    | none ↦ record { calls = to_submit ∷ to_start h.worker_id ∷ []; ended = (l, err (manager e)) }
    | some code ↦ record {
      calls = to_submit ∷ to_start h.worker_id ∷ to_status h.worker_id ∷ [];
      ended = start_failed r row running h code answers.status at l;
    }
  ]

  -- Where `begin_execution` raised: the worker is cancelled, and what became of it is recorded.
  unfoldable pub begin_failed :
      WorkerRequest Cpu
      → Manages WorkerHandle
      → Stored WorkerExecution
      → Time
      → Ledger Network
      → ExecutionError
      → Ended Network
  unfolding audit_destroyed
  begin_failed r cancels row at l e = then_write l (raised_as manager cancels) λ cancelled.
      then_write l (save_handle row cancelled at l)
        λ saved. (audit_destroyed r.engagement_id cancelled at saved, executes_as (err e))

  -- From the start of the execution, which may raise.
  unfoldable pub after_begin :
      WorkerRequest Cpu
      → ManagerAnswers
      → ExecutionAuthorization
      → Stored WorkerExecution
      → WorkerHandle
      → String
      → Time
      → Ledger Network
      → Executes (Stored Action × Database Network)
      → Run Network
  unfolding after_start begin_failed begin_left
  after_begin r answers auth row h actor at l (err e) = record {
    calls = to_submit ∷ to_cancel h.worker_id ∷ [];
    ended =
        begin_failed r answers.cancels row at
          (record l { database = begin_left auth at l.database }) e;
  }
  after_begin r answers auth row h actor at l (ok (running, db)) =
      after_start r answers row running h actor at (record l { database = db }) answers.starts

  -- From the registration, which may raise: then the worker is cancelled. Nothing was written before.
  unfoldable pub after_register :
      WorkerRequest Cpu
      → ManagerAnswers
      → ExecutionAuthorization
      → WorkerHandle
      → String
      → Time
      → Ledger Network
      → Coordinates (Stored WorkerExecution × Ledger Network)
      → Run Network
  unfolding after_begin
  after_register r answers auth h actor at l (err e) = record {
    calls = to_submit ∷ to_cancel h.worker_id ∷ [];
    ended = then_write l (raised_as manager answers.cancels) λ _. (l, err e);
  }
  after_register r answers auth h actor at l (ok (row, registered)) =
      after_begin r answers auth row h actor at
        (audit r.engagement_id "worker.created" actor
          (("worker_id", text h.worker_id)
            ∷ ("runtime_identity", text answers.runtime_identity)
            ∷ [])
          at registered)
        (begin_execution auth at registered.database)

  -- From the answer of `manager.submit`; `l` is the ledger when it comes.
  unfoldable pub after_submit :
      WorkerRequest Cpu
      → ManagerAnswers
      → ExecutionAuthorization
      → String
      → Time
      → Ledger Network
      → Manages WorkerHandle
      → Run Network
  unfolding after_register
  after_submit r answers auth actor at l (err e) = record {
    calls = to_submit ∷ [];
    ended = (l, err (manager e));
  }
  after_submit r answers auth actor at l (ok h) =
      after_register r answers auth h actor at l (register r answers.runtime_identity h at l)

  -- From the checks; `meanwhile` is what other sessions write while `manager.submit` is awaited.
  unfoldable pub after_prepare :
      WorkerRequest Cpu
      → ManagerAnswers
      → (Ledger Network → Ledger Network)
      → String
      → Time
      → Ledger Network
      → Coordinates ExecutionAuthorization
      → Run Network
  unfolding after_submit
  after_prepare r answers meanwhile actor at l (err e) = record { calls = []; ended = (l, err e) }
  after_prepare r answers meanwhile actor at l (ok auth) =
      after_submit r answers auth actor at (meanwhile l) answers.submits

module _ (unicode : Unicode) (ip : IpLibrary) (normalize_target : String → Raises NormalizedTarget)
    (worker_scope : EngagementScope ip.Network → Validates WorkerScope) where
  open ip use {Network}

  -- What `start` checks before it calls the manager.
  unfoldable pub prepare :
      {Cpu : Type 0}
      → WorkerRequest Cpu
      → Time
      → Ledger Network
      → Coordinates ExecutionAuthorization
  prepare r at l = do
    stored ← or_lifecycle (lookup r.action_id l.database.actions) "action_not_found"
    verify_request worker_scope r stored.entity l.database
    auth ← executes_as (authorize_queued_action unicode ip normalize_target stored at l.database)
    raise_if (is_some (get_for_action r.action_id l.executions))
        (lifecycle "worker_execution_already_registered")
    raise_if (is_some (get_for_request r.request_id l.executions))
        (lifecycle "worker_request_already_registered")
    ok auth

  unfoldable pub start :
      {Cpu : Type 0}
      → WorkerRequest Cpu
      → ManagerAnswers
      → (Ledger Network → Ledger Network)
      → String
      → Time
      → Ledger Network
      → Run Network
  unfolding after_prepare
  start r answers meanwhile actor at l =
      after_prepare r answers meanwhile actor at l (prepare r at l)
