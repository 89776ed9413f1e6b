-- ===== src/Execution/Manager/Index.antt =====
-- The workers and the requests of execution/manager.py: what `submit` does, and the calls that name
-- a worker.
use vuln_proof_claw.Common.{
  false, Option, none, some, [], ◌∷◌, String, lookup, insert, is_blank, if◌then◌else◌, ◌==◌,
  string_eq, Eq,
}
use vuln_proof_claw.Common.Results.{ok, err}
use vuln_proof_claw.Domain.Enums.{WorkerState}
use vuln_proof_claw.Domain.Errors.{Time}
use vuln_proof_claw.Execution.Protocol.{WorkerRequest}
use vuln_proof_claw.Execution.Manager.{
  Answers, CollectionTask, WaitOutcome, ManagedWorker, Manager, Manages, ManagerError, RuntimeCall,
  WorkerHandle, Collected, start_worker, cancel_worker, collect_worker,
}
use vuln_proof_claw.Execution.Manager.Tasks.{settle, finish}

-- What is done with one worker.
pub data Act : Type 0 where
  starts cancels finishes : Answers → Act
  collects : Act
  settles : Answers → WaitOutcome → Act

module _ {Cpu : Type 0} where
  abbrev pub no_workers : Manager Cpu
  no_workers = record { workers = []; request_index = [] }

  unfoldable pub act : Act → ManagedWorker Cpu → ManagedWorker Cpu
  act (starts w) m = (start_worker w m).0
  act (cancels w) m = (cancel_worker w m).0
  act collects m = (collect_worker m).0
  act (settles w outcome) m = settle w outcome m
  act (finishes w) m = finish w m

  abbrev pub save : String → ManagedWorker Cpu → Manager Cpu → Manager Cpu
  save id m manager = record manager { workers = insert id m manager.workers }

  -- `_required`, and then a step on the worker.
  unfoldable pub on_worker :
      {A : Type 0}
      → (ManagedWorker Cpu → ManagedWorker Cpu × Manages A)
      → String
      → Manager Cpu
      → Manager Cpu × Manages A
  on_worker step id manager = elim (lookup id manager.workers) [
    | none ↦ (manager, err ManagerError.not_found)
    | some m ↦ (save id (step m).0 manager, (step m).1)
  ]

  unfoldable pub start : Answers → String → Manager Cpu → Manager Cpu × Manages WorkerHandle
  unfolding on_worker
  start w = on_worker (start_worker w)

  unfoldable pub cancel : Answers → String → Manager Cpu → Manager Cpu × Manages WorkerHandle
  unfolding on_worker
  cancel w = on_worker (cancel_worker w)

  unfoldable pub collect : String → Manager Cpu → Manager Cpu × Manages Collected
  unfolding on_worker
  collect = on_worker collect_worker

  unfoldable pub status : String → Manager Cpu → Option WorkerHandle
  status id manager = elim (lookup id manager.workers) [ none ↦ none | some m ↦ some m.handle ]

  -- A step of a worker's task.
  unfoldable pub on_task :
      (ManagedWorker Cpu → ManagedWorker Cpu) → String → Manager Cpu → Manager Cpu
  on_task step id manager = elim (lookup id manager.workers) [
    | none ↦ manager
    | some m ↦ save id (step m) manager
  ]

  -- The manager after a step on the worker that is named.
  unfoldable pub act_on : Act → String → Manager Cpu → Manager Cpu
  unfolding start cancel collect on_task
  act_on (starts w) id manager = (start w id manager).0
  act_on (cancels w) id manager = (cancel w id manager).0
  act_on collects id manager = (collect id manager).0
  act_on (settles w outcome) id manager = on_task (settle w outcome) id manager
  act_on (finishes w) id manager = on_task (finish w) id manager

  -- A worker that was just created.
  unfoldable pub submitted : WorkerRequest Cpu → String → String → Time → ManagedWorker Cpu
  submitted request id reference at = record {
    request = request;
    runtime_reference = reference;
    handle = record {
      worker_id = id;
      request_id = request.request_id;
      state = WorkerState.starting;
      created_at = at;
      updated_at = some at;
      cleaned_up = false;
      error_code = none;
    };
    response = none;
    collection_task = CollectionTask.absent;
    calls = RuntimeCall.create ∷ [];
  }

  -- `submit` of a request that is not known: `created` is the reference that the runtime's `create`
  -- returned, if it did, and `id` what `new_worker_id()` gave.
  unfoldable pub submit_new :
      WorkerRequest Cpu
      → String
      → Option String
      → Time
      → Manager Cpu
      → Manager Cpu × Manages WorkerHandle
  submit_new request id none at manager = (manager, err ManagerError.runtime_error)
  submit_new request id (some reference) at manager =
      if is_blank reference
      then (manager, err (ManagerError.manager_error "runtime_returned_empty_reference"))
      else (
        record {
          workers = insert id (submitted request id reference at) manager.workers;
          request_index = insert request.request_id id manager.request_index;
        },
        ok (submitted request id reference at).handle,
      )

  module _ ⦃same_request : Eq (WorkerRequest Cpu)⦄ where
    -- `submit` of a request whose identifier is known.
    unfoldable pub replay : WorkerRequest Cpu → Option (ManagedWorker Cpu) → Manages WorkerHandle
    replay request none = err ManagerError.key_error
    replay request (some m) =
        if m.request == request then ok m.handle else err ManagerError.request_conflict

    -- `submit`, by the worker's identifier that the request's leads to.
    unfoldable pub submit_from :
        Option String
        → WorkerRequest Cpu
        → String
        → Option String
        → Time
        → Manager Cpu
        → Manager Cpu × Manages WorkerHandle
    submit_from (some existing) request id created at manager =
        (manager, replay request (lookup existing manager.workers))
    submit_from none request id created at manager = submit_new request id created at manager

    unfoldable pub submit :
        WorkerRequest Cpu
        → String
        → Option String
        → Time
        → Manager Cpu
        → Manager Cpu × Manages WorkerHandle
    unfolding submit_from
    submit request id created at manager =
        submit_from (lookup request.request_id manager.request_index) request id created at manager
