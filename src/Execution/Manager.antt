-- ===== src/Execution/Manager.antt =====
-- execution/manager.py: LifecycleWorkerManager. What runs with a worker's lock held is one step; the
-- task that waits for the worker's response is two, `settle` without the lock and `finish` with it.
-- What the runtime and the clock answer is an argument of each step.
pub mod Tasks
pub mod Index
pub mod Bound
pub mod Contract
pub mod Cleaned
pub mod Invariant
pub mod Steps
pub mod Collection
pub mod Histories
pub mod Outcomes
pub mod Cancelling
pub mod Frame
pub mod Replay
use vuln_proof_claw.Common.{
  ℕ, suc, Bool, true, false, not, ◌&&◌, ◌*◌, Option, none, some, List, [], ◌∷◌, String, all, leb,
  lookup, insert, is_blank, or_else, if◌then◌else◌, ◌==◌, string_eq, option_eq, Eq,
}
use vuln_proof_claw.Common.Results.{Result, ok, err, ◌>>=◌}
use vuln_proof_claw.Domain.Enums.{
  WorkerState, WorkerState-discrete, worker_state_eq, worker_terminal,
}
use vuln_proof_claw.Domain.Errors.{Time}
use vuln_proof_claw.Execution.Protocol.{
  ProtocolVersion, ProtocolVersion-discrete, protocol_version_eq, WorkerRequest, WorkerResponse,
  WorkerHttpCapture, WorkerResultStatus, ProtocolError, Validates, validate_response,
}

pub record WorkerHandle : Type 0 where
  pub worker_id : String
  pub request_id : String
  pub state : WorkerState
  pub created_at : Time
  pub updated_at : Option Time
  pub cleaned_up : Bool
  pub error_code : Option String

-- The exceptions; `invalid_message` is a ValidationError of `WorkerResponse`, `runtime_error` one of
-- the runtime's own.
pub data ManagerError : Type 0 where
  not_found : ManagerError
  invalid_state : (code : String) → ManagerError
  request_conflict : ManagerError
  manager_error : (code : String) → ManagerError
  invalid_message : ProtocolError → ManagerError
  runtime_error : ManagerError
  key_error : ManagerError

abbrev pub Manages : Type 0 → Type 0
Manages A = Result ManagerError A

-- A call of the runtime; of `destroy` it is kept whether it returned.
pub data RuntimeCall : Type 0 where
  create start wait cancel : RuntimeCall
  destroy : (returned : Bool) → RuntimeCall

-- What the runtime's calls do in one step, and what the clock's readings give in turn.
pub record Answers : Type 0 where
  pub start_returns : Bool
  pub cancel_returns : Bool
  pub destroy_returns : Bool
  pub reading : ℕ → Time

-- `collection_task`: waiting for the runtime, answered and waiting for the lock, or done.
pub data CollectionTask : Type 0 where
  absent waiting done : CollectionTask
  answered : WorkerResponse → CollectionTask
  raised : ProtocolError → CollectionTask

-- How `asyncio.wait_for(self._runtime.wait(…))` ends.
pub data WaitOutcome : Type 0 where
  responds : WorkerResponse → WaitOutcome
  times_out fails : WaitOutcome

-- What `collect` gives: the response, or what the task will give.
pub data Collected : Type 0 where
  responded : WorkerResponse → Collected
  awaits : Collected

-- `task.cancel()` on a task that is not done.
abbrev pub end_task : CollectionTask → CollectionTask
end_task CollectionTask.waiting = CollectionTask.done
end_task (CollectionTask.answered r) = CollectionTask.done
end_task task = task

abbrev pub cleanup_failed : String
cleanup_failed = "worker_cleanup_failed"

unfoldable pub state_for_response : WorkerResultStatus → WorkerState
state_for_response WorkerResultStatus.succeeded = WorkerState.completed
state_for_response WorkerResultStatus.failed = WorkerState.failed
state_for_response WorkerResultStatus.timed_out = WorkerState.timed_out
state_for_response WorkerResultStatus.cancelled = WorkerState.cancelled
state_for_response WorkerResultStatus.policy_denied = WorkerState.failed
state_for_response WorkerResultStatus.worker_error = WorkerState.lost

-- The handle that `_cleanup` leaves.
unfoldable pub cleaned_handle :
    Answers → ℕ → WorkerState → Option String → WorkerHandle → WorkerHandle
cleaned_handle w n state error_code h = record h {
  state = if w.destroy_returns then state else WorkerState.lost;
  updated_at = some (w.reading n);
  cleaned_up = w.destroy_returns;
  error_code = if w.destroy_returns then error_code else some cleanup_failed;
}

-- The handle of a worker that has started.
abbrev pub running_handle : Answers → WorkerHandle → WorkerHandle
running_handle w h = record h { state = WorkerState.running; updated_at = some (w.reading 0) }

-- `calls` are those of the runtime on this worker, the latest first.
pub record ManagedWorker (Cpu : Type 0) : Type 0 where
  pub request : WorkerRequest Cpu
  pub runtime_reference : String
  pub handle : WorkerHandle
  pub response : Option WorkerResponse
  pub collection_task : CollectionTask
  pub calls : List RuntimeCall

-- `_workers` and `_request_index`
pub record Manager (Cpu : Type 0) : Type 0 where
  pub workers : List (String × ManagedWorker Cpu)
  pub request_index : List (String × String)

module _ {Cpu : Type 0} where
  abbrev pub called : RuntimeCall → ManagedWorker Cpu → ManagedWorker Cpu
  called call m = record m { calls = call ∷ m.calls }

  -- A message of the manager's own, from when the handle was last updated.
  abbrev pub own_message : ManagedWorker Cpu → WorkerResultStatus → Time → String → WorkerResponse
  own_message m status completed_at error_code = record {
    protocol_version = ProtocolVersion.v1;
    request_id = m.request.request_id;
    engagement_id = m.request.engagement_id;
    action_id = m.request.action_id;
    status = status;
    started_at = or_else m.handle.updated_at m.handle.created_at;
    completed_at = completed_at;
    evidence_ids = [];
    artifact_ids = [];
    http_captures = [];
    exit_code = none;
    error_code = some error_code;
  }

  -- The same as a response, where its construction does not raise.
  unfoldable pub own_response :
      ManagedWorker Cpu → WorkerResultStatus → Time → String → Validates WorkerResponse
  own_response m status completed_at error_code =
      validate_response (own_message m status completed_at error_code)

  -- `managed.response = …`, unless its construction raises.
  unfoldable pub store_failure :
      Validates WorkerResponse → ManagedWorker Cpu → ManagedWorker Cpu × Manages (Unit {0})
  store_failure (ok r) m = (record m { response = some r }, ok tt)
  store_failure (err e) m = (m, err (invalid_message e))

  -- `_cleanup`, where the clock has been read `n` times before.
  unfoldable pub cleanup :
      Answers
      → ℕ
      → ManagedWorker Cpu
      → WorkerState
      → Option String
      → ManagedWorker Cpu × Manages (Unit {0})
  unfolding cleaned_handle
  cleanup w n m state error_code =
      let destroyed = record m {
        calls = destroy w.destroy_returns ∷ m.calls;
        handle = cleaned_handle w n state error_code m.handle;
      } in
      if destroyed.handle.error_code == some cleanup_failed
      then store_failure
          (own_response destroyed WorkerResultStatus.worker_error (w.reading (suc n))
            cleanup_failed)
          destroyed
      else (destroyed, ok tt)

  -- `raise WorkerManagerError("worker_start_failed")`, after the cleanup.
  unfoldable pub start_failed :
      ManagedWorker Cpu × Manages (Unit {0}) → ManagedWorker Cpu × Manages WorkerHandle
  start_failed (m, ok _) = (m, err (manager_error "worker_start_failed"))
  start_failed (m, err e) = (m, err e)

  -- `start`, with the lock held.
  unfoldable pub start_worker :
      Answers → ManagedWorker Cpu → ManagedWorker Cpu × Manages WorkerHandle
  unfolding WorkerState-discrete
  start_worker w m =
      if m.handle.state == WorkerState.running
      then (m, ok m.handle)
      else if not (m.handle.state == WorkerState.starting)
      then (m, err (invalid_state "worker_not_startable"))
      else if w.start_returns
      then (
        record m { handle = running_handle w m.handle; calls = start ∷ m.calls },
        ok (running_handle w m.handle),
      )
      else start_failed (cleanup w 0 (called start m) WorkerState.lost (some "worker_start_failed"))

  -- `return managed.handle`, after the cleanup.
  unfoldable pub then_handle :
      ManagedWorker Cpu × Manages (Unit {0}) → ManagedWorker Cpu × Manages WorkerHandle
  then_handle (m, ok _) = (m, ok m.handle)
  then_handle (m, err e) = (m, err e)

  -- The part of `cancel` after the response has been built.
  unfoldable pub cancel_with :
      Answers
      → ManagedWorker Cpu
      → Validates WorkerResponse
      → ManagedWorker Cpu × Manages WorkerHandle
  cancel_with w m (err e) = (m, err (invalid_message e))
  cancel_with w m (ok r) = then_handle (
      cleanup w 1 (record m { response = some r; collection_task = end_task m.collection_task })
        (if w.cancel_returns then WorkerState.cancelled else WorkerState.lost)
        (if w.cancel_returns then none else some "worker_cancel_failed"))

  -- `cancel`, with the lock held.
  unfoldable pub cancel_worker :
      Answers → ManagedWorker Cpu → ManagedWorker Cpu × Manages WorkerHandle
  cancel_worker w m =
      if worker_terminal m.handle.state
      then (m, ok m.handle)
      else cancel_with w (called cancel m) (
          own_response m WorkerResultStatus.cancelled (w.reading 0)
            (if w.cancel_returns then "worker_cancelled" else "worker_cancel_failed"))

  -- `await asyncio.shield(task)`, after the task was made if there was none.
  unfoldable pub await_task :
      CollectionTask → ManagedWorker Cpu → ManagedWorker Cpu × Manages Collected
  await_task CollectionTask.absent m =
      (record m { collection_task = CollectionTask.waiting; calls = wait ∷ m.calls }, ok awaits)
  await_task (CollectionTask.raised e) m = (m, err (invalid_message e))
  await_task _ m = (m, ok awaits)

  unfoldable pub collect_from :
      Option WorkerResponse → ManagedWorker Cpu → ManagedWorker Cpu × Manages Collected
  unfolding WorkerState-discrete
  collect_from (some r) m = (m, ok (responded r))
  collect_from none m =
      if not (m.handle.state == WorkerState.running)
      then (m, err (invalid_state "worker_not_collectable"))
      else await_task m.collection_task m

  -- `collect`, up to where it waits for the task.
  unfoldable pub collect_worker : ManagedWorker Cpu → ManagedWorker Cpu × Manages Collected
  unfolding collect_from
  collect_worker m = collect_from m.response m
