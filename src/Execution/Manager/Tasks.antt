-- ===== src/Execution/Manager/Tasks.antt =====
-- `_collect_worker` of execution/manager.py: the task that waits for a worker's response.
use vuln_proof_claw.Common.{Bool, ◌&&◌, ◌*◌, none, some, all, leb, if◌then◌else◌, ◌==◌, string_eq}
use vuln_proof_claw.Common.Results.{ok, err}
use vuln_proof_claw.Execution.Protocol.{
  ProtocolVersion-discrete, protocol_version_eq, WorkerRequest, WorkerResponse, WorkerHttpCapture,
  WorkerResultStatus, Validates,
}
use vuln_proof_claw.Execution.Manager.{
  Answers, CollectionTask, WaitOutcome, responds, times_out, fails, ManagedWorker, Manages,
  RuntimeCall, called, own_response, cleanup, state_for_response, invalid_message,
}

abbrev pub task_of : Validates WorkerResponse → CollectionTask
task_of (ok r) = CollectionTask.answered r
task_of (err e) = CollectionTask.raised e

abbrev pub task_after : Manages (Unit {0}) → CollectionTask
task_after (err (invalid_message e)) = CollectionTask.raised e
task_after _ = CollectionTask.done

module _ {Cpu : Type 0} where
  -- `_response_matches`
  unfoldable pub capture_matches : WorkerRequest Cpu → WorkerHttpCapture → Bool
  capture_matches request capture =
      capture.request_target == request.normalized_target
      && leb capture.duration_ms (request.limits.timeout_seconds * 1000)

  unfoldable pub response_matches : WorkerRequest Cpu → WorkerResponse → Bool
  unfolding ProtocolVersion-discrete
  response_matches request r =
      r.protocol_version == request.protocol_version
      && r.request_id == request.request_id
      && r.engagement_id == request.engagement_id
      && r.action_id == request.action_id
      && all (capture_matches request) r.http_captures

  -- The response to a wait, before it is compared with the request.
  unfoldable pub outcome_response :
      Answers → WaitOutcome → ManagedWorker Cpu → Validates WorkerResponse
  outcome_response w (responds r) m = ok r
  outcome_response w times_out m =
      if w.cancel_returns
      then own_response m WorkerResultStatus.timed_out (w.reading 0) "worker_timed_out"
      else own_response m WorkerResultStatus.worker_error (w.reading 0)
          "worker_timeout_cancel_failed"
  outcome_response w fails m =
      own_response m WorkerResultStatus.worker_error (w.reading 0) "worker_runtime_failure"

  -- A response that does not match is replaced.
  unfoldable pub matched :
      Answers → ManagedWorker Cpu → Validates WorkerResponse → Validates WorkerResponse
  matched w m (err e) = err e
  matched w m (ok r) =
      if response_matches m.request r
      then ok r
      else own_response m WorkerResultStatus.worker_error (w.reading 1)
          "worker_response_binding_mismatch"

  -- A timeout cancels the worker.
  unfoldable pub outcome_called : WaitOutcome → ManagedWorker Cpu → ManagedWorker Cpu
  outcome_called times_out m = called RuntimeCall.cancel m
  outcome_called _ m = m

  unfoldable pub settle_task :
      CollectionTask → Answers → WaitOutcome → ManagedWorker Cpu → ManagedWorker Cpu
  settle_task CollectionTask.waiting w outcome m = record (outcome_called outcome m) {
    collection_task = task_of (matched w m (outcome_response w outcome m));
  }
  settle_task _ w outcome m = m

  -- `_collect_worker` up to where it waits for the lock.
  unfoldable pub settle : Answers → WaitOutcome → ManagedWorker Cpu → ManagedWorker Cpu
  unfolding settle_task
  settle w outcome m = settle_task m.collection_task w outcome m

  abbrev pub end_with : ManagedWorker Cpu × Manages (Unit {0}) → ManagedWorker Cpu
  end_with (m, result) = record m { collection_task = task_after result }

  unfoldable pub finish_task : CollectionTask → Answers → ManagedWorker Cpu → ManagedWorker Cpu
  finish_task (CollectionTask.answered r) w m = elim m.response [
    | some held ↦ record m { collection_task = CollectionTask.done }
    | none ↦
        end_with
          (cleanup w 0 (record m { response = some r }) (state_for_response r.status) r.error_code)
  ]
  finish_task _ w m = m

  -- The rest of `_collect_worker`, with the lock held.
  unfoldable pub finish : Answers → ManagedWorker Cpu → ManagedWorker Cpu
  unfolding finish_task
  finish w m = finish_task m.collection_task w m
