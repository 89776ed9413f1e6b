-- ===== src/Execution/Manager/Frame.antt =====
-- The request and the identifier of a worker of execution/manager.py, through its steps.
use vuln_proof_claw.Common.{
  ℕ, not, ◌≡◌, refl, ap, sym, subst, Option, none, some, arith, String, ◌==◌, string_eq, if_split,
}
use vuln_proof_claw.Common.Results.{ok, err}
use vuln_proof_claw.Domain.Enums.{WorkerState, worker_state_eq, worker_terminal}
use vuln_proof_claw.Execution.Protocol.{WorkerResponse, Validates}
use vuln_proof_claw.Execution.Manager.{
  ManagedWorker, CollectionTask, WorkerHandle, Answers, WaitOutcome, start_worker, cancel_worker,
  RuntimeCall, collect_worker, collect_from, await_task, cancel_with, called, cleanup,
  cleaned_handle, end_task,
}
use vuln_proof_claw.Execution.Manager.Tasks.{
  settle, settle_task, finish, finish_task, outcome_called,
}
use vuln_proof_claw.Execution.Manager.Index.{Act, starts, cancels, collects, settles, finishes, act}
use vuln_proof_claw.Execution.Manager.Cleaned.{cleanup-Cleaned}
use vuln_proof_claw.Execution.Manager.Steps.{start_failed-worker, then_handle-worker}

module _ {Cpu : Type 0} where
  -- The request and the identifier are the same.
  abbrev pub SameWorker : ManagedWorker Cpu → ManagedWorker Cpu → Type 0
  SameWorker m q = (q.request ≡ m.request) × (q.handle.worker_id ≡ m.handle.worker_id)

  abbrev SameAfter : {A : Type 0} → ManagedWorker Cpu → ManagedWorker Cpu × A → Type 0
  SameAfter m x = SameWorker m x.0

  cleanup-SameWorker :
      (w : Answers) (n : ℕ) (m : ManagedWorker Cpu) (state : WorkerState) (code : Option String)
      → SameWorker m (cleanup w n m state code).0
  unfolding cleaned_handle
  cleanup-SameWorker w n m state code =
      let c = cleanup-Cleaned w n m state code in
      (c.request, ap (λ (h : WorkerHandle). h.worker_id) c.handle)

  start_worker-SameWorker :
      (w : Answers) (m : ManagedWorker Cpu) → SameWorker m (start_worker w m).0
  unfolding start_worker
  start_worker-SameWorker w m =
      if_split (SameAfter m) (m.handle.state == WorkerState.running) _ _ (λ _. (refl, refl))
        λ _.
          if_split (SameAfter m) (not (m.handle.state == WorkerState.starting)) _ _
            (λ _. (refl, refl))
            λ _.
              if_split (SameAfter m) w.start_returns _ _ (λ _. (refl, refl))
                λ _.
                  subst (SameWorker m) (sym (start_failed-worker _))
                    (cleanup-SameWorker w 0 (called RuntimeCall.start m) _ _)

  cancel_with-SameWorker :
      (w : Answers) (m : ManagedWorker Cpu) (outcome : Validates WorkerResponse)
      → SameWorker m (cancel_with w m outcome).0
  unfolding cancel_with
  cancel_with-SameWorker w m (err e) = (refl, refl)
  cancel_with-SameWorker w m (ok r) = subst (SameWorker m) (sym (then_handle-worker _)) (
      cleanup-SameWorker w 1
        (record m { response = some r; collection_task = end_task m.collection_task }) _ _)

  collect_from-SameWorker :
      (held : Option WorkerResponse) (m : ManagedWorker Cpu) → SameWorker m (collect_from held m).0
  unfolding collect_from await_task
  collect_from-SameWorker held m = ground arith

  settle_task-SameWorker :
      (task : CollectionTask) (w : Answers) (outcome : WaitOutcome) (m : ManagedWorker Cpu)
      → SameWorker m (settle_task task w outcome m)
  unfolding settle_task outcome_called
  settle_task-SameWorker task w outcome m = ground arith

  finish_from :
      (w : Answers) (m : ManagedWorker Cpu) (r : WorkerResponse) (held : Option WorkerResponse)
      → m.response ≡ held
      → SameWorker m (finish_task (CollectionTask.answered r) w m)
  unfolding finish_task
  finish_from w m r none e = rw e (cleanup-SameWorker w 0 (record m { response = some r }) _ _)
  finish_from w m r (some q) e = rw e (refl, refl)

  finish_task-SameWorker :
      (task : CollectionTask) (w : Answers) (m : ManagedWorker Cpu)
      → SameWorker m (finish_task task w m)
  unfolding finish_task
  finish_task-SameWorker (CollectionTask.answered r) w m = finish_from w m r m.response refl
  finish_task-SameWorker CollectionTask.absent w m = (refl, refl)
  finish_task-SameWorker CollectionTask.waiting w m = (refl, refl)
  finish_task-SameWorker CollectionTask.done w m = (refl, refl)
  finish_task-SameWorker (CollectionTask.raised e) w m = (refl, refl)

  pub act-SameWorker : (step : Act) (m : ManagedWorker Cpu) → SameWorker m (act step m)
  unfolding act cancel_worker settle finish collect_worker
  act-SameWorker (starts w) m = start_worker-SameWorker w m
  act-SameWorker (cancels w) m =
      if_split (SameAfter m) (worker_terminal m.handle.state) _ _ (λ _. (refl, refl))
        λ _. cancel_with-SameWorker w (called RuntimeCall.cancel m) _
  act-SameWorker collects m = collect_from-SameWorker m.response m
  act-SameWorker (settles w outcome) m = settle_task-SameWorker m.collection_task w outcome m
  act-SameWorker (finishes w) m = finish_task-SameWorker m.collection_task w m
