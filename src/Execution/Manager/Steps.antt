-- ===== src/Execution/Manager/Steps.antt =====
-- The steps of execution/manager.py on a worker, and the invariant.
use vuln_proof_claw.Common.{
  true, false, not, ◌≡◌, ◌≢◌, refl, ap, ◌∙◌, sym, subst, Option, none, some, List, ◌∷◌, arith, ◌==◌,
  string_eq, option_eq, if◌then◌else◌, String, if_split,
}
use vuln_proof_claw.Common.Results.{ok, err}
use vuln_proof_claw.Domain.Enums.{WorkerState, worker_state_eq, worker_terminal}
use vuln_proof_claw.Execution.Protocol.{WorkerResponse, WorkerResultStatus, Validates}
use vuln_proof_claw.Execution.Manager.{
  Answers, RuntimeCall, ManagedWorker, Manages, CollectionTask, WorkerHandle, cleanup, end_task,
  start_failed, then_handle, start_worker, cancel_with, cancel_worker, collect_from, collect_worker,
  await_task, called, running_handle,
}
use vuln_proof_claw.Execution.Manager.Cleaned.{Fits, cleanup-Cleaned, own_response-Fits}
use vuln_proof_claw.Execution.Manager.Contract.{
  Resource, after, resource, view, view_of, resource-after,
}
use vuln_proof_claw.Execution.Manager.Invariant.{
  is_idle, TaskFits, Inv, ResourceIsOpen, view-ResourceIsOpen, Cleaned-Inv, starting-is_idle,
  idle-TaskFits, end_task-is_idle,
}

lost-terminal : worker_terminal WorkerState.lost ≡ true
unfolding worker_terminal
lost-terminal = refl

starting-open : (s : WorkerState) → s ≡ WorkerState.starting → worker_terminal s ≡ false
unfolding worker_terminal
starting-open s h = ground arith

pub running-open : (s : WorkerState) → s ≡ WorkerState.running → worker_terminal s ≡ false
unfolding worker_terminal
running-open s h = ground arith

cancelled-terminal :
    (w : Answers)
    → worker_terminal (if w.cancel_returns then WorkerState.cancelled else WorkerState.lost) ≡ true
unfolding worker_terminal
cancelled-terminal w = ground arith

cancelled-incomplete :
    (w : Answers)
    → (if w.cancel_returns then WorkerState.cancelled else WorkerState.lost) ≢ WorkerState.completed
cancelled-incomplete w h = ground arith

-- A resource that was just created may be started.
start-ResourceIsOpen :
    (calls : List RuntimeCall) (h : WorkerHandle)
    → resource calls ≡ some (view h)
    → h.state ≡ WorkerState.starting
    → (resource (RuntimeCall.start ∷ calls) ≡ some Resource.live)
      × ResourceIsOpen (RuntimeCall.start ∷ calls)
unfolding after view_of
start-ResourceIsOpen calls h contract first =
    let live = resource-after RuntimeCall.start calls contract ∙ (ground arith) in
    (live, (Resource.live, live, λ returned. refl))

pub cancel-kept :
    (calls : List RuntimeCall) (h : WorkerHandle)
    → resource calls ≡ some (view h)
    → worker_terminal h.state ≡ false
    → resource (RuntimeCall.cancel ∷ calls) ≡ some (view h)
unfolding after view_of worker_terminal
cancel-kept calls h contract open_state =
    resource-after RuntimeCall.cancel calls contract ∙ (ground arith)

wait-kept :
    (calls : List RuntimeCall) (h : WorkerHandle)
    → resource calls ≡ some (view h)
    → h.state ≡ WorkerState.running
    → resource (RuntimeCall.wait ∷ calls) ≡ some (view h)
unfolding after view_of
wait-kept calls h contract run = resource-after RuntimeCall.wait calls contract ∙ (ground arith)

module _ {Cpu : Type 0} where
  abbrev InvAfter : {A : Type 0} → ManagedWorker Cpu × Manages A → Type 0
  InvAfter x = Inv x.0

  -- Another call and another task, of a worker that is otherwise as it was.
  pub called-Inv :
      (m : ManagedWorker Cpu) (call : RuntimeCall) (task : CollectionTask)
      → Inv m
      → resource (call ∷ m.calls) ≡ some (view m.handle)
      → TaskFits m.request m.handle.state task
      → Inv (record m { calls = call ∷ m.calls; collection_task = task })
  called-Inv m call task v contract fits = record {
    contract = contract;
    task = fits;
    response = v.response;
    unanswered = v.unanswered;
    succeeded = v.succeeded;
    recorded = v.recorded;
    named = v.named;
  }

  -- Another task, of a worker that is otherwise as it was.
  pub retasked-Inv :
      (m : ManagedWorker Cpu) (task : CollectionTask)
      → Inv m
      → TaskFits m.request m.handle.state task
      → Inv (record m { collection_task = task })
  retasked-Inv m task v fits = record {
    contract = v.contract;
    task = fits;
    response = v.response;
    unanswered = v.unanswered;
    succeeded = v.succeeded;
    recorded = v.recorded;
    named = v.named;
  }

  pub start_failed-worker : (x : ManagedWorker Cpu × Manages (Unit {0})) → (start_failed x).0 ≡ x.0
  unfolding start_failed
  start_failed-worker (m, ok _) = refl
  start_failed-worker (m, err e) = refl

  pub then_handle-worker : (x : ManagedWorker Cpu × Manages (Unit {0})) → (then_handle x).0 ≡ x.0
  unfolding then_handle
  then_handle-worker (m, ok _) = refl
  then_handle-worker (m, err e) = refl

  started-Inv :
      (w : Answers) (m : ManagedWorker Cpu)
      → Inv m
      → m.handle.state ≡ WorkerState.starting
      → Inv (record m { handle = running_handle w m.handle; calls = RuntimeCall.start ∷ m.calls })
  unfolding view_of worker_terminal
  started-Inv w m v first = record {
    contract = (start-ResourceIsOpen m.calls m.handle v.contract first).0;
    task = idle-TaskFits m.request WorkerState.running m.collection_task (
        starting-is_idle m.request m.handle.state m.collection_task (λ run. cc (run, first))
          v.task);
    response = v.response;
    unanswered = λ _. v.unanswered (starting-open m.handle.state first);
    succeeded = λ done. cc;
    recorded = λ ended. cc;
    named = v.named;
  }

  start_failed-Inv :
      (w : Answers) (m : ManagedWorker Cpu)
      → Inv m
      → m.handle.state ≡ WorkerState.starting
      → Inv
          (cleanup w 0 (called RuntimeCall.start m) WorkerState.lost (some "worker_start_failed")).0
  start_failed-Inv w m v first =
      let failed = called RuntimeCall.start m in
      let c = cleanup-Cleaned w 0 failed WorkerState.lost (some "worker_start_failed") in
      let q = (cleanup w 0 failed WorkerState.lost (some "worker_start_failed")).0 in
      Cleaned-Inv w 0 failed q WorkerState.lost (some "worker_start_failed") q.collection_task c
        (start-ResourceIsOpen m.calls m.handle v.contract first).1 v.response v.named lost-terminal
        (λ done. cc)
        (ap is_idle c.task
          ∙ starting-is_idle m.request m.handle.state m.collection_task (λ run. cc (run, first))
              v.task)

  pub start_worker-Inv : (w : Answers) (m : ManagedWorker Cpu) → Inv m → Inv (start_worker w m).0
  unfolding start_worker
  start_worker-Inv w m v =
      if_split InvAfter (m.handle.state == WorkerState.running) _ _ (λ run. v)
        λ still.
          if_split InvAfter (not (m.handle.state == WorkerState.starting)) _ _ (λ other. v)
            λ first.
              let starting =
                (worker_state_eq.beq_iff m.handle.state WorkerState.starting).0 (ground arith) in
              if_split InvAfter w.start_returns _ _ (λ returned. started-Inv w m v starting)
                λ raised. subst Inv (sym (start_failed-worker _)) (start_failed-Inv w m v starting)

  cancel_with-Inv :
      (w : Answers) (m : ManagedWorker Cpu) (outcome : Validates WorkerResponse)
      → Inv m
      → worker_terminal m.handle.state ≡ false
      → ((r : WorkerResponse) → outcome ≡ ok r → Fits m.request r)
      → Inv (cancel_with w m outcome).0
  unfolding cancel_with
  cancel_with-Inv w m (err e) v open_state fits = v
  cancel_with-Inv w m (ok r) v open_state fits =
      let answered = record m { response = some r; collection_task = end_task m.collection_task } in
      let state = if w.cancel_returns then WorkerState.cancelled else WorkerState.lost in
      let code : Option String = if w.cancel_returns then none else some "worker_cancel_failed" in
      let q = (cleanup w 1 answered state code).0 in
      let c = cleanup-Cleaned w 1 answered state code in
      subst Inv (sym (then_handle-worker _)) (
        Cleaned-Inv w 1 answered q state code q.collection_task c
          (view-ResourceIsOpen m.calls m.handle v.contract open_state) (fits r refl) v.named
          (cancelled-terminal w) (λ done. absurd (cancelled-incomplete w done))
          (ap is_idle c.task ∙ end_task-is_idle m.collection_task))

  pub cancel_worker-Inv : (w : Answers) (m : ManagedWorker Cpu) → Inv m → Inv (cancel_worker w m).0
  unfolding cancel_worker
  cancel_worker-Inv w m v =
      if_split InvAfter (worker_terminal m.handle.state) _ _ (λ ended. v)
        λ open_state.
          cancel_with-Inv w (called RuntimeCall.cancel m) _
            (called-Inv m RuntimeCall.cancel m.collection_task v
              (cancel-kept m.calls m.handle v.contract open_state) v.task)
            open_state
            (λ r.
              own_response-Fits m WorkerResultStatus.cancelled (w.reading 0)
                (if w.cancel_returns then "worker_cancelled" else "worker_cancel_failed"))

  await_task-Inv :
      (task : CollectionTask) (m : ManagedWorker Cpu)
      → Inv m
      → m.handle.state ≡ WorkerState.running
      → Inv (await_task task m).0
  unfolding await_task
  await_task-Inv CollectionTask.absent m v run =
      called-Inv m RuntimeCall.wait CollectionTask.waiting v
        (wait-kept m.calls m.handle v.contract run) run
  await_task-Inv CollectionTask.waiting m v run = v
  await_task-Inv CollectionTask.done m v run = v
  await_task-Inv (CollectionTask.answered r) m v run = v
  await_task-Inv (CollectionTask.raised e) m v run = v

  collect_from-Inv :
      (held : Option WorkerResponse) (m : ManagedWorker Cpu) → Inv m → Inv (collect_from held m).0
  unfolding collect_from
  collect_from-Inv (some r) m v = v
  collect_from-Inv none m v =
      if_split InvAfter (not (m.handle.state == WorkerState.running)) _ _ (λ other. v)
        λ run.
          await_task-Inv m.collection_task m v
            ((worker_state_eq.beq_iff m.handle.state WorkerState.running).0 (ground arith))

  pub collect_worker-Inv : (m : ManagedWorker Cpu) → Inv m → Inv (collect_worker m).0
  unfolding collect_worker
  collect_worker-Inv m v = collect_from-Inv m.response m v
