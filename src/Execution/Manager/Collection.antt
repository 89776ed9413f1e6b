-- ===== src/Execution/Manager/Collection.antt =====
-- The task of execution/manager.py that waits for a response, and the invariant.
use vuln_proof_claw.Common.{true, ◌≡◌, refl, subst, some, arith, if_split}
use vuln_proof_claw.Common.Results.{ok, err}
use vuln_proof_claw.Domain.Enums.{WorkerState, worker_terminal}
use vuln_proof_claw.Execution.Protocol.{
  WorkerRequest, WorkerResponse, WorkerResultStatus, Validates, validate_response,
}
use vuln_proof_claw.Execution.Manager.{
  Answers, RuntimeCall, ManagedWorker, Manages, CollectionTask, WaitOutcome, responds, times_out,
  fails, cleanup, state_for_response,
}
use vuln_proof_claw.Execution.Manager.Tasks.{
  outcome_response, matched, settle_task, settle, finish_task, finish, end_with, task_of,
  task_after, outcome_called, response_matches,
}
use vuln_proof_claw.Execution.Manager.Index.{Act, starts, cancels, collects, settles, finishes, act}
use vuln_proof_claw.Execution.Manager.Bound.{matched-IsBound}
use vuln_proof_claw.Execution.Manager.Cleaned.{
  Fits, cleanup-Cleaned, own_response-Fits, validate_response-succeeded,
}
use vuln_proof_claw.Execution.Manager.Invariant.{
  is_idle, TaskFits, Inv, view-ResourceIsOpen, Cleaned-Inv,
}
use vuln_proof_claw.Execution.Manager.Steps.{
  running-open, cancel-kept, called-Inv, retasked-Inv, start_worker-Inv, cancel_worker-Inv,
  collect_worker-Inv,
}

-- A response of the runtime has passed the constructor's checks.
abbrev pub IsSound : WaitOutcome → Type 0
IsSound (responds r) = validate_response r ≡ ok r
IsSound outcome = Unit

abbrev pub ActIsSound : Act → Type 0
ActIsSound (settles w outcome) = IsSound outcome
ActIsSound step = Unit

state_for_response-terminal :
    (s : WorkerResultStatus) → worker_terminal (state_for_response s) ≡ true
unfolding worker_terminal state_for_response
state_for_response-terminal s = ground arith

state_for_response-completed :
    (s : WorkerResultStatus)
    → state_for_response s ≡ WorkerState.completed
    → s ≡ WorkerResultStatus.succeeded
unfolding state_for_response
state_for_response-completed s h = ground arith

task_after-is_idle : (result : Manages (Unit {0})) → is_idle (task_after result) ≡ true
task_after-is_idle result = ground arith

module _ {Cpu : Type 0} where
  outcome_response-valid :
      (w : Answers) (outcome : WaitOutcome) (m : ManagedWorker Cpu)
      → IsSound outcome
      → (r : WorkerResponse) → outcome_response w outcome m ≡ ok r
      → validate_response r ≡ ok r
  unfolding outcome_response
  outcome_response-valid w (responds q) m sound r h =
      subst (λ x. validate_response x ≡ ok x) (ground arith) sound
  outcome_response-valid w times_out m sound r h =
      if_split (λ x. x ≡ ok r → validate_response r ≡ ok r) w.cancel_returns _ _
        (λ _ made. (own_response-Fits m _ _ _ made).1)
        (λ _ made. (own_response-Fits m _ _ _ made).1) h
  outcome_response-valid w fails m sound r h = (own_response-Fits m _ _ _ h).1

  matched-valid :
      (w : Answers) (m : ManagedWorker Cpu) (outcome : Validates WorkerResponse)
      → ((r : WorkerResponse) → outcome ≡ ok r → validate_response r ≡ ok r)
      → (r : WorkerResponse) → matched w m outcome ≡ ok r
      → validate_response r ≡ ok r
  unfolding matched
  matched-valid w m (err e) valid r h = cc
  matched-valid w m (ok q) valid r h =
      if_split (λ x. x ≡ ok r → validate_response r ≡ ok r) (response_matches m.request q) _ _
        (λ _ given. valid r given) (λ _ made. (own_response-Fits m _ _ _ made).1) h

  task_of-TaskFits :
      (request : WorkerRequest Cpu) (state : WorkerState) (result : Validates WorkerResponse)
      → state ≡ WorkerState.running
      → ((r : WorkerResponse) → result ≡ ok r → Fits request r)
      → TaskFits request state (task_of result)
  task_of-TaskFits request state (ok r) run fits = (run, fits r refl)
  task_of-TaskFits request state (err e) run fits = tt

  settled-Inv :
      (outcome : WaitOutcome) (m : ManagedWorker Cpu) (task : CollectionTask)
      → Inv m
      → m.handle.state ≡ WorkerState.running
      → TaskFits m.request m.handle.state task
      → Inv (record (outcome_called outcome m) { collection_task = task })
  unfolding outcome_called
  settled-Inv (responds r) m task v run fits = retasked-Inv m task v fits
  settled-Inv times_out m task v run fits =
      called-Inv m RuntimeCall.cancel task v
        (cancel-kept m.calls m.handle v.contract (running-open m.handle.state run)) fits
  settled-Inv fails m task v run fits = retasked-Inv m task v fits

  settle_task-Inv :
      (task : CollectionTask) (w : Answers) (outcome : WaitOutcome) (m : ManagedWorker Cpu)
      → Inv m
      → TaskFits m.request m.handle.state task
      → IsSound outcome
      → Inv (settle_task task w outcome m)
  unfolding settle_task
  settle_task-Inv CollectionTask.waiting w outcome m v run sound = settled-Inv outcome m _ v run (
      task_of-TaskFits m.request m.handle.state _ run λ r h. (
        matched-IsBound w m (outcome_response w outcome m) h,
        matched-valid w m (outcome_response w outcome m) (outcome_response-valid w outcome m sound)
            r h,
      ))
  settle_task-Inv CollectionTask.absent w outcome m v fits sound = v
  settle_task-Inv CollectionTask.done w outcome m v fits sound = v
  settle_task-Inv (CollectionTask.answered r) w outcome m v fits sound = v
  settle_task-Inv (CollectionTask.raised e) w outcome m v fits sound = v

  answered-Inv :
      (w : Answers) (m : ManagedWorker Cpu) (r : WorkerResponse)
      → Inv m
      → m.handle.state ≡ WorkerState.running
      → Fits m.request r
      → Inv (
          end_with (
            cleanup w 0
              (record m { response = some r })
              (state_for_response r.status)
              r.error_code))
  answered-Inv w m r v run fits =
      let held = record m { response = some r } in
      let state = state_for_response r.status in
      let x = cleanup w 0 held state r.error_code in
      Cleaned-Inv w 0 held x.0 state r.error_code (task_after x.1)
        (cleanup-Cleaned w 0 held state r.error_code)
        (view-ResourceIsOpen m.calls m.handle v.contract (running-open m.handle.state run)) fits
        v.named (state_for_response-terminal r.status)
        (λ done.
          let success = state_for_response-completed r.status done in
          (success, validate_response-succeeded r fits.1 success))
        (task_after-is_idle x.1)

  finish_task-Inv :
      (task : CollectionTask) (w : Answers) (m : ManagedWorker Cpu)
      → Inv m
      → TaskFits m.request m.handle.state task
      → Inv (finish_task task w m)
  unfolding finish_task
  finish_task-Inv (CollectionTask.answered r) w m v (run, fits) =
      let empty = v.unanswered (running-open m.handle.state run) in
      rw empty (answered-Inv w m r v run fits)
  finish_task-Inv CollectionTask.absent w m v fits = v
  finish_task-Inv CollectionTask.waiting w m v fits = v
  finish_task-Inv CollectionTask.done w m v fits = v
  finish_task-Inv (CollectionTask.raised e) w m v fits = v

  -- Every step on a worker keeps the invariant.
  pub act-Inv : (step : Act) (m : ManagedWorker Cpu) → ActIsSound step → Inv m → Inv (act step m)
  unfolding act settle finish
  act-Inv (starts w) m sound v = start_worker-Inv w m v
  act-Inv (cancels w) m sound v = cancel_worker-Inv w m v
  act-Inv collects m sound v = collect_worker-Inv m v
  act-Inv (settles w outcome) m sound v =
      settle_task-Inv m.collection_task w outcome m v v.task sound
  act-Inv (finishes w) m sound v = finish_task-Inv m.collection_task w m v v.task
