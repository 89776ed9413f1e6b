-- ===== src/Execution/Manager/Outcomes.antt =====
-- How the workers of execution/manager.py end.
use vuln_proof_claw.Common.{
  true, false, ◌≡◌, ◌≢◌, refl, ap, ◌∙◌, subst, Option, none, some, arith, inl, inr, String, lookup,
  insert, lookup-insert, ◌==◌, string_eq, if_split, Eq,
}
use vuln_proof_claw.Domain.Enums.{
  WorkerState, WorkerState-discrete, worker_state_eq, worker_terminal,
}
use vuln_proof_claw.Execution.Protocol.{WorkerRequest, WorkerResponse, WorkerResultStatus}
use vuln_proof_claw.Execution.Manager.{
  ManagedWorker, Manager, CollectionTask, Answers, start_worker, cancel_worker, collect_worker,
  collect_from, WaitOutcome,
}
use vuln_proof_claw.Execution.Manager.Tasks.{settle, settle_task, finish, finish_task}
use vuln_proof_claw.Execution.Manager.Index.{
  Act, starts, cancels, collects, settles, finishes, act, no_workers,
}
use vuln_proof_claw.Execution.Manager.Bound.{IsBound}
use vuln_proof_claw.Execution.Manager.Contract.{Resource, resource, view, view_of}
use vuln_proof_claw.Execution.Manager.Cleaned.{ResponseFits}
use vuln_proof_claw.Execution.Manager.Invariant.{Inv, HasSucceeded, is_idle, starting-is_idle}
use vuln_proof_claw.Execution.Manager.Histories.{
  Later, here, submits, acts, act_on-cases, submit-cases, Later-WorkersInv, no_workers-WorkersInv,
}

running-ne-terminal : (s : WorkerState) → worker_terminal s ≡ true → s ≢ WorkerState.running
unfolding worker_terminal
running-ne-terminal s h run = ground arith

ended-tests :
    (s : WorkerState)
    → worker_terminal s ≡ true
    → ((s == WorkerState.running) ≡ false) × ((s == WorkerState.starting) ≡ false)
unfolding worker_terminal WorkerState-discrete
ended-tests s h = ground arith

module _ {Cpu : Type 0} where
  abbrev HasEnded : ManagedWorker Cpu → Type 0
  HasEnded m = worker_terminal m.handle.state ≡ true

  start_ended : (w : Answers) (m : ManagedWorker Cpu) → HasEnded m → (start_worker w m).0 ≡ m
  unfolding start_worker
  start_ended w m ended =
      let (not_running, not_starting) = ended-tests m.handle.state ended in
      rw (not_running, not_starting)

  collect_from_ended :
      (held : Option WorkerResponse) (m : ManagedWorker Cpu)
      → (m.handle.state == WorkerState.running) ≡ false
      → (collect_from held m).0 ≡ m
  unfolding collect_from
  collect_from_ended (some r) m other = refl
  collect_from_ended none m other = rw other

  settle_idle :
      (task : CollectionTask) (w : Answers) (outcome : WaitOutcome) (m : ManagedWorker Cpu)
      → is_idle task ≡ true
      → settle_task task w outcome m ≡ m
  unfolding settle_task
  settle_idle task w outcome m idle = ground arith

  finish_idle :
      (task : CollectionTask) (w : Answers) (m : ManagedWorker Cpu)
      → is_idle task ≡ true
      → finish_task task w m ≡ m
  unfolding finish_task
  finish_idle task w m idle = ground arith

  collect_ended : (m : ManagedWorker Cpu) → HasEnded m → (collect_worker m).0 ≡ m
  unfolding collect_worker collect_from
  collect_ended m ended = collect_from_ended m.response m (ended-tests m.handle.state ended).0

  idle_ended : (m : ManagedWorker Cpu) → Inv m → HasEnded m → is_idle m.collection_task ≡ true
  idle_ended m v ended =
      starting-is_idle m.request m.handle.state m.collection_task
        (running-ne-terminal m.handle.state ended) v.task

  -- No step changes a worker that has ended.
  act_ended : (step : Act) (m : ManagedWorker Cpu) → Inv m → HasEnded m → act step m ≡ m
  unfolding act cancel_worker settle finish
  act_ended (starts w) m v ended = start_ended w m ended
  act_ended (cancels w) m v ended = ground arith
  act_ended collects m v ended = collect_ended m ended
  act_ended (settles w outcome) m v ended =
      settle_idle m.collection_task w outcome m (idle_ended m v ended)
  act_ended (finishes w) m v ended = finish_idle m.collection_task w m (idle_ended m v ended)

  module _ ⦃same_request : Eq (WorkerRequest Cpu)⦄ where
    -- In any history, the calls made of the runtime for a worker are ones that the contract of a
    -- resource permits in that order, and they leave the resource as the handle says: made, running, or
    -- gone, with its destruction done or failed.
    pub Later-resource :
        {m : Manager Cpu} (id : String) (w : ManagedWorker Cpu)
        → Later no_workers m
        → lookup id m.workers ≡ some w
        → resource w.calls ≡ some (view w.handle)
    Later-resource id w h found = (Later-WorkersInv h no_workers-WorkersInv id w found).contract

    -- What is known of a worker that is reported as completed.
    pub record Completion (w : ManagedWorker Cpu) : Type 0 where
      pub response : WorkerResponse
      pub held : w.response ≡ some response
      pub bound : IsBound w.request response
      pub success : response.status ≡ WorkerResultStatus.succeeded
      pub cleaned : w.handle.cleaned_up ≡ true
      pub destroyed : resource w.calls ≡ some (Resource.gone true)

    completed-Completion :
        (w : ManagedWorker Cpu) (held : Option WorkerResponse)
        → w.response ≡ held
        → Inv w
        → w.handle.state ≡ WorkerState.completed
        → Completion w
    unfolding view_of worker_terminal
    completed-Completion w none e v done = absurd (subst HasSucceeded e (v.succeeded done))
    completed-Completion w (some r) e v done =
        let cleaned : w.handle.cleaned_up ≡ true = elim (v.recorded (rw done refl)) [
          | inl clean ↦ clean
          | inr (lost, _) ↦ cc (lost, done)
        ] in
        record {
          response = r;
          held = e;
          bound = (subst (ResponseFits w.request) e v.response).0;
          success = subst HasSucceeded e (v.succeeded done);
          cleaned = cleaned;
          destroyed =
              v.contract
              ∙ ap some (ap (λ s. view_of s w.handle.cleaned_up) done ∙ ap Resource.gone cleaned);
        }

    -- In any history, a worker whose state is completed holds a success that is bound to its request, and
    -- its resource has been destroyed.
    pub Later-Completion :
        {m : Manager Cpu} (id : String) (w : ManagedWorker Cpu)
        → Later no_workers m
        → lookup id m.workers ≡ some w
        → w.handle.state ≡ WorkerState.completed
        → Completion w
    Later-Completion id w h found =
        completed-Completion w w.response refl (Later-WorkersInv h no_workers-WorkersInv id w found)

    lookup-save_other :
        (id j : String) (w : ManagedWorker Cpu) (m : Manager Cpu) (q : ManagedWorker Cpu)
        → lookup id m.workers ≡ some q
        → ((j ≡ id) → w ≡ q)
        → lookup id (insert j w m.workers) ≡ some q
    lookup-save_other id j w m q found agree =
        lookup-insert j id w m.workers
        ∙ (if_split (λ x. x ≡ some q) (j == id) _ _
            (λ same. ap some (agree ((string_eq.beq_iff j id).0 same))) (λ other. found))

    -- After any history, a worker that has ended is, through any later submissions and steps, as it was.
    pub Later-ended :
        {m m' : Manager Cpu} (id : String) (w : ManagedWorker Cpu)
        → Later no_workers m
        → lookup id m.workers ≡ some w
        → worker_terminal w.handle.state ≡ true
        → Later m m'
        → lookup id m'.workers ≡ some w
    Later-ended id w h found ended here = found
    Later-ended id w h found ended (submits {m'} request j created at more fresh) =
        let kept = Later-ended id w h found ended more in
        elim (submit-cases request j created at m') [
          | inl same ↦ ap (λ (x : Manager Cpu). lookup id x.workers) same ∙ kept
          | inr (reference, _, changed) ↦
              ap (λ (x : Manager Cpu). lookup id x.workers) changed
              ∙ lookup-save_other id j _ m' w kept
                  (λ same. absurd (cc (fresh, kept, ap (λ k. lookup k m'.workers) same)))
        ]
    Later-ended id w h found ended (acts {m'} step j more sound) =
        let kept = Later-ended id w h found ended more in
        elim (act_on-cases step j m') [
          | inl same ↦ ap (λ (x : Manager Cpu). lookup id x.workers) same ∙ kept
          | inr (q, there, changed) ↦
              ap (λ (x : Manager Cpu). lookup id x.workers) changed
              ∙ lookup-save_other id j (act step q) m' w kept λ same.
                let again : q ≡ w = cc (there, kept, ap (λ k. lookup k m'.workers) same) in
                ap (act step) again
                ∙ act_ended step w (Later-WorkersInv h no_workers-WorkersInv id w found) ended
        ]
