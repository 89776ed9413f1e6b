-- ===== src/Execution/Manager/Invariant.antt =====
-- What holds of a worker of execution/manager.py between any two steps.
use vuln_proof_claw.Common.{
  ℕ, Bool, true, false, ◌≡◌, ◌≢◌, refl, ap, ◌∙◌, sym, subst, Option, none, some, List, arith,
  Bool-cases, ◌⊎◌, inl, inr, string_eq, option_eq, if◌then◌else◌, String,
}
use vuln_proof_claw.Domain.Enums.{WorkerState, worker_state_eq, worker_terminal}
use vuln_proof_claw.Execution.Protocol.{WorkerRequest, WorkerResponse, WorkerResultStatus}
use vuln_proof_claw.Execution.Manager.{
  Answers, RuntimeCall, ManagedWorker, CollectionTask, WorkerHandle, cleaned_handle, cleanup_failed,
  end_task,
}
use vuln_proof_claw.Execution.Manager.Cleaned.{Fits, ResponseFits, Cleaned, cleaned_handle-state}
use vuln_proof_claw.Execution.Manager.Contract.{
  Resource, after, resource, view, view_of, resource-after, view_of-terminal,
}

-- There is a response, and its status is success.
abbrev pub HasSucceeded : Option WorkerResponse → Type 0
HasSucceeded none = ⊥
HasSucceeded (some r) = r.status ≡ WorkerResultStatus.succeeded

-- A task that is not running.
abbrev pub is_idle : CollectionTask → Bool
is_idle CollectionTask.waiting = false
is_idle (CollectionTask.answered r) = false
is_idle task = true

-- What the handle says of an ended worker: it was destroyed, or the failure to destroy it is kept.
abbrev pub IsRecorded : WorkerHandle → Type 0
IsRecorded h =
    (h.cleaned_up ≡ true) ⊎ (h.state ≡ WorkerState.lost) × (h.error_code ≡ some cleanup_failed)

pub end_task-is_idle : (task : CollectionTask) → is_idle (end_task task) ≡ true
end_task-is_idle task = ground arith

-- The resource has been created and not destroyed.
abbrev pub ResourceIsOpen : List RuntimeCall → Type 0
ResourceIsOpen calls =
    (before : Resource) × (resource calls ≡ some before)
    × ((returned : Bool)
        → after (RuntimeCall.destroy returned) before ≡ some (Resource.gone returned))

pub view-ResourceIsOpen :
    (calls : List RuntimeCall) (h : WorkerHandle)
    → resource calls ≡ some (view h)
    → worker_terminal h.state ≡ false
    → ResourceIsOpen calls
unfolding after view_of worker_terminal
view-ResourceIsOpen calls h contract open_state = (view h, contract, λ returned. ground arith)

cleaned-completed :
    (w : Answers) (state : WorkerState)
    → (if w.destroy_returns then state else WorkerState.lost) ≡ WorkerState.completed
    → (w.destroy_returns ≡ true) × (state ≡ WorkerState.completed)
cleaned-completed w state h = ground arith

cleaned-IsRecorded :
    (w : Answers) (n : ℕ) (state : WorkerState) (code : Option String) (h : WorkerHandle)
    → IsRecorded (cleaned_handle w n state code h)
unfolding cleaned_handle
cleaned-IsRecorded w n state code h = elim (Bool-cases w.destroy_returns) [
  | inl returned ↦ inl returned
  | inr failed ↦ inr (rw failed refl, rw failed refl)
]

cleaned-view :
    (w : Answers) (n : ℕ) (state : WorkerState) (code : Option String) (h : WorkerHandle)
    → worker_terminal state ≡ true
    → view (cleaned_handle w n state code h) ≡ Resource.gone w.destroy_returns
unfolding cleaned_handle
cleaned-view w n state code h ends = view_of-terminal _ _ (cleaned_handle-state w state ends)

module _ {Cpu : Type 0} where
  abbrev pub TaskFits : WorkerRequest Cpu → WorkerState → CollectionTask → Type 0
  TaskFits request state CollectionTask.waiting = state ≡ WorkerState.running
  TaskFits request state (CollectionTask.answered r) =
      (state ≡ WorkerState.running) × Fits request r
  TaskFits request state task = Unit

  pub record Inv (m : ManagedWorker Cpu) : Type 0 where
    pub contract : resource m.calls ≡ some (view m.handle)
    pub task : TaskFits m.request m.handle.state m.collection_task
    pub response : ResponseFits m.request m.response
    pub unanswered : worker_terminal m.handle.state ≡ false → m.response ≡ none
    pub succeeded : m.handle.state ≡ WorkerState.completed → HasSucceeded m.response
    pub recorded : worker_terminal m.handle.state ≡ true → IsRecorded m.handle
    pub named : m.handle.request_id ≡ m.request.request_id

  pub idle-TaskFits :
      (request : WorkerRequest Cpu) (state : WorkerState) (task : CollectionTask)
      → is_idle task ≡ true
      → TaskFits request state task
  idle-TaskFits request state CollectionTask.absent h = tt
  idle-TaskFits request state CollectionTask.waiting h = cc
  idle-TaskFits request state CollectionTask.done h = tt
  idle-TaskFits request state (CollectionTask.answered r) h = cc
  idle-TaskFits request state (CollectionTask.raised e) h = tt

  pub starting-is_idle :
      (request : WorkerRequest Cpu) (state : WorkerState) (task : CollectionTask)
      → state ≢ WorkerState.running
      → TaskFits request state task
      → is_idle task ≡ true
  starting-is_idle request state CollectionTask.absent h t = refl
  starting-is_idle request state CollectionTask.waiting h t = absurd (h t)
  starting-is_idle request state CollectionTask.done h t = refl
  starting-is_idle request state (CollectionTask.answered r) h t = absurd (h t.0)
  starting-is_idle request state (CollectionTask.raised e) h t = refl

  Cleaned-HasSucceeded :
      (w : Answers) (n : ℕ) (m q : ManagedWorker Cpu) (state : WorkerState) (code : Option String)
      → Cleaned w n m state code q
      → (state ≡ WorkerState.completed → HasSucceeded m.response × (code ≡ none))
      → q.handle.state ≡ WorkerState.completed
      → HasSucceeded q.response
  unfolding cleaned_handle
  Cleaned-HasSucceeded w n m q state code c given done =
      let states = ap (λ (h : WorkerHandle). h.state) c.handle in
      let codes = ap (λ (h : WorkerHandle). h.error_code) c.handle in
      let (returned, completed) = cleaned-completed w state (sym states ∙ done) in
      let (has, fine) = given completed in
      elim c.response [
        | inl same ↦ subst HasSucceeded (sym same) has
        | inr (failed, _) ↦ absurd (ground arith)
      ]

  -- The cleanup of a worker that has not ended keeps the invariant, if its task then rests.
  pub Cleaned-Inv :
      (w : Answers) (n : ℕ) (m q : ManagedWorker Cpu) (state : WorkerState) (code : Option String)
      (task : CollectionTask)
      → Cleaned w n m state code q
      → ResourceIsOpen m.calls
      → ResponseFits m.request m.response
      → m.handle.request_id ≡ m.request.request_id
      → worker_terminal state ≡ true
      → (state ≡ WorkerState.completed → HasSucceeded m.response × (code ≡ none))
      → is_idle task ≡ true
      → Inv (record q { collection_task = task })
  unfolding cleaned_handle
  Cleaned-Inv w n m q state code task c (before, contract, permitted) fits named ends given idle =
      let states = ap (λ (h : WorkerHandle). h.state) c.handle in
      let ended = ap worker_terminal states ∙ cleaned_handle-state w state ends in
      record {
        contract =
            ap resource c.calls
            ∙ resource-after (RuntimeCall.destroy w.destroy_returns) m.calls contract
            ∙ permitted w.destroy_returns
            ∙ ap some (sym (ap view c.handle ∙ cleaned-view w n state code m.handle ends));
        task = idle-TaskFits q.request q.handle.state task idle;
        response = elim c.response [
          | inl same ↦
              subst (λ r. ResponseFits r q.response) (sym c.request)
                (subst (ResponseFits m.request) (sym same) fits)
          | inr (_, replaced) ↦ subst (λ r. ResponseFits r q.response) (sym c.request) replaced
        ];
        unanswered = λ open_now. absurd (cc (ended, open_now));
        succeeded = Cleaned-HasSucceeded w n m q state code c given;
        recorded =
            λ _. subst IsRecorded (sym c.handle) (cleaned-IsRecorded w n state code m.handle);
        named =
            ap (λ (h : WorkerHandle). h.request_id) c.handle
            ∙ named
            ∙ ap (λ (r : WorkerRequest Cpu). r.request_id) (sym c.request);
      }
