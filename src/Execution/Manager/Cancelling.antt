-- ===== src/Execution/Manager/Cancelling.antt =====
-- `cancel` of execution/manager.py on a worker that has not ended, by what the clock reads.
use vuln_proof_claw.Common.{
  ℕ, suc, true, false, ◌&&◌, ◌≡◌, ◌≢◌, ◌<◌, ◌≤◌, refl, ap, ◌∙◌, sym, subst, Option, none, some, ◌∷◌,
  arith, or_else, if◌then◌else◌, String, ◌==◌, string_eq, option_eq, if_split,
}
use vuln_proof_claw.Common.Results.{ok, err}
use vuln_proof_claw.Domain.Enums.{WorkerState, worker_terminal}
use vuln_proof_claw.Domain.Errors.{Time}
use vuln_proof_claw.Execution.Protocol.{
  WorkerResultStatus, ProtocolError, validate_response, validate_failure, value_error,
}
use vuln_proof_claw.Execution.Manager.{
  ManagedWorker, Manages, RuntimeCall, WorkerHandle, Answers, invalid_message, cancel_worker,
  cancel_with, called, own_response, own_message, cleanup, cleaned_handle, cleanup_failed,
  store_failure, then_handle, end_task,
}
use vuln_proof_claw.Execution.Manager.Cleaned.{Cleaned, cleanup-Cleaned, cleaned_handle-state}

abbrev pub late : ProtocolError
late = value_error "completed_at must not be earlier than started_at"

abbrev code_of : Answers → String
code_of w = if w.cancel_returns then "worker_cancelled" else "worker_cancel_failed"

code_of-named : (w : Answers) → (code_of w == "") ≡ false
code_of-named w =
    if_split (λ (code : String). (code == "") ≡ false) w.cancel_returns _ _ (λ _. refl) (λ _. refl)

cancelled-terminal :
    (w : Answers)
    → worker_terminal (if w.cancel_returns then WorkerState.cancelled else WorkerState.lost) ≡ true
unfolding worker_terminal
cancelled-terminal w = ground arith

module _ {Cpu : Type 0} where
  -- When the handle was last updated.
  abbrev pub since : ManagedWorker Cpu → Time
  since m = or_else m.handle.updated_at m.handle.created_at

  own_response-ok :
      (m : ManagedWorker Cpu) (status : WorkerResultStatus) (at : Time) (code : String)
      → status ≢ WorkerResultStatus.succeeded
      → (code == "") ≡ false
      → since m ≤ at
      → own_response m status at code ≡ ok (own_message m status at code)
  unfolding own_response validate_response validate_failure
  own_response-ok m status at code failure named in_time = ground arith

  own_response-late :
      (m : ManagedWorker Cpu) (status : WorkerResultStatus) (at : Time) (code : String)
      → at < since m
      → own_response m status at code ≡ err late
  unfolding own_response validate_response
  own_response-late m status at code behind = ground arith

  -- The cleanup returns if the clock does not run back within it.
  cleanup-ok :
      (w : Answers) (n : ℕ) (m : ManagedWorker Cpu) (state : WorkerState) (code : Option String)
      → w.reading n ≤ w.reading (suc n)
      → (cleanup w n m state code).1 ≡ ok tt
  unfolding cleanup cleaned_handle store_failure
  cleanup-ok w n m state code in_time =
      let q = record m {
        calls = RuntimeCall.destroy w.destroy_returns ∷ m.calls;
        handle = cleaned_handle w n state code m.handle;
      } in
      let made =
        own_response-ok q WorkerResultStatus.worker_error (w.reading (suc n)) cleanup_failed
          (λ e. cc) refl in_time in
      if_split (λ (x : ManagedWorker Cpu × Manages (Unit {0})). x.1 ≡ ok tt)
        (q.handle.error_code == some cleanup_failed) _ _ (λ _. ap (λ o. (store_failure o q).1) made)
        (λ _. refl)

  then_handle-ok :
      (x : ManagedWorker Cpu × Manages (Unit {0}))
      → x.1 ≡ ok tt
      → then_handle x ≡ (x.0, ok x.0.handle)
  unfolding then_handle
  then_handle-ok (m, ok u) h = refl
  then_handle-ok (m, err e) h = cc

  -- How a worker stands that was cancelled.
  pub record Cancellation (w : Answers) (m q : ManagedWorker Cpu) : Type 0 where
    pub ended : worker_terminal q.handle.state ≡ true
    pub attempted : q.calls ≡ RuntimeCall.destroy w.destroy_returns ∷ RuntimeCall.cancel ∷ m.calls
    pub recorded : q.handle.cleaned_up ≡ w.destroy_returns
    pub state : q.handle.state ≡ (
        if w.cancel_returns && w.destroy_returns then WorkerState.cancelled else WorkerState.lost)

  Cleaned-Cancellation :
      (w : Answers) (m held q : ManagedWorker Cpu)
      → held.calls ≡ RuntimeCall.cancel ∷ m.calls
      → Cleaned w 1 held
          (if w.cancel_returns then WorkerState.cancelled else WorkerState.lost)
          (if w.cancel_returns then none else some "worker_cancel_failed")
          q
      → Cancellation w m q
  unfolding cleaned_handle
  Cleaned-Cancellation w m held q calls c = record {
    ended =
        ap (λ (h : WorkerHandle). worker_terminal h.state) c.handle
        ∙ cleaned_handle-state w _ (cancelled-terminal w);
    attempted = c.calls ∙ ap (λ k. RuntimeCall.destroy w.destroy_returns ∷ k) calls;
    recorded = ap (λ (h : WorkerHandle). h.cleaned_up) c.handle;
    state = ap (λ (h : WorkerHandle). h.state) c.handle ∙ ground arith;
  }

  cancelled_with :
      (w : Answers) (m held : ManagedWorker Cpu)
      → held.calls ≡ RuntimeCall.cancel ∷ m.calls
      → w.reading 1 ≤ w.reading 2
      → let state = if w.cancel_returns then WorkerState.cancelled else WorkerState.lost in
        let code : Option String = if w.cancel_returns then none else some "worker_cancel_failed" in
        let x = then_handle (cleanup w 1 held state code) in
        Cancellation w m x.0 × (x.1 ≡ ok x.0.handle)
  cancelled_with w m held calls forward =
      let state = if w.cancel_returns then WorkerState.cancelled else WorkerState.lost in
      let code : Option String = if w.cancel_returns then none else some "worker_cancel_failed" in
      let y = cleanup w 1 held state code in
      subst
        (λ (x : ManagedWorker Cpu × Manages WorkerHandle).
          Cancellation w m x.0 × (x.1 ≡ ok x.0.handle))
        (sym (then_handle-ok y (cleanup-ok w 1 held state code forward)))
        (Cleaned-Cancellation w m held y.0 calls (cleanup-Cleaned w 1 held state code), refl)

  -- Cancelling a worker that has not ended, with a clock that has not run back behind the handle's last
  -- update and does not run back within the cleanup: the call returns the new handle, the runtime's
  -- `cancel` and then `destroy` were called, the handle says whether `destroy` returned, and the worker
  -- has ended, as cancelled if both returned and else as lost.
  pub cancel_worker-Cancellation :
      (w : Answers) (m : ManagedWorker Cpu)
      → worker_terminal m.handle.state ≡ false
      → since m ≤ w.reading 0
      → w.reading 1 ≤ w.reading 2
      → Cancellation w m (cancel_worker w m).0
        × ((cancel_worker w m).1 ≡ ok (cancel_worker w m).0.handle)
  unfolding cancel_worker cancel_with
  cancel_worker-Cancellation w m open_state in_time forward =
      let made =
        own_response-ok m WorkerResultStatus.cancelled (w.reading 0) (code_of w) (λ e. cc)
          (code_of-named w) in_time in
      rw (open_state, made)
        (cancelled_with w m
          (record (called RuntimeCall.cancel m) {
            response = some (own_message m WorkerResultStatus.cancelled (w.reading 0) (code_of w));
            collection_task = end_task m.collection_task;
          })
          refl forward)

  -- Cancelling a worker that has not ended, with a clock that has run back behind the handle's last
  -- update: the call raises before the cleanup, so that `destroy` is not called and the worker is as it
  -- was but for the call of the runtime's `cancel`.
  pub cancel_worker_behind :
      (w : Answers) (m : ManagedWorker Cpu)
      → worker_terminal m.handle.state ≡ false
      → w.reading 0 < since m
      → cancel_worker w m ≡ (called RuntimeCall.cancel m, err (invalid_message late))
  unfolding cancel_worker cancel_with
  cancel_worker_behind w m open_state behind = rw (
    open_state,
    own_response-late m WorkerResultStatus.cancelled (w.reading 0) (code_of w) behind,
  )
