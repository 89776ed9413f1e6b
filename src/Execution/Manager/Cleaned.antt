-- ===== src/Execution/Manager/Cleaned.antt =====
-- What the cleanup of execution/manager.py leaves of a worker.
use vuln_proof_claw.Common.{
  ℕ, suc, true, ◌≡◌, refl, ap, ◌∙◌, Option, none, some, ◌∷◌, arith, Bool-cases, ◌⊎◌, inl, inr, ◌==◌,
  string_eq, option_eq, if◌then◌else◌, String,
}
use vuln_proof_claw.Common.Results.{ok, err}
use vuln_proof_claw.Domain.Enums.{WorkerState, worker_terminal}
use vuln_proof_claw.Domain.Errors.{Time}
use vuln_proof_claw.Execution.Protocol.{
  WorkerRequest, WorkerResponse, WorkerResultStatus, Validates, validate_response, validate_success,
}
use vuln_proof_claw.Execution.Manager.{
  Answers, RuntimeCall, ManagedWorker, cleanup, cleaned_handle, own_response, store_failure,
  cleanup_failed,
}
use vuln_proof_claw.Execution.Manager.Bound.{IsBound, validate_response-ok, own_response-IsBound}

-- A success carries no error.
pub validate_response-succeeded :
    (r : WorkerResponse) {q : WorkerResponse}
    → validate_response r ≡ ok q
    → r.status ≡ WorkerResultStatus.succeeded
    → r.error_code ≡ none
unfolding validate_response validate_success
validate_response-succeeded r h s = ground arith

pub cleaned_handle-state :
    (w : Answers) (state : WorkerState)
    → worker_terminal state ≡ true
    → worker_terminal (if w.destroy_returns then state else WorkerState.lost) ≡ true
unfolding worker_terminal
cleaned_handle-state w state h = ground arith

module _ {Cpu : Type 0} where
  -- A response that a worker of the request may hold.
  abbrev pub Fits : WorkerRequest Cpu → WorkerResponse → Type 0
  Fits request r = IsBound request r × (validate_response r ≡ ok r)

  abbrev pub ResponseFits : WorkerRequest Cpu → Option WorkerResponse → Type 0
  ResponseFits request none = Unit
  ResponseFits request (some r) = Fits request r

  pub own_response-Fits :
      (m : ManagedWorker Cpu) (status : WorkerResultStatus) (at : Time) (code : String)
      {r : WorkerResponse}
      → own_response m status at code ≡ ok r
      → Fits m.request r
  unfolding own_response
  own_response-Fits m status at code h =
      let same = validate_response-ok _ h in
      ((own_response-IsBound m status at code h).0, ap validate_response same ∙ h)

  -- What the cleanup leaves: the worker with the handle and the call of `destroy`, and a response that
  -- is the worker's or says that the cleanup failed.
  pub record Cleaned (w : Answers) (n : ℕ) (m : ManagedWorker Cpu) (state : WorkerState)
      (code : Option String) (q : ManagedWorker Cpu) : Type 0 where
    pub request : q.request ≡ m.request
    pub task : q.collection_task ≡ m.collection_task
    pub calls : q.calls ≡ RuntimeCall.destroy w.destroy_returns ∷ m.calls
    pub handle : q.handle ≡ cleaned_handle w n state code m.handle
    pub response :
        (q.response ≡ m.response)
        ⊎ (q.handle.error_code ≡ some cleanup_failed) × ResponseFits m.request q.response

  store_failure-Cleaned :
      (w : Answers) (n : ℕ) (m : ManagedWorker Cpu) (state : WorkerState) (code : Option String)
      (q : ManagedWorker Cpu) (outcome : Validates WorkerResponse)
      → Cleaned w n m state code q
      → q.handle.error_code ≡ some cleanup_failed
      → ((r : WorkerResponse) → outcome ≡ ok r → Fits m.request r)
      → Cleaned w n m state code (store_failure outcome q).0
  unfolding store_failure
  store_failure-Cleaned w n m state code q (err e) c failed fits = c
  store_failure-Cleaned w n m state code q (ok r) c failed fits = record {
    request = c.request;
    task = c.task;
    calls = c.calls;
    handle = c.handle;
    response = inr (failed, fits r refl);
  }

  pub cleanup-Cleaned :
      (w : Answers) (n : ℕ) (m : ManagedWorker Cpu) (state : WorkerState) (code : Option String)
      → Cleaned w n m state code (cleanup w n m state code).0
  unfolding cleanup
  cleanup-Cleaned w n m state code =
      let q = record m {
        calls = RuntimeCall.destroy w.destroy_returns ∷ m.calls;
        handle = cleaned_handle w n state code m.handle;
      } in
      let c : Cleaned w n m state code q = record {
        request = refl;
        task = refl;
        calls = refl;
        handle = refl;
        response = inl refl;
      } in
      elim (Bool-cases (q.handle.error_code == some cleanup_failed)) [
        | inl failed ↦ rw failed (
            store_failure-Cleaned w n m state code q _ c
              ((option_eq.beq_iff q.handle.error_code (some cleanup_failed)).0 failed)
              (λ r.
                own_response-Fits q WorkerResultStatus.worker_error (w.reading (suc n))
                  cleanup_failed))
        | inr fine ↦ rw fine c
      ]
