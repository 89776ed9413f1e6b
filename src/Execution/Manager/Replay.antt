-- ===== src/Execution/Manager/Replay.antt =====
-- `submit` of execution/manager.py again with a request that was submitted before.
use vuln_proof_claw.Common.{
  ◌≡◌, ◌≢◌, refl, ap, ◌∙◌, sym, subst, Option, none, some, inl, inr, if◌then◌else◌, String, lookup,
  insert, lookup-insert, ◌==◌, string_eq, if_split, Eq, is_blank,
}
use vuln_proof_claw.Common.Results.{ok, err}
use vuln_proof_claw.Domain.Errors.{Time}
use vuln_proof_claw.Execution.Protocol.{WorkerRequest}
use vuln_proof_claw.Execution.Manager.{ManagedWorker, Manager, Manages, WorkerHandle, ManagerError}
use vuln_proof_claw.Execution.Manager.Index.{
  Act, act, act_on, submit, submit_new, replay, submitted,
}
use vuln_proof_claw.Execution.Manager.Frame.{act-SameWorker}
use vuln_proof_claw.Execution.Manager.Histories.{
  Later, here, submits, acts, act_on-cases, submit-cases,
}

module _ {Cpu : Type 0} where
  -- The worker stands under the identifier, and it is for the request.
  abbrev pub WorksFor : WorkerRequest Cpu → String → Option (ManagedWorker Cpu) → Type 0
  WorksFor request id none = ⊥
  WorksFor request id (some w) = (w.request ≡ request) × (w.handle.worker_id ≡ id)

  -- The request is known, under the identifier of its worker.
  pub record IsKnown (request : WorkerRequest Cpu) (id : String) (m : Manager Cpu) : Type 0 where
    pub indexed : lookup request.request_id m.request_index ≡ some id
    pub worker : WorksFor request id (lookup id m.workers)

  save-WorksFor :
      (request : WorkerRequest Cpu) (id j : String) (w : ManagedWorker Cpu) (m : Manager Cpu)
      → WorksFor request id (lookup id m.workers)
      → (j ≡ id → WorksFor request id (some w))
      → WorksFor request id (lookup id (insert j w m.workers))
  save-WorksFor request id j w m before agree =
      subst (WorksFor request id) (sym (lookup-insert j id w m.workers)) (
        if_split (WorksFor request id) (j == id) _ _
          (λ same. agree ((string_eq.beq_iff j id).0 same)) (λ _. before))

  act_on-IsKnown :
      (request : WorkerRequest Cpu) (id : String) (step : Act) (j : String) (m : Manager Cpu)
      → IsKnown request id m
      → IsKnown request id (act_on step j m)
  act_on-IsKnown request id step j m k = elim (act_on-cases step j m) [
    | inl same ↦ subst (IsKnown request id) (sym same) k
    | inr (q, there, changed) ↦ subst (IsKnown request id) (sym changed) (record {
      indexed = k.indexed;
      worker = save-WorksFor request id j (act step q) m k.worker λ same.
          let (same_request, same_id) = act-SameWorker step q in
          let found : lookup id m.workers ≡ some q =
            subst (λ i. lookup i m.workers ≡ some q) same there in
          let (is_for, named) = subst (WorksFor request id) found k.worker in
          (same_request ∙ is_for, same_id ∙ named);
    })
  ]

  module _ ⦃same_request : Eq (WorkerRequest Cpu)⦄ where
    submit-IsKnown :
        (request : WorkerRequest Cpu) (id : String) (other : WorkerRequest Cpu) (j : String)
        (created : Option String) (at : Time) (m : Manager Cpu)
        → lookup j m.workers ≡ none
        → IsKnown request id m
        → IsKnown request id (submit other j created at m).0
    submit-IsKnown request id other j created at m fresh k =
        elim (submit-cases other j created at m) [
          | inl same ↦ subst (IsKnown request id) (sym same) k
          | inr (reference, new, changed) ↦ subst (IsKnown request id) (sym changed) (record {
            indexed =
                lookup-insert other.request_id request.request_id j m.request_index
                ∙ if_split (λ x. x ≡ some id) (other.request_id == request.request_id) _ _
                    (λ same. absurd (
                      cc (
                        new,
                        k.indexed,
                        ap (λ i. lookup i m.request_index)
                            ((string_eq.beq_iff other.request_id request.request_id).0 same),
                      )))
                    (λ _. k.indexed);
            worker = save-WorksFor request id j (submitted other j reference at) m k.worker λ same.
                absurd (
                  subst (WorksFor request id) (sym (ap (λ i. lookup i m.workers) same) ∙ fresh)
                    k.worker);
          })
        ]

    Later-IsKnown :
        {m m' : Manager Cpu} (request : WorkerRequest Cpu) (id : String)
        → Later m m'
        → IsKnown request id m
        → IsKnown request id m'
    Later-IsKnown request id here k = k
    Later-IsKnown request id (submits {m'} other j created at h fresh) k =
        submit-IsKnown request id other j created at m' fresh (Later-IsKnown request id h k)
    Later-IsKnown request id (acts {m'} step j h sound) k =
        act_on-IsKnown request id step j m' (Later-IsKnown request id h k)

    -- What `submit` answers for a request that is known.
    abbrev Replayed :
        WorkerRequest Cpu
        → WorkerRequest Cpu
        → String
        → Manager Cpu
        → Manager Cpu × Manages WorkerHandle
        → Type 0
    Replayed request again id m answer =
        (again ≡ request → (h : WorkerHandle) × (h.worker_id ≡ id) × (answer ≡ (m, ok h)))
        × (again ≢ request → answer ≡ (m, err ManagerError.request_conflict))

    replay_found :
        (request again : WorkerRequest Cpu) (id : String) (m : Manager Cpu)
        (held : Option (ManagedWorker Cpu))
        → WorksFor request id held
        → Replayed request again id m (m, replay again held)
    unfolding replay
    replay_found request again id m none k = absurd k
    replay_found request again id m (some w) (is_for, named) =
        if_split (λ (x : Manages WorkerHandle). Replayed request again id m (m, x))
          (w.request == again) _ _
          (λ same.
            let equal = (same_request.beq_iff w.request again).0 same in
            (λ _. (w.handle, named, refl), λ other. absurd (other (sym equal ∙ is_for))))
          (λ differs. (
            λ equal.
                absurd
                  (cc (differs, (same_request.beq_iff w.request again).1 (is_for ∙ sym equal))),
            λ _. refl,
          ))

    Replayed-submit :
        (request again : WorkerRequest Cpu) (id j : String) (created : Option String) (at : Time)
        (m : Manager Cpu)
        → IsKnown request id m
        → again.request_id ≡ request.request_id
        → Replayed request again id m (submit again j created at m)
    unfolding submit
    Replayed-submit request again id j created at m k named =
        let found = ap (λ i. lookup i m.request_index) named ∙ k.indexed in
        rw found (replay_found request again id m (lookup id m.workers) k.worker)

    new_worker-IsKnown :
        (request : WorkerRequest Cpu) (id reference : String) (at : Time) (m : Manager Cpu)
        → IsKnown request id (record {
          workers = insert id (submitted request id reference at) m.workers;
          request_index = insert request.request_id id m.request_index;
        })
    unfolding submitted
    new_worker-IsKnown request id reference at m = record {
      indexed =
          lookup-insert request.request_id request.request_id id m.request_index
          ∙ ap (λ b. if b then some id else lookup request.request_id m.request_index)
              ((string_eq.beq_iff request.request_id request.request_id).1 refl);
      worker =
          subst (WorksFor request id)
            (sym (
              lookup-insert id id (submitted request id reference at) m.workers
              ∙ ap
                  (λ b. if b then some (submitted request id reference at) else lookup id m.workers)
                  ((string_eq.beq_iff id id).1 refl)))
            (refl, refl);
    }

    submit_new-IsKnown :
        (request : WorkerRequest Cpu) (id : String) (created : Option String) (at : Time)
        (m : Manager Cpu) (h : WorkerHandle)
        → (submit_new request id created at m).1 ≡ ok h
        → IsKnown request id (submit_new request id created at m).0
    unfolding submit_new
    submit_new-IsKnown request id none at m h done = cc
    submit_new-IsKnown request id (some reference) at m h done =
        if_split (λ (x : Manager Cpu × Manages WorkerHandle). x.1 ≡ ok h → IsKnown request id x.0)
          (is_blank reference) _ _ (λ _ failed. cc)
          (λ _ _. new_worker-IsKnown request id reference at m) done

    first_submit-IsKnown :
        (request : WorkerRequest Cpu) (id : String) (created : Option String) (at : Time)
        (m : Manager Cpu) (h : WorkerHandle)
        → lookup request.request_id m.request_index ≡ none
        → (submit request id created at m).1 ≡ ok h
        → IsKnown request id (submit request id created at m).0
    unfolding submit
    first_submit-IsKnown request id created at m h new =
        rw new (submit_new-IsKnown request id created at m h)

    submit-Replayed :
        (request : WorkerRequest Cpu) (id : String) (created : Option String) (at : Time)
        (m : Manager Cpu) (h : WorkerHandle)
        → lookup request.request_id m.request_index ≡ none
        → (submit request id created at m).1 ≡ ok h
        → {m' : Manager Cpu} → Later (submit request id created at m).0 m'
        → (again : WorkerRequest Cpu) (j : String) (created' : Option String) (later : Time)
        → again.request_id ≡ request.request_id
        → Replayed request again id m' (submit again j created' later m')
    submit-Replayed request id created at m h new done {m'} more again j created' later named =
        Replayed-submit request again id j created' later m'
          (Later-IsKnown request id more (first_submit-IsKnown request id created at m h new done))
          named

    -- Where a request with a new identifier was submitted and a handle returned, then after any later
    -- submissions and steps, submitting the same request changes nothing, whatever the runtime would
    -- create, and returns a handle of the same worker.
    pub submit-submit :
        (request : WorkerRequest Cpu) (id : String) (created : Option String) (at : Time)
        (m : Manager Cpu) (h : WorkerHandle)
        → lookup request.request_id m.request_index ≡ none
        → (submit request id created at m).1 ≡ ok h
        → {m' : Manager Cpu} → Later (submit request id created at m).0 m'
        → (j : String) (created' : Option String) (later : Time)
        → (h' : WorkerHandle) × (h'.worker_id ≡ id)
          × (submit request j created' later m' ≡ (m', ok h'))
    submit-submit request id created at m h new done more j created' later =
        (submit-Replayed request id created at m h new done more request j created' later refl).0
          refl

    -- After any submissions and steps that follow the submission of a request with a new identifier for
    -- which a handle was returned, submitting another request under its identifier raises a conflict and
    -- changes nothing.
    submit_conflict :
        (request : WorkerRequest Cpu) (id : String) (created : Option String) (at : Time)
        (m : Manager Cpu) (h : WorkerHandle)
        → lookup request.request_id m.request_index ≡ none
        → (submit request id created at m).1 ≡ ok h
        → {m' : Manager Cpu} → Later (submit request id created at m).0 m'
        → (again : WorkerRequest Cpu) → again.request_id ≡ request.request_id
        → again ≢ request
        → (j : String) (created' : Option String) (later : Time)
        → submit again j created' later m' ≡ (m', err ManagerError.request_conflict)
    submit_conflict request id created at m h new done more again named other j created' later =
        (submit-Replayed request id created at m h new done more again j created' later named).1
          other
