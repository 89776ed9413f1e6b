-- ===== src/Execution/Manager/Histories.antt =====
-- What holds of the workers of execution/manager.py after any submissions and steps.
use vuln_proof_claw.Common.{
  ◌≡◌, refl, sym, subst, Option, none, some, arith, Bool-cases, Option-cases, ◌⊎◌, inl, inr, String,
  lookup, insert, lookup-insert_cases, string_eq, Eq, is_blank,
}
use vuln_proof_claw.Domain.Enums.{worker_terminal}
use vuln_proof_claw.Domain.Errors.{Time}
use vuln_proof_claw.Execution.Protocol.{WorkerRequest}
use vuln_proof_claw.Execution.Manager.{ManagedWorker, Manager}
use vuln_proof_claw.Execution.Manager.Index.{
  Act, starts, cancels, collects, settles, finishes, act, save, act_on, submitted, submit_new,
  submit, no_workers,
}
use vuln_proof_claw.Execution.Manager.Contract.{after, resource, view_of}
use vuln_proof_claw.Execution.Manager.Invariant.{Inv}
use vuln_proof_claw.Execution.Manager.Collection.{ActIsSound, act-Inv}

module _ {Cpu : Type 0} where
  act_on-absent :
      (step : Act) (id : String) (m : Manager Cpu)
      → lookup id m.workers ≡ none
      → act_on step id m ≡ m
  unfolding act_on
  act_on-absent (starts w) id m absent = ground arith
  act_on-absent (cancels w) id m absent = ground arith
  act_on-absent collects id m absent = ground arith
  act_on-absent (settles w outcome) id m absent = ground arith
  act_on-absent (finishes w) id m absent = ground arith

  act_on-found :
      (step : Act) (id : String) (m : Manager Cpu) (w : ManagedWorker Cpu)
      → lookup id m.workers ≡ some w
      → act_on step id m ≡ save id (act step w) m
  unfolding act_on act
  act_on-found (starts a) id m w found = ground arith
  act_on-found (cancels a) id m w found = ground arith
  act_on-found collects id m w found = ground arith
  act_on-found (settles a outcome) id m w found = ground arith
  act_on-found (finishes a) id m w found = ground arith

  -- A step on a worker that is not there changes nothing, and any other step changes that worker.
  pub act_on-cases :
      (step : Act) (id : String) (m : Manager Cpu)
      → (act_on step id m ≡ m)
        ⊎ (w : ManagedWorker Cpu) × (lookup id m.workers ≡ some w)
          × (act_on step id m ≡ save id (act step w) m)
  act_on-cases step id m = elim (Option-cases (lookup id m.workers)) [
    | inl absent ↦ inl (act_on-absent step id m absent)
    | inr (w, found) ↦ inr (w, found, act_on-found step id m w found)
  ]

  -- Every worker of the manager keeps the invariant.
  abbrev pub WorkersInv : Manager Cpu → Type 0
  WorkersInv m = (id : String) (w : ManagedWorker Cpu) → lookup id m.workers ≡ some w → Inv w

  save-WorkersInv :
      (id : String) (w : ManagedWorker Cpu) (m : Manager Cpu)
      → WorkersInv m
      → Inv w
      → WorkersInv (save id w m)
  save-WorkersInv id w m v keeps = λ j q found. elim (lookup-insert_cases id j w m.workers found) [
    | inl (_, same) ↦ subst Inv same keeps
    | inr (_, before) ↦ v j q before
  ]

  submitted-Inv :
      (request : WorkerRequest Cpu) (id reference : String) (at : Time)
      → Inv (submitted request id reference at)
  unfolding submitted resource after view_of worker_terminal
  submitted-Inv request id reference at = record {
    contract = refl;
    task = tt;
    response = tt;
    unanswered = λ _. refl;
    succeeded = λ done. cc;
    recorded = λ ended. cc;
    named = refl;
  }

  act_on-WorkersInv :
      (step : Act) (id : String) (m : Manager Cpu)
      → ActIsSound step
      → WorkersInv m
      → WorkersInv (act_on step id m)
  act_on-WorkersInv step id m sound v = elim (act_on-cases step id m) [
    | inl same ↦ subst WorkersInv (sym same) v
    | inr (w, found, changed) ↦
        subst WorkersInv (sym changed)
          (save-WorkersInv id (act step w) m v (act-Inv step w sound (v id w found)))
  ]

  module _ ⦃same_request : Eq (WorkerRequest Cpu)⦄ where
    -- What `submit` does to the manager: nothing, or a new worker and its request's entry.
    pub submit-cases :
        (request : WorkerRequest Cpu) (id : String) (created : Option String) (at : Time)
        (m : Manager Cpu)
        → ((submit request id created at m).0 ≡ m)
          ⊎ (reference : String) × (lookup request.request_id m.request_index ≡ none)
            × ((submit request id created at m).0 ≡ record {
              workers = insert id (submitted request id reference at) m.workers;
              request_index = insert request.request_id id m.request_index;
            })
    unfolding submit submit_new
    submit-cases request id none at m =
        elim (Option-cases (lookup request.request_id m.request_index)) [
          | inl new ↦ inl (ground arith)
          | inr (old, known) ↦ inl (ground arith)
        ]
    submit-cases request id (some reference) at m =
        elim (Option-cases (lookup request.request_id m.request_index)) [
          | inr (old, known) ↦ inl (ground arith)
          | inl new ↦ elim (Bool-cases (is_blank reference)) [
            | inl blank ↦ inl (ground arith)
            | inr named ↦ inr (reference, new, ground arith)
          ]
        ]

    -- The manager `m'` stands after the manager `m`: requests were submitted, each under an identifier
    -- that was new, and steps done on workers.
    pub data Later (m : Manager Cpu) : Manager Cpu → Type 0 where
      here : Later m m
      submits :
          {m' : Manager Cpu} (request : WorkerRequest Cpu) (id : String) (created : Option String)
          (at : Time)
          → Later m m'
          → lookup id m'.workers ≡ none
          → Later m (submit request id created at m').0
      acts :
          {m' : Manager Cpu} (step : Act) (id : String)
          → Later m m'
          → ActIsSound step
          → Later m (act_on step id m')

    submit-WorkersInv :
        (request : WorkerRequest Cpu) (id : String) (created : Option String) (at : Time)
        (m : Manager Cpu)
        → WorkersInv m
        → WorkersInv (submit request id created at m).0
    submit-WorkersInv request id created at m v = elim (submit-cases request id created at m) [
      | inl same ↦ subst WorkersInv (sym same) v
      | inr (reference, _, changed) ↦
          subst WorkersInv (sym changed)
            (save-WorkersInv id _ m v (submitted-Inv request id reference at))
    ]

    pub Later-WorkersInv : {m m' : Manager Cpu} → Later m m' → WorkersInv m → WorkersInv m'
    Later-WorkersInv here v = v
    Later-WorkersInv (submits {m'} request id created at h fresh) v =
        submit-WorkersInv request id created at m' (Later-WorkersInv h v)
    Later-WorkersInv (acts {m'} step id h sound) v =
        act_on-WorkersInv step id m' sound (Later-WorkersInv h v)

    pub no_workers-WorkersInv : WorkersInv no_workers
    no_workers-WorkersInv id w found = cc
