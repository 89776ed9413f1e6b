-- ===== src/Execution/Janitor/Live.antt =====
-- What it is for a resource of execution/janitor.py to be in flight, and the writes of a sweep.
use vuln_proof_claw.Common.{
  ℕ, Bool, true, false, ◌≡◌, ◌≢◌, refl, ap, ◌∙◌, sym, subst, Option, none, some, [], ◌∷◌, String,
  ◌==◌, lookup, OnSome, OnSome-of, OnSome-at, insert, lookup-insert, lookup-insert_cases,
  if◌then◌else◌, if_split, string_eq, eq_iff, arith, inl, inr, Bool-cases, Option-cases,
}
use vuln_proof_claw.Common.Results.{ok}
use vuln_proof_claw.Domain.Enums.{worker_terminal}
use vuln_proof_claw.Domain.Errors.{Time, require_text}
use vuln_proof_claw.Persistence.{Stored, find_version}
use vuln_proof_claw.Execution.Registry.{
  WorkerExecution, Rows, find_row, get_for_request, save_execution, saved_execution,
  write_execution, validate_execution,
}
use vuln_proof_claw.Execution.Janitor.{RuntimeResource, Surroundings, marked}

-- A row was found, and it is of this execution.
abbrev pub Finds : String → Option (Stored WorkerExecution) → Type 0
Finds id none = ⊥
Finds id (some row) = row.entity.id ≡ id

-- Every row stands under its execution's identifier.
abbrev pub HasKeys : Rows → Type 0
HasKeys rows =
    (k : String) → OnSome (λ (row : Stored WorkerExecution). row.entity.id ≡ k) (lookup k rows)

pub HasKeys-at :
    (rows : Rows) {k : String} {row : Stored WorkerExecution}
    → HasKeys rows
    → lookup k rows ≡ some row
    → row.entity.id ≡ k
HasKeys-at rows {k} h found =
    OnSome-at (λ (row : Stored WorkerExecution). row.entity.id ≡ k) (h k) found

-- The resource's worker and its request lead to one execution, of this runtime and in flight.
pub record InFlight (env : Surroundings) (r : RuntimeResource) (rows : Rows) : Type 0 where
  pub row : Stored WorkerExecution
  pub by_id : lookup r.worker_id rows ≡ some row
  pub by_request : Finds r.worker_id (get_for_request r.request_id rows)
  pub identity : row.entity.runtime_identity ≡ env.identity
  pub open_state : worker_terminal row.entity.state ≡ false
  pub keyed : HasKeys rows

Finds-first :
    (id : String) (b : Bool) (old new : Stored WorkerExecution)
    (rest : Option (Stored WorkerExecution))
    → new.entity.id ≡ old.entity.id
    → Finds id (if b then some old else rest)
    → Finds id (if b then some new else rest)
Finds-first id true old new rest same h = same ∙ h
Finds-first id false old new rest same h = h

Finds-rest :
    (id : String) (b : Bool) (row : Stored WorkerExecution)
    (rest rest' : Option (Stored WorkerExecution))
    → (Finds id rest → Finds id rest')
    → Finds id (if b then some row else rest)
    → Finds id (if b then some row else rest')
Finds-rest id true row rest rest' later h = h
Finds-rest id false row rest rest' later h = later h

find_row-Finds :
    (test : WorkerExecution → Bool) (id k : String) (old new : Stored WorkerExecution) (rows : Rows)
    → lookup k rows ≡ some old
    → test new.entity ≡ test old.entity
    → new.entity.id ≡ old.entity.id
    → Finds id (find_row test rows)
    → Finds id (find_row test (insert k new rows))
unfolding find_row
find_row-Finds test id k old new [] found same same_id h = cc
find_row-Finds test id k old new ((j, row) ∷ rows) found same same_id h =
    elim (Bool-cases (j == k)) [
      | inl here ↦
          let found' : some row ≡ some old = rw here at found in
          let at_old : row ≡ old = cc found' in
          let agree : test new.entity ≡ test row.entity =
            same ∙ ap (λ (x : Stored WorkerExecution). test x.entity) (sym at_old) in
          let same_row : new.entity.id ≡ row.entity.id =
            same_id ∙ ap (λ (x : Stored WorkerExecution). x.entity.id) (sym at_old) in
          subst
            (λ b.
              Finds id
                (find_row test (if b then (k, new) ∷ rows else (j, row) ∷ insert k new rows)))
            (sym here)
            (subst (λ b. Finds id (if b then some new else find_row test rows)) (sym agree)
              (Finds-first id (test row.entity) row new (find_row test rows) same_row h))
      | inr other ↦
          let found' : lookup k rows ≡ some old = rw other at found in
          subst
            (λ b.
              Finds id
                (find_row test (if b then (k, new) ∷ rows else (j, row) ∷ insert k new rows)))
            (sym other)
            (Finds-rest id (test row.entity) row (find_row test rows)
              (find_row test (insert k new rows))
              (find_row-Finds test id k old new rows found' same same_id) h)
    ]

-- Writing the state of another execution that is there leaves the resource in flight.
insert-InFlight :
    (env : Surroundings) (r : RuntimeResource) (k : String) (old : Stored WorkerExecution)
    (e : WorkerExecution) (version : ℕ) (rows : Rows)
    → InFlight env r rows
    → lookup k rows ≡ some old
    → k ≢ r.worker_id
    → InFlight env r
        (insert k (record { entity = write_execution old.entity e; version = version }) rows)
unfolding get_for_request
insert-InFlight env r k old e version rows f found other =
    let new : Stored WorkerExecution = record {
      entity = write_execution old.entity e;
      version = version;
    } in
    record {
      row = f.row;
      by_id =
          lookup-insert k r.worker_id new rows
          ∙ if_split (λ x. x ≡ some f.row) (k == r.worker_id) _ _
              (λ same. absurd (other ((eq_iff k r.worker_id).0 same))) (λ _. f.by_id);
      by_request =
          find_row-Finds (λ x. x.request_id == r.request_id) r.worker_id k old new rows found refl
            refl f.by_request;
      identity = f.identity;
      open_state = f.open_state;
      keyed = λ j. OnSome-of _ (lookup j (insert k new rows)) λ row there.
          elim (lookup-insert_cases k j new rows there) [
            | inl (here, same) ↦
                ap (λ (x : Stored WorkerExecution). x.entity.id) (sym same)
                ∙ HasKeys-at rows f.keyed found
                ∙ here
            | inr (_, before) ↦ HasKeys-at rows f.keyed before
          ];
    }

pub save_execution-InFlight :
    (env : Surroundings) (r : RuntimeResource) (e : WorkerExecution) (expected : ℕ) (rows : Rows)
    (x : Stored WorkerExecution × Rows)
    → InFlight env r rows
    → e.id ≢ r.worker_id
    → save_execution e expected rows ≡ ok x
    → InFlight env r x.1
unfolding save_execution
save_execution-InFlight env r e expected rows x f other h =
    elim (Option-cases (find_version e.id expected rows)) [
      | inl missing ↦ ground arith
      | inr (old, found) ↦
          let there : lookup e.id rows ≡ some old = ground arith in
          let same : insert e.id (saved_execution old e) rows ≡ x.1 = ground arith in
          subst (InFlight env r) same (insert-InFlight env r e.id old e _ rows f there other)
    ]

-- The execution that `_destroy_bound` gives to `replace` passes the checks that the one it read passed.
marked-valid :
    (e : WorkerExecution) (at : Time)
    → validate_execution e ≡ ok e
    → worker_terminal e.state ≡ true
    → validate_execution (marked e at) ≡ ok (marked e at)
unfolding validate_execution require_text
marked-valid e at valid ended = ground arith
