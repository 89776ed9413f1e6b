-- ===== src/Execution/Janitor/Spared.antt =====
-- A sweep of execution/janitor.py over a resource that is in flight.
use vuln_proof_claw.Common.{
  ℕ, ◌+◌, false, not, ◌≡◌, ◌≢◌, refl, ap, ◌∙◌, sym, subst, Option, none, some, List, [], ◌∷◌,
  String, ◌==◌, ◌||◌, contains, lookup, if◌then◌else◌, if_split, string_eq, eq_iff, arith, inl, inr,
  Bool-cases, sort_by, All-sort_by, leb, All,
}
use vuln_proof_claw.Common.Results.{Result, ok, err}
use vuln_proof_claw.Domain.Enums.{worker_terminal}
use vuln_proof_claw.Domain.Errors.{Time}
use vuln_proof_claw.Persistence.{Stored, StoreError}
use vuln_proof_claw.Execution.Registry.{WorkerExecution, Rows, get_for_request, save_execution}
use vuln_proof_claw.Execution.Janitor.{
  RuntimeResource, JanitorStatus, JanitorOutcome, Surroundings, Sweep, outcome, audit_sweep,
  audit_optional, call_destroy, after_save, destroy_bound, destroy_unbound, inspect_unbound,
  inspect_bound, inspect_found, inspect, sweep_from, sweep, resource_leb, bound_execution, marked,
}
use vuln_proof_claw.Execution.Janitor.Calls.{inspect-Called}
use vuln_proof_claw.Execution.Janitor.Live.{Finds, HasKeys-at, InFlight, save_execution-InFlight}

-- What other sessions write leaves the resource in flight.
abbrev pub Respects : Surroundings → RuntimeResource → Type 0
Respects env r =
    (reference : String) (rows : Rows)
    → InFlight env r rows
    → InFlight env r (env.meanwhile reference rows)

pub bound_execution-by_id :
    (by_id by_request : Option (Stored WorkerExecution)) {row : Stored WorkerExecution}
    → bound_execution by_id by_request ≡ some row
    → by_id ≡ some row
unfolding bound_execution
bound_execution-by_id none by_request h = cc
bound_execution-by_id (some row) none h = cc
bound_execution-by_id (some row) (some other) h = ground arith

bound_execution-Finds :
    (row : Stored WorkerExecution) (id : String) (by_request : Option (Stored WorkerExecution))
    → row.entity.id ≡ id
    → Finds id by_request
    → bound_execution (some row) by_request ≡ some row
unfolding bound_execution
bound_execution-Finds row id none same h = absurd h
bound_execution-Finds row id (some other) same h =
    ap (λ b. if b then some row else none) ((eq_iff row.entity.id other.entity.id).1 (same ∙ sym h))

module _ (env : Surroundings) (r : RuntimeResource) where
  abbrev Keeps : Sweep × JanitorOutcome → Type 0
  Keeps x = InFlight env r x.0.rows

  audit_optional-rows :
      (row : Option (Stored WorkerExecution)) (event reason : String) (at : Time) (s : Sweep)
      → (audit_optional env row event reason at s).rows ≡ s.rows
  unfolding audit_optional audit_sweep
  audit_optional-rows none event reason at s = refl
  audit_optional-rows (some row) event reason at s = refl

  destroy_unbound-Keeps :
      (q : RuntimeResource) (reason : String) (row : Option (Stored WorkerExecution)) (at : Time)
      (s : Sweep)
      → Respects env r
      → InFlight env r s.rows
      → Keeps (destroy_unbound env q reason row at s)
  unfolding destroy_unbound
  destroy_unbound-Keeps q reason row at s respects f =
      let called = call_destroy env q.reference s in
      let kept = respects q.reference s.rows f in
      if_split Keeps (not (env.destroys q.reference)) _ _
        (λ _. subst (InFlight env r) (sym (audit_optional-rows row _ _ at called)) kept)
        (λ _. subst (InFlight env r) (sym (audit_optional-rows row _ _ at called)) kept)

  inspect_unbound-Keeps :
      (grace : ℕ) (q : RuntimeResource) (reason : String) (row : Option (Stored WorkerExecution))
      (at : Time) (s : Sweep)
      → Respects env r
      → InFlight env r s.rows
      → Keeps (inspect_unbound env grace q reason row at s)
  unfolding inspect_unbound
  inspect_unbound-Keeps grace q reason row at s respects f =
      if_split Keeps (leb (q.created_at + grace) at) _ _
        (λ _. destroy_unbound-Keeps q reason row at s respects f) (λ _. f)

  after_save-Keeps :
      (q : RuntimeResource) (stored : Stored WorkerExecution) (reason : String) (at : Time)
      (s : Sweep) (saved : Result StoreError (Stored WorkerExecution × Rows))
      → InFlight env r s.rows
      → stored.entity.id ≢ r.worker_id
      → save_execution (marked stored.entity at) stored.version s.rows ≡ saved
      → Keeps (after_save env q stored.entity reason at s saved)
  unfolding after_save audit_sweep
  after_save-Keeps q stored reason at s (err _) f other h = f
  after_save-Keeps q stored reason at s (ok x) f other h =
      save_execution-InFlight env r (marked stored.entity at) stored.version s.rows x f other h

  destroy_bound-Keeps :
      (q : RuntimeResource) (stored : Stored WorkerExecution) (reason : String) (at : Time)
      (s : Sweep)
      → Respects env r
      → InFlight env r s.rows
      → stored.entity.id ≢ r.worker_id
      → Keeps (destroy_bound env q stored reason at s)
  unfolding destroy_bound audit_sweep
  destroy_bound-Keeps q stored reason at s respects f other =
      let called = call_destroy env q.reference s in
      let kept = respects q.reference s.rows f in
      if_split Keeps (not (env.destroys q.reference)) _ _ (λ _. kept)
        λ _.
          if_split Keeps stored.entity.cleaned_up _ _ (λ _. kept)
            λ _. after_save-Keeps q stored reason at called _ kept other refl

  inspect_found-Keeps :
      (grace : ℕ) (q : RuntimeResource) (bound by_id by_request : Option (Stored WorkerExecution))
      (at : Time) (s : Sweep)
      → Respects env r
      → InFlight env r s.rows
      → ((row : Stored WorkerExecution) → bound ≡ some row → lookup q.worker_id s.rows ≡ some row)
      → Keeps (inspect_found env grace q bound by_id by_request at s)
  unfolding inspect_found inspect_bound
  inspect_found-Keeps grace q none by_id by_request at s respects f there =
      inspect_unbound-Keeps grace q _ by_id at s respects f
  inspect_found-Keeps grace q (some stored) by_id by_request at s respects f there =
      if_split Keeps (not (stored.entity.runtime_identity == env.identity)) _ _
        (λ _. inspect_unbound-Keeps grace q _ (some stored) at s respects f)
        λ _.
          if_split Keeps (not (worker_terminal stored.entity.state)) _ _ (λ _. f)
            λ ended. destroy_bound-Keeps q stored _ at s respects f λ same.
              let found = there stored refl in
              let id : q.worker_id ≡ r.worker_id = sym (HasKeys-at s.rows f.keyed found) ∙ same in
              let at_r : stored ≡ f.row = cc (f.by_id, found, ap (λ k. lookup k s.rows) id) in
              absurd (
                cc (
                  ended,
                  f.open_state,
                  ap (λ (x : Stored WorkerExecution). worker_terminal x.entity.state) at_r,
                ))

  inspect-Keeps :
      (grace : ℕ) (q : RuntimeResource) (at : Time) (s : Sweep)
      → Respects env r
      → InFlight env r s.rows
      → Keeps (inspect env grace q at s)
  unfolding inspect
  inspect-Keeps grace q at s respects f =
      inspect_found-Keeps grace q _ (lookup q.worker_id s.rows)
        (get_for_request q.request_id s.rows) at s respects f
        (λ row.
          bound_execution-by_id (lookup q.worker_id s.rows) (get_for_request q.request_id s.rows))

  -- What is in flight is skipped.
  inspect-InFlight :
      (grace : ℕ) (at : Time) (s : Sweep)
      → InFlight env r s.rows
      → inspect env grace r at s ≡ (s, outcome r JanitorStatus.skipped "in_flight")
  unfolding inspect inspect_found inspect_bound
  inspect-InFlight grace at s f =
      let id = HasKeys-at s.rows f.keyed f.by_id in
      let bound =
        bound_execution-Finds f.row r.worker_id (get_for_request r.request_id s.rows) id
          f.by_request in
      rw (
        f.by_id,
        bound,
        (eq_iff f.row.entity.runtime_identity env.identity).1 f.identity,
        f.open_state,
      )

  abbrev Untouched : Sweep → Type 0
  Untouched s = contains s.calls r.reference ≡ false

  -- Only the resource itself has its reference.
  abbrev pub IsOnlyOne : List RuntimeResource → Type 0
  IsOnlyOne = All (λ (q : RuntimeResource). (q.reference ≡ r.reference) → q ≡ r)

  inspect-Untouched :
      (grace : ℕ) (q : RuntimeResource) (at : Time) (s : Sweep)
      → InFlight env r s.rows
      → ((q.reference ≡ r.reference) → q ≡ r)
      → Untouched s
      → Untouched (inspect env grace q at s).0
  inspect-Untouched grace q at s f only clear = elim (Bool-cases (r.reference == q.reference)) [
    | inl same ↦
        let is_r = only (sym ((eq_iff r.reference q.reference).0 same)) in
        subst (λ (x : RuntimeResource). Untouched (inspect env grace x at s).0) (sym is_r)
          (subst (λ (x : Sweep × JanitorOutcome). Untouched x.0)
            (sym (inspect-InFlight grace at s f)) clear)
    | inr other ↦ elim (inspect-Called env grace q at s) [
      | inl (same, _) ↦ ap (λ c. contains c r.reference) same ∙ clear
      | inr (called, _) ↦
          ap (λ c. contains c r.reference) called
          ∙ ap (λ b. b || contains s.calls r.reference) other
          ∙ clear
    ]
  ]

  sweep_from-Untouched :
      (grace : ℕ) (at : Time) (seen : List String) (resources : List RuntimeResource) (s : Sweep)
      → Respects env r
      → IsOnlyOne resources
      → InFlight env r s.rows
      → Untouched s
      → Untouched (sweep_from env grace at seen resources s).0
        × InFlight env r (sweep_from env grace at seen resources s).0.rows
  unfolding sweep_from
  sweep_from-Untouched grace at seen [] s respects only f clear = (clear, f)
  sweep_from-Untouched grace at seen (q ∷ qs) s respects only f clear =
      elim (Bool-cases (contains seen q.reference)) [
        | inl known ↦ rw known (sweep_from-Untouched grace at seen qs s respects only.1 f clear)
        | inr fresh ↦ rw fresh (
            sweep_from-Untouched grace at (q.reference ∷ seen) qs (inspect env grace q at s).0
              respects only.1 (inspect-Keeps grace q at s respects f)
              (inspect-Untouched grace q at s f only.0 clear))
      ]

  -- A resource whose worker and request lead to one execution of this runtime that is in flight, and
  -- whose reference no other resource has, is not destroyed by a sweep and is in flight after it, if what
  -- other sessions write while the sweep waits leaves it in flight.
  pub sweep-InFlight :
      (grace : ℕ) (at : Time) (resources : List RuntimeResource) (s : Sweep)
      → Respects env r
      → IsOnlyOne resources
      → InFlight env r s.rows
      → s.calls ≡ []
      → (contains (sweep env grace at resources s).0.calls r.reference ≡ false)
        × InFlight env r (sweep env grace at resources s).0.rows
  unfolding sweep
  sweep-InFlight grace at resources s respects only f empty =
      sweep_from-Untouched grace at [] (sort_by resource_leb resources) s respects
        (All-sort_by resource_leb _ resources only) f (ap (λ c. contains c r.reference) empty)
