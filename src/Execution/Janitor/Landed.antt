-- ===== src/Execution/Janitor/Landed.antt =====
-- A sweep of execution/janitor.py over a registry in which nothing is in flight.
use vuln_proof_claw.Common.{
  ℕ, ◌+◌, true, false, not, ◌≡◌, refl, subst, Option, none, some, List, [], ◌∷◌, String, ◌==◌,
  contains, lookup, insert, lookup-insert_cases, OnSome, OnSome-of, OnSome-at, if_split, string_eq,
  arith, inl, inr, Bool-cases, Option-cases, leb, All, is_some, sort_by,
}
use vuln_proof_claw.Common.Results.{Result, ok, err}
use vuln_proof_claw.Domain.Enums.{worker_terminal, WorkerState}
use vuln_proof_claw.Domain.Errors.{Time}
use vuln_proof_claw.Persistence.{Stored, StoreError, find_version}
use vuln_proof_claw.Execution.Registry.{
  WorkerExecution, Rows, is_in_flight, get_for_request, save_execution, saved_execution,
}
use vuln_proof_claw.Execution.Registry.InFlight.{RowsFit}
use vuln_proof_claw.Execution.Lifecycle.{Ledger}
use vuln_proof_claw.Execution.Lifecycle.GivenUp.{ActionsFit}
use vuln_proof_claw.Execution.Lifecycle.Recovered.{HasLanded, reconcile_after_restart_lem}
use vuln_proof_claw.Execution.Janitor.{
  RuntimeResource, JanitorOutcome, Surroundings, Sweep, audit_sweep, audit_optional, call_destroy,
  resource_leb, after_save, destroy_bound, destroy_unbound, inspect_unbound, inspect_bound,
  inspect_found, inspect, sweep_from, sweep, bound_execution, marked,
}
use vuln_proof_claw.Execution.Janitor.Spared.{bound_execution-by_id}
use vuln_proof_claw.Execution.Janitor.Restart.{RuntimeRecovery, recover_runtime_after_restart}

-- No execution is in flight.
abbrev pub AllLanded : Rows → Type 0
AllLanded rows = (k : String) → OnSome HasLanded (lookup k rows)

-- What other sessions write starts nothing.
abbrev pub StartsNothing : Surroundings → Type 0
StartsNothing env =
    (reference : String) (rows : Rows) → AllLanded rows → AllLanded (env.meanwhile reference rows)

-- The reason of an outcome is another one.
abbrev pub IsNotLive : JanitorOutcome → Type 0
IsNotLive o = (o.reason == "in_flight") ≡ false

-- A resource's inspection starts nothing, and finds no live execution.
abbrev Passes : Sweep × JanitorOutcome → Type 0
Passes x = AllLanded x.0.rows × IsNotLive x.1

HasLanded-terminal : (s : WorkerState) → is_in_flight s ≡ false → worker_terminal s ≡ true
unfolding is_in_flight worker_terminal
HasLanded-terminal s h = ground arith

save_execution-AllLanded :
    (e : WorkerExecution) (expected : ℕ) (rows : Rows) (x : Stored WorkerExecution × Rows)
    → AllLanded rows
    → is_in_flight e.state ≡ false
    → save_execution e expected rows ≡ ok x
    → AllLanded x.1
unfolding save_execution
save_execution-AllLanded e expected rows x landed ended h =
    elim (Option-cases (find_version e.id expected rows)) [
      | inl missing ↦ ground arith
      | inr (old, found) ↦
          let same : insert e.id (saved_execution old e) rows ≡ x.1 = ground arith in
          subst AllLanded same λ k.
            OnSome-of HasLanded (lookup k (insert e.id (saved_execution old e) rows)) λ row at_k.
              elim (lookup-insert_cases e.id k (saved_execution old e) rows at_k) [
                | inl (_, is_it) ↦ subst HasLanded is_it ended
                | inr (_, before) ↦ OnSome-at HasLanded (landed k) before
              ]
    ]

module _ (env : Surroundings) (starts_nothing : StartsNothing env) where
  audit_optional-AllLanded :
      (row : Option (Stored WorkerExecution)) (event reason : String) (at : Time) (s : Sweep)
      → AllLanded s.rows
      → AllLanded (audit_optional env row event reason at s).rows
  unfolding audit_optional audit_sweep
  audit_optional-AllLanded none event reason at s landed = landed
  audit_optional-AllLanded (some row) event reason at s landed = landed

  inspect_unbound-Passes :
      (grace : ℕ) (q : RuntimeResource) (reason : String) (row : Option (Stored WorkerExecution))
      (at : Time) (s : Sweep)
      → AllLanded s.rows
      → (reason == "in_flight") ≡ false
      → Passes (inspect_unbound env grace q reason row at s)
  unfolding inspect_unbound destroy_unbound
  inspect_unbound-Passes grace q reason row at s landed other =
      let called = call_destroy env q.reference s in
      let kept = starts_nothing q.reference s.rows landed in
      if_split Passes (leb (q.created_at + grace) at) _ _
        (λ _.
          if_split Passes (not (env.destroys q.reference)) _ _
            (λ _. (audit_optional-AllLanded row _ _ at called kept, refl))
            (λ _. (audit_optional-AllLanded row _ _ at called kept, other)))
        (λ _. (landed, refl))

  after_save-Passes :
      (q : RuntimeResource) (stored : Stored WorkerExecution) (reason : String) (at : Time)
      (s : Sweep) (saved : Result StoreError (Stored WorkerExecution × Rows))
      → AllLanded s.rows
      → HasLanded stored
      → (reason == "in_flight") ≡ false
      → save_execution (marked stored.entity at) stored.version s.rows ≡ saved
      → Passes (after_save env q stored.entity reason at s saved)
  unfolding after_save audit_sweep
  after_save-Passes q stored reason at s (err _) landed ended other h = (landed, refl)
  after_save-Passes q stored reason at s (ok x) landed ended other h = (
    save_execution-AllLanded (marked stored.entity at) stored.version s.rows x landed ended h,
    other,
  )

  destroy_bound-Passes :
      (q : RuntimeResource) (stored : Stored WorkerExecution) (reason : String) (at : Time)
      (s : Sweep)
      → AllLanded s.rows
      → HasLanded stored
      → (reason == "in_flight") ≡ false
      → Passes (destroy_bound env q stored reason at s)
  unfolding destroy_bound audit_sweep
  destroy_bound-Passes q stored reason at s landed ended other =
      let called = call_destroy env q.reference s in
      let kept = starts_nothing q.reference s.rows landed in
      if_split Passes (not (env.destroys q.reference)) _ _ (λ _. (kept, refl))
        λ _.
          if_split Passes stored.entity.cleaned_up _ _ (λ _. (kept, other))
            λ _. after_save-Passes q stored reason at called _ kept ended other refl

  inspect_found-Passes :
      (grace : ℕ) (q : RuntimeResource) (bound by_id by_request : Option (Stored WorkerExecution))
      (at : Time) (s : Sweep)
      → AllLanded s.rows
      → OnSome HasLanded bound
      → Passes (inspect_found env grace q bound by_id by_request at s)
  unfolding inspect_found inspect_bound
  inspect_found-Passes grace q none by_id by_request at s landed ended =
      inspect_unbound-Passes grace q _ by_id at s landed (
        if_split (λ (x : String). (x == "in_flight") ≡ false) (is_some by_id) _ _ (λ _. refl)
          λ _.
            if_split (λ (x : String). (x == "in_flight") ≡ false) (is_some by_request) _ _
              (λ _. refl) (λ _. refl))
  inspect_found-Passes grace q (some stored) by_id by_request at s landed ended =
      if_split Passes (not (stored.entity.runtime_identity == env.identity)) _ _
        (λ _. inspect_unbound-Passes grace q _ (some stored) at s landed refl)
        λ _.
          if_split Passes (not (worker_terminal stored.entity.state)) _ _
            (λ live. absurd (cc (live, HasLanded-terminal stored.entity.state ended)))
            λ _. destroy_bound-Passes q stored _ at s landed ended (
              if_split (λ (x : String). (x == "in_flight") ≡ false) stored.entity.cleaned_up _ _
                (λ _. refl) (λ _. refl))

  inspect-Passes :
      (grace : ℕ) (q : RuntimeResource) (at : Time) (s : Sweep)
      → AllLanded s.rows
      → Passes (inspect env grace q at s)
  unfolding inspect
  inspect-Passes grace q at s landed =
      let by_id = lookup q.worker_id s.rows in
      let by_request = get_for_request q.request_id s.rows in
      inspect_found-Passes grace q _ by_id by_request at s landed (
        OnSome-of HasLanded (bound_execution by_id by_request) λ row found.
          OnSome-at HasLanded (landed q.worker_id) (bound_execution-by_id by_id by_request found))

  sweep_from-AllLanded :
      (grace : ℕ) (at : Time) (seen : List String) (resources : List RuntimeResource) (s : Sweep)
      → AllLanded s.rows
      → AllLanded (sweep_from env grace at seen resources s).0.rows
        × All IsNotLive (sweep_from env grace at seen resources s).1
  unfolding sweep_from
  sweep_from-AllLanded grace at seen [] s landed = (landed, tt)
  sweep_from-AllLanded grace at seen (q ∷ qs) s landed =
      elim (Bool-cases (contains seen q.reference)) [
        | inl known ↦
            let rest = sweep_from-AllLanded grace at seen qs s landed in
            rw known (rest.0, (refl, rest.1))
        | inr fresh ↦
            let x = inspect-Passes grace q at s landed in
            let rest =
              sweep_from-AllLanded grace at (q.reference ∷ seen) qs (inspect env grace q at s).0
                x.0 in
            rw fresh (rest.0, (x.1, rest.1))
      ]

  -- If every execution and every action passes its constructor's checks and stands under its own
  -- identifier, once, and other sessions start nothing meanwhile, recovery after a restart returns; it
  -- skips no resource for being in flight; and after it no execution is in flight.
  pub recover_runtime_after_restart_lem :
      {Network : Type 0} (grace : ℕ) (resources : List RuntimeResource) (at : Time)
      (l : Ledger Network)
      → RowsFit l.executions
      → ActionsFit l.database.actions
      → (x : RuntimeRecovery Network) × (recover_runtime_after_restart env grace resources at l
          ≡ ok x)
        × All IsNotLive x.outcomes
        × AllLanded x.swept.rows
  unfolding recover_runtime_after_restart sweep
  recover_runtime_after_restart_lem grace resources at l rows_fit fits =
      let (es, l', done, landed, _, _) = reconcile_after_restart_lem at l rows_fit fits in
      let start : Sweep = record { rows = l'.executions; audit = l'.audit; calls = [] } in
      let x = sweep_from env grace at [] (sort_by resource_leb resources) start in
      let swept = sweep_from-AllLanded grace at [] (sort_by resource_leb resources) start landed in
      (
        record { reconciled = es; ledger = l'; swept = x.0; outcomes = x.1 },
        ground (arith, done),
        swept.1,
        swept.0,
      )
