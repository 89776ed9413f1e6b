-- ===== src/Execution/Janitor/Calls.antt =====
-- Which references execution/janitor.py gives to `destroy`.
use vuln_proof_claw.Common.{
  ℕ, suc, ◌+◌, true, false, not, ◌≡◌, refl, ap, ◌∙◌, sym, subst, Option, none, some, List, [], ◌∷◌,
  String, ◌==◌, ◌||◌, contains, length, if_split, string_eq, eq_iff, arith, ◌⊎◌, inl, inr,
  Bool-cases, sort_by, length-sort_by, leb, All, IsUnique,
}
use vuln_proof_claw.Common.Results.{Result, ok, err}
use vuln_proof_claw.Domain.Enums.{worker_terminal}
use vuln_proof_claw.Domain.Errors.{Time}
use vuln_proof_claw.Persistence.{Stored, StoreError}
use vuln_proof_claw.Execution.Registry.{WorkerExecution, Rows}
use vuln_proof_claw.Execution.Janitor.{
  RuntimeResource, JanitorStatus, JanitorOutcome, Surroundings, Sweep, audit_sweep, audit_optional,
  call_destroy, after_save, destroy_bound, destroy_unbound, inspect_unbound, inspect_bound,
  inspect_found, inspect, sweep_from, sweep, resource_leb,
}

abbrev pub attempted : JanitorStatus → ℕ
attempted JanitorStatus.destroyed = 1
attempted JanitorStatus.skipped = 0
attempted JanitorStatus.failed = 1

-- How many of the outcomes are of a resource that was destroyed or could not be.
abbrev pub attempts : List JanitorOutcome → ℕ
attempts [] = 0
attempts (o ∷ os) = attempted o.status + attempts os

-- The call of a resource's inspection: none, and it is skipped, or one of its reference.
abbrev pub Called : RuntimeResource → Sweep → Sweep × JanitorOutcome → Type 0
Called r s x =
    (x.0.calls ≡ s.calls) × (attempted x.1.status ≡ 0)
    ⊎ (x.0.calls ≡ r.reference ∷ s.calls) × (attempted x.1.status ≡ 1)

audit_optional-calls :
    (env : Surroundings) (row : Option (Stored WorkerExecution)) (event reason : String) (at : Time)
    (s : Sweep)
    → (audit_optional env row event reason at s).calls ≡ s.calls
unfolding audit_optional audit_sweep
audit_optional-calls env none event reason at s = refl
audit_optional-calls env (some row) event reason at s = refl

destroy_unbound-Called :
    (env : Surroundings) (r : RuntimeResource) (reason : String)
    (row : Option (Stored WorkerExecution)) (at : Time) (s : Sweep)
    → Called r s (destroy_unbound env r reason row at s)
unfolding destroy_unbound
destroy_unbound-Called env r reason row at s =
    if_split (Called r s) (not (env.destroys r.reference)) _ _
      (λ _. inr (audit_optional-calls env row _ _ at (call_destroy env r.reference s), refl))
      (λ _. inr (audit_optional-calls env row _ _ at (call_destroy env r.reference s), refl))

after_save-Called :
    (env : Surroundings) (r : RuntimeResource) (e : WorkerExecution) (reason : String) (at : Time)
    (s : Sweep) (saved : Result StoreError (Stored WorkerExecution × Rows))
    → Called r s (after_save env r e reason at (call_destroy env r.reference s) saved)
unfolding after_save audit_sweep
after_save-Called env r e reason at s (err _) = inr (refl, refl)
after_save-Called env r e reason at s (ok (row, rows)) = inr (refl, refl)

destroy_bound-Called :
    (env : Surroundings) (r : RuntimeResource) (stored : Stored WorkerExecution) (reason : String)
    (at : Time) (s : Sweep)
    → Called r s (destroy_bound env r stored reason at s)
unfolding destroy_bound audit_sweep
destroy_bound-Called env r stored reason at s =
    if_split (Called r s) (not (env.destroys r.reference)) _ _ (λ _. inr (refl, refl))
      λ _.
        if_split (Called r s) stored.entity.cleaned_up _ _ (λ _. inr (refl, refl))
          λ _. after_save-Called env r stored.entity reason at s _

inspect_unbound-Called :
    (env : Surroundings) (grace : ℕ) (r : RuntimeResource) (reason : String)
    (row : Option (Stored WorkerExecution)) (at : Time) (s : Sweep)
    → Called r s (inspect_unbound env grace r reason row at s)
unfolding inspect_unbound
inspect_unbound-Called env grace r reason row at s =
    if_split (Called r s) (leb (r.created_at + grace) at) _ _
      (λ _. destroy_unbound-Called env r reason row at s) (λ _. inl (refl, refl))

inspect_found-Called :
    (env : Surroundings) (grace : ℕ) (r : RuntimeResource)
    (bound by_id by_request : Option (Stored WorkerExecution)) (at : Time) (s : Sweep)
    → Called r s (inspect_found env grace r bound by_id by_request at s)
unfolding inspect_found inspect_bound
inspect_found-Called env grace r none by_id by_request at s =
    inspect_unbound-Called env grace r _ by_id at s
inspect_found-Called env grace r (some stored) by_id by_request at s =
    if_split (Called r s) (not (stored.entity.runtime_identity == env.identity)) _ _
      (λ _. inspect_unbound-Called env grace r _ (some stored) at s)
      λ _.
        if_split (Called r s) (not (worker_terminal stored.entity.state)) _ _
          (λ _. inl (refl, refl)) (λ _. destroy_bound-Called env r stored _ at s)

pub inspect-Called :
    (env : Surroundings) (grace : ℕ) (r : RuntimeResource) (at : Time) (s : Sweep)
    → Called r s (inspect env grace r at s)
unfolding inspect
inspect-Called env grace r at s = inspect_found-Called env grace r _ _ _ at s

abbrev AreSeen : List String → List String → Type 0
AreSeen seen = All (λ c. contains seen c ≡ true)

AreSeen-cons : (x : String) (seen cs : List String) → AreSeen seen cs → AreSeen (x ∷ seen) cs
AreSeen-cons x seen [] h = tt
AreSeen-cons x seen (c ∷ cs) h = (ground arith, AreSeen-cons x seen cs h.1)

AreSeen-fresh :
    (x : String) (seen cs : List String)
    → AreSeen seen cs
    → contains seen x ≡ false
    → contains cs x ≡ false
AreSeen-fresh x seen [] h fresh = refl
AreSeen-fresh x seen (c ∷ cs) h fresh = elim (Bool-cases (x == c)) [
  | inl same ↦ absurd (cc (fresh, h.0, ap (contains seen) ((eq_iff x c).0 same)))
  | inr other ↦ rw other (AreSeen-fresh x seen cs h.1 fresh)
]

-- The calls are of references that were seen, none twice.
abbrev Seen : List String → Sweep → Type 0
Seen seen s = AreSeen seen s.calls × IsUnique s.calls

inspect-Seen :
    (env : Surroundings) (grace : ℕ) (r : RuntimeResource) (at : Time) (seen : List String)
    (s : Sweep)
    → contains seen r.reference ≡ false
    → Seen seen s
    → Seen (r.reference ∷ seen) (inspect env grace r at s).0
inspect-Seen env grace r at seen s fresh (seen_all, unique) =
    elim (inspect-Called env grace r at s) [
      | inl (same, _) ↦ rw same (AreSeen-cons r.reference seen s.calls seen_all, unique)
      | inr (called, _) ↦ rw called (
        (
          ap (λ b. b || contains seen r.reference)
              ((string_eq.beq_iff r.reference r.reference).1 refl),
          AreSeen-cons r.reference seen s.calls seen_all,
        ),
        (AreSeen-fresh r.reference seen s.calls seen_all fresh, unique),
      )
    ]

-- What a loop over resources has done, from a state and with these references seen.
record Tally (resources : List RuntimeResource) (s : Sweep) (x : Sweep × List JanitorOutcome)
    : Type 0 where
  each : length x.1 ≡ length resources
  counted : length x.0.calls ≡ attempts x.1 + length s.calls
  unique : IsUnique x.0.calls

inspect-counted :
    (env : Surroundings) (grace : ℕ) (r : RuntimeResource) (at : Time) (s : Sweep)
    → let x = inspect env grace r at s in length x.0.calls ≡ attempted x.1.status + length s.calls
inspect-counted env grace r at s = elim (inspect-Called env grace r at s) [
  | inl (same, none_called) ↦ omega (arith, ap length same, none_called)
  | inr (called, once) ↦ omega (arith, ap length called, once)
]

sweep_from-Tally :
    (env : Surroundings) (grace : ℕ) (at : Time) (seen : List String)
    (resources : List RuntimeResource) (s : Sweep)
    → Seen seen s
    → Tally resources s (sweep_from env grace at seen resources s)
unfolding sweep_from
sweep_from-Tally env grace at seen [] s h = record {
  each = refl;
  counted = omega arith;
  unique = h.1;
}
sweep_from-Tally env grace at seen (r ∷ rs) s h = elim (Bool-cases (contains seen r.reference)) [
  | inl known ↦
      let t = sweep_from-Tally env grace at seen rs s h in
      rw known
        (record { each = ap suc t.each; counted = omega (arith, t.counted); unique = t.unique })
  | inr fresh ↦
      let x = inspect env grace r at s in
      let t =
        sweep_from-Tally env grace at (r.reference ∷ seen) rs x.0
          (inspect-Seen env grace r at seen s fresh h) in
      rw fresh (record {
        each = ap suc t.each;
        counted = omega (arith, t.counted, inspect-counted env grace r at s);
        unique = t.unique;
      })
]

-- A sweep, whatever the runtime and other sessions do: it gives one outcome for each resource that the
-- runtime lists, it calls `destroy` as often as there are outcomes that are not skipped, and it gives no
-- reference to `destroy` twice.
pub sweep_lem :
    (env : Surroundings) (grace : ℕ) (at : Time) (resources : List RuntimeResource) (s : Sweep)
    → s.calls ≡ []
    → let x = sweep env grace at resources s in
      (length x.1 ≡ length resources) × (length x.0.calls ≡ attempts x.1) × IsUnique x.0.calls
unfolding sweep
sweep_lem env grace at resources s empty =
    let t =
      sweep_from-Tally env grace at [] (sort_by resource_leb resources) s
        (subst (AreSeen []) (sym empty) tt, subst IsUnique (sym empty) tt) in
    (
      t.each ∙ length-sort_by resource_leb resources,
      omega (arith, t.counted, ap length empty),
      t.unique,
    )
