-- ===== src/Execution/Lifecycle/Recovered.antt =====
-- What `reconcile_after_restart` of execution/lifecycle.py leaves.
use vuln_proof_claw.Common.{
  OnSome, OnSome-of, false, ◌≡◌, ◌≤◌, refl, ap, ◌∙◌, sym, subst, Option, none, some, List, [], ◌∷◌,
  String, ◌==◌, ◌||◌, contains, lookup, insert, lookup-insert, lookup-insert_cases, if◌then◌else◌,
  string_eq, arith, ◌⊎◌, inl, inr, Bool-cases, All, IsUnique, eq_false_sym,
}
use vuln_proof_claw.Common.Results.{ok}
use vuln_proof_claw.Domain.Enums.{WorkerState}
use vuln_proof_claw.Domain.Errors.{Time}
use vuln_proof_claw.Domain.Models.{Action}
use vuln_proof_claw.Persistence.{Stored}
use vuln_proof_claw.Execution.Registry.{
  WorkerExecution, Rows, saved_execution, is_in_flight, list_in_flight,
}
use vuln_proof_claw.Execution.Registry.InFlight.{
  ids, IsThere, RowsFit, list_in_flight-IsThere, list_in_flight-IsUnique, list_in_flight-contains,
}
use vuln_proof_claw.Execution.Lifecycle.{Ledger}
use vuln_proof_claw.Execution.Lifecycle.Recovery.{
  reconciliation_time, given_up, audit_lost, reconcile_one, reconcile_all, reconcile_after_restart,
}
use vuln_proof_claw.Execution.Lifecycle.GivenUp.{
  HasEnded, Ends, given_up-valid, save_execution-current, ActionsFit, close_lost-ok,
}

reconciliation_time-le :
    (at : Time) (e : WorkerExecution) (found : Option (Stored Action))
    → e.created_at ≤ reconciliation_time at e found
unfolding reconciliation_time
reconciliation_time-le at e none = omega arith
reconciliation_time-le at e (some a) = omega arith

IsThere-insert :
    (k : String) (new : Stored WorkerExecution) (rows : Rows) (todo : List (Stored WorkerExecution))
    → contains (ids todo) k ≡ false
    → All (IsThere rows) todo
    → All (IsThere (insert k new rows)) todo
IsThere-insert k new rows [] other there = tt
IsThere-insert k new rows (r ∷ todo) other there =
    let apart : (k == r.entity.id) ≡ false = ground arith in
    let rest : contains (ids todo) k ≡ false = ground arith in
    (
      (
        lookup-insert k r.entity.id new rows
            ∙ ap (λ b. if b then some new else lookup r.entity.id rows) apart
            ∙ there.0.0,
        there.0.1,
      ),
      IsThere-insert k new rows todo rest there.1,
    )

-- The execution is not in flight.
abbrev pub HasLanded : Stored WorkerExecution → Type 0
HasLanded row = is_in_flight row.entity.state ≡ false

module _ {Network : Type 0} where
  -- One round returns, and writes the row as lost.
  record Round (stored : Stored WorkerExecution) (l l' : Ledger Network) : Type 0 where
    row : Stored WorkerExecution
    lost : row.entity.state ≡ WorkerState.lost
    written : l'.executions ≡ insert stored.entity.id row l.executions
    fits : ActionsFit l'.database.actions
    ends : Ends stored.entity.action_id l.database.actions l'.database.actions

  reconcile_one-Round :
      (stored : Stored WorkerExecution) (at : Time) (l : Ledger Network)
      → IsThere l.executions stored
      → ActionsFit l.database.actions
      → (e : WorkerExecution) × (l' : Ledger Network) × (reconcile_one stored at l ≡ ok (e, l'))
        × Round stored l l'
  unfolding reconcile_one audit_lost
  reconcile_one-Round stored at l (found, valid) fits =
      let a = lookup stored.entity.action_id l.database.actions in
      let then_at = reconciliation_time at stored.entity a in
      let lost = given_up stored.entity then_at in
      let row = saved_execution stored lost in
      let lost_valid =
        given_up-valid stored.entity then_at valid (reconciliation_time-le at stored.entity a) in
      let saved = save_execution-current lost l.executions stored found in
      let l1 = record l { executions = insert stored.entity.id row l.executions } in
      let (label, l2, closed, same, kept, ends) =
        close_lost-ok a at stored.entity l1 stored.entity.action_id fits refl in
      (
        row.entity,
        audit_lost stored label then_at l2,
        ground (arith, lost_valid, saved, closed),
        record { row = row; lost = refl; written = same; fits = kept; ends = ends },
      )

  -- The action of the execution has ended.
  abbrev pub IsClosed : Ledger Network → Stored WorkerExecution → Type 0
  IsClosed l row = OnSome HasEnded (lookup row.entity.action_id l.database.actions)

  -- What the loop leaves: a row is lost, or it is as before and was not to be closed; and the actions of
  -- those that were have ended.
  record Rounds (todo : List (Stored WorkerExecution)) (l l' : Ledger Network) : Type 0 where
    rows :
        (k : String) (row : Stored WorkerExecution)
        → lookup k l'.executions ≡ some row
        → (row.entity.state ≡ WorkerState.lost)
          ⊎ (lookup k l.executions ≡ some row) × (contains (ids todo) k ≡ false)
    fits : ActionsFit l'.database.actions
    closed : All (IsClosed l') todo
    kept :
        (j : String)
        → OnSome HasEnded (lookup j l.database.actions)
        → OnSome HasEnded (lookup j l'.database.actions)

  reconcile_all-Rounds :
      (todo : List (Stored WorkerExecution)) (at : Time) (l : Ledger Network)
      → All (IsThere l.executions) todo
      → IsUnique (ids todo)
      → ActionsFit l.database.actions
      → (es : List WorkerExecution) × (l' : Ledger Network) × (reconcile_all todo at l
          ≡ ok (es, l'))
        × Rounds todo l l'
  unfolding reconcile_all
  reconcile_all-Rounds [] at l there unique fits = (
    [],
    l,
    refl,
    record { rows = λ k row found. inr (found, refl); fits = fits; closed = tt; kept = λ j h. h },
  )
  reconcile_all-Rounds (r ∷ todo) at l there unique fits =
      let (e, l1, first, round) = reconcile_one-Round r at l there.0 fits in
      let later : All (IsThere l1.executions) todo =
        subst (λ rows. All (IsThere rows) todo) (sym round.written)
          (IsThere-insert r.entity.id round.row l.executions todo unique.0 there.1) in
      let (es, l2, rest, rounds) = reconcile_all-Rounds todo at l1 later unique.1 round.fits in
      (
        e ∷ es,
        l2,
        ground (arith, first, rest),
        record {
          rows = λ k row found. elim (rounds.rows k row found) [
            | inl lost ↦ inl lost
            | inr (before, untouched) ↦
                let found1 : lookup k (insert r.entity.id round.row l.executions) ≡ some row =
                  ap (lookup k) (sym round.written) ∙ before in
                elim (lookup-insert_cases r.entity.id k round.row l.executions found1) [
                  | inl (here, same) ↦
                      inl (
                        ap (λ (x : Stored WorkerExecution). x.entity.state) (sym same) ∙ round.lost)
                  | inr (other, old) ↦ inr (
                    old,
                    ap (λ b. b || contains (ids todo) k) (eq_false_sym r.entity.id k other)
                        ∙ untouched,
                  )
                ]
          ];
          fits = rounds.fits;
          closed = (rounds.kept r.entity.action_id round.ends.0, rounds.closed);
          kept = λ j h. rounds.kept j (round.ends.1 j h);
        },
      )

  -- If every execution and every action passes its constructor's checks and stands under its own
  -- identifier, once, reconciliation after a restart returns at any time: no step of it raises. After it
  -- no execution is in flight, no action of an execution that was in flight is queued or running, and
  -- every action passes its checks and stands under its own identifier.
  pub reconcile_after_restart_lem :
      (at : Time) (l : Ledger Network)
      → RowsFit l.executions
      → ActionsFit l.database.actions
      → (es : List WorkerExecution) × (l' : Ledger Network) × (reconcile_after_restart at l
          ≡ ok (es, l'))
        × ((k : String) → OnSome HasLanded (lookup k l'.executions))
        × All (IsClosed l') (list_in_flight l.executions)
        × ActionsFit l'.database.actions
  unfolding reconcile_after_restart is_in_flight
  reconcile_after_restart_lem at l rows_fit fits =
      let (es, l', done, rounds) =
        reconcile_all-Rounds (list_in_flight l.executions) at l
          (list_in_flight-IsThere l.executions rows_fit)
          (list_in_flight-IsUnique l.executions rows_fit) fits in
      (
        es,
        l',
        done,
        λ k. OnSome-of HasLanded (lookup k l'.executions) λ row found.
            elim (rounds.rows k row found) [
              | inl lost ↦ ap is_in_flight lost
              | inr (before, untouched) ↦ elim (Bool-cases (is_in_flight row.entity.state)) [
                | inr ended ↦ ended
                | inl flying ↦
                    cc
                      (list_in_flight-contains k row l.executions rows_fit before flying, untouched)
              ]
            ],
        rounds.closed,
        rounds.fits,
      )
