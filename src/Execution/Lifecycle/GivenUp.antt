-- ===== src/Execution/Lifecycle/GivenUp.antt =====
-- One round of `reconcile_after_restart` of execution/lifecycle.py on rows that pass their checks.
use vuln_proof_claw.Common.{
  OnSome, OnSome-of, OnSome-at, true, false, eq_self, ◌≡◌, ◌≤◌, refl, ap, ◌∙◌, sym, subst, Option,
  none, some, List, String, lookup, insert, lookup-insert_cases, or_else, if◌then◌else◌, string_eq,
  nat_eq, arith, inl, inr, Bool-cases, ◌+◌,
}
use vuln_proof_claw.Common.Results.{ok}
use vuln_proof_claw.Domain.Enums.{ActionState}
use vuln_proof_claw.Domain.Errors.{Time, require_text}
use vuln_proof_claw.Domain.Models.{Action, validate_action}
use vuln_proof_claw.Domain.ActionState.{
  transition_action, moved, may_move, needs_approval, is_terminal,
}
use vuln_proof_claw.Persistence.{
  Stored, Database, save_action, write_action, find_version, is_same_progress,
}
use vuln_proof_claw.Execution.Registry.{
  WorkerExecution, Rows, validate_execution, save_execution, saved_execution,
}
use vuln_proof_claw.Execution.Lifecycle.{Ledger, close_action, action_state_value}
use vuln_proof_claw.Execution.Lifecycle.Recovery.{
  reconciliation_time, given_up, is_started, close_lost,
}

pub given_up-valid :
    (e : WorkerExecution) (at : Time)
    → validate_execution e ≡ ok e
    → e.created_at ≤ at
    → validate_execution (given_up e at) ≡ ok (given_up e at)
unfolding validate_execution require_text
given_up-valid e at valid later = ground arith

moved_lost-valid :
    (a : Action) (at : Time)
    → validate_action a ≡ ok a
    → a.created_at ≤ at
    → or_else a.started_at a.created_at ≤ at
    → validate_action (moved a ActionState.worker_lost none at)
      ≡ ok (moved a ActionState.worker_lost none at)
unfolding validate_action moved is_terminal
moved_lost-valid a at valid created started = ground arith

transition_action-lost :
    (a : Action) (at : Time)
    → is_started a.state ≡ true
    → validate_action (moved a ActionState.worker_lost none at)
      ≡ ok (moved a ActionState.worker_lost none at)
    → transition_action a ActionState.worker_lost none (some at) at
      ≡ ok (moved a ActionState.worker_lost none at)
unfolding transition_action may_move needs_approval is_started
transition_action-lost a at started valid = ground arith

moved_lost-id : (a : Action) (at : Time) → (moved a ActionState.worker_lost none at).id ≡ a.id
unfolding moved
moved_lost-id a at = refl

write_action-moved :
    (a : Action) (at : Time)
    → write_action a (moved a ActionState.worker_lost none at)
      ≡ moved a ActionState.worker_lost none at
unfolding moved
write_action-moved a at = refl

find_version-current :
    {T : Type 0} (k : String) (rows : List (String × Stored T)) (row : Stored T)
    → lookup k rows ≡ some row
    → find_version k row.version rows ≡ some row
find_version-current k rows row found = ground (arith, found)

pub save_execution-current :
    (e : WorkerExecution) (rows : Rows) (row : Stored WorkerExecution)
    → lookup e.id rows ≡ some row
    → save_execution e row.version rows
      ≡ ok (saved_execution row e, insert e.id (saved_execution row e) rows)
unfolding save_execution
save_execution-current e rows row found = ground (arith, find_version-current e.id rows row found)

-- The action's identifier is the key, and it passes its constructor's checks.
abbrev Fits : String → Stored Action → Type 0
Fits k row = (row.entity.id ≡ k) × (validate_action row.entity ≡ ok row.entity)

-- Every action stands under its identifier and passes its constructor's checks.
abbrev pub ActionsFit : List (String × Stored Action) → Type 0
ActionsFit rows = (k : String) → OnSome (Fits k) (lookup k rows)

-- The action is neither queued nor running.
abbrev pub HasEnded : Stored Action → Type 0
HasEnded a = is_started a.entity.state ≡ false

-- The action under a key has ended, and no action that had ended has begun again.
abbrev pub Ends : String → List (String × Stored Action) → List (String × Stored Action) → Type 0
Ends k rows rows' =
    OnSome HasEnded (lookup k rows')
    × ((j : String) → OnSome HasEnded (lookup j rows) → OnSome HasEnded (lookup j rows'))

moved_lost-HasEnded :
    (a : Action) (at : Time) → is_started (moved a ActionState.worker_lost none at).state ≡ false
unfolding moved is_started
moved_lost-HasEnded a at = refl

insert-Ends :
    (k : String) (s : Stored Action) (rows : List (String × Stored Action))
    → HasEnded s
    → Ends k rows (insert k s rows)
insert-Ends k s rows ended = (
  OnSome-of HasEnded (lookup k (insert k s rows)) λ row at_k.
      elim (lookup-insert_cases k k s rows at_k) [
        | inl (_, same) ↦ subst HasEnded same ended
        | inr (other, _) ↦ cc (eq_self k, other)
      ],
  λ j before. OnSome-of HasEnded (lookup j (insert k s rows)) λ row at_j.
      elim (lookup-insert_cases k j s rows at_j) [
        | inl (_, same) ↦ subst HasEnded same ended
        | inr (_, old) ↦ OnSome-at HasEnded before old
      ],
)

module _ {Network : Type 0} where
  save_action-current :
      (a : Action) (db : Database Network) (row : Stored Action)
      → lookup a.id db.actions ≡ some row
      → (s : Stored Action) × (save_action a row.version db
          ≡ ok (s, record db { actions = insert a.id s db.actions }))
        × (s.entity ≡ write_action row.entity a)
  unfolding save_action
  save_action-current a db row found = (
    record {
      entity = write_action row.entity a;
      version = if is_same_progress row.entity a then row.version else row.version + 1;
    },
    ground (arith, find_version-current a.id db.actions row found),
    refl,
  )

  -- The actions after a close: one was written, or none.
  close_action-lost :
      (a : Stored Action) (at : Time) (l : Ledger Network) (k : String)
      → is_started a.entity.state ≡ true
      → ActionsFit l.database.actions
      → lookup k l.database.actions ≡ some a
      → a.entity.created_at ≤ at
      → or_else a.entity.started_at a.entity.created_at ≤ at
      → (l' : Ledger Network) × (close_action a ActionState.worker_lost at l ≡ ok l')
        × (l'.executions ≡ l.executions)
        × ActionsFit l'.database.actions
        × Ends k l.database.actions l'.database.actions
  unfolding close_action
  close_action-lost a at l k started fits found created begun =
      let m = moved a.entity ActionState.worker_lost none at in
      let (named, valid) = OnSome-at (Fits k) (fits k) found in
      let m_valid = moved_lost-valid a.entity at valid created begun in
      let there : lookup m.id l.database.actions ≡ some a =
        ap (λ j. lookup j l.database.actions) (moved_lost-id a.entity at ∙ named) ∙ found in
      let (s, saved, entity) = save_action-current m l.database a there in
      let after = insert m.id s l.database.actions in
      let written : s.entity ≡ m = entity ∙ write_action-moved a.entity at in
      (
        record l { database = record (l.database) { actions = after } },
        ground (arith, transition_action-lost a.entity at started m_valid, saved),
        refl,
        λ j. OnSome-of (Fits j) (lookup j after) λ row at_j.
            elim (lookup-insert_cases m.id j s l.database.actions at_j) [
              | inl (here, same) ↦ subst (Fits j) same (
                ap (λ (x : Action). x.id) written ∙ here,
                subst (λ x. validate_action x ≡ ok x) (sym written) m_valid,
              )
              | inr (_, before) ↦ OnSome-at (Fits j) (fits j) before
            ],
        subst (λ i. Ends i l.database.actions after) (moved_lost-id a.entity at ∙ named)
            (insert-Ends m.id s l.database.actions
              (ap (λ (x : Action). is_started x.state) written ∙ moved_lost-HasEnded a.entity at)),
      )

  pub close_lost-ok :
      (found : Option (Stored Action)) (at : Time) (e : WorkerExecution) (l : Ledger Network)
      (k : String)
      → ActionsFit l.database.actions
      → lookup k l.database.actions ≡ found
      → (label : String) × (l' : Ledger Network) × (close_lost found
            (reconciliation_time at e found)
            l
          ≡ ok (label, l'))
        × (l'.executions ≡ l.executions)
        × ActionsFit l'.database.actions
        × Ends k l.database.actions l'.database.actions
  unfolding close_lost reconciliation_time
  close_lost-ok none at e l k fits found =
      ("missing", l, refl, refl, fits, (subst (OnSome HasEnded) (sym found) tt, λ j h. h))
  close_lost-ok (some a) at e l k fits found = elim (Bool-cases (is_started a.entity.state)) [
    | inr ended ↦ (
      action_state_value a.entity.state,
      l,
      ground (arith, ended),
      refl,
      fits,
      (subst (OnSome HasEnded) (sym found) ended, λ j h. h),
    )
    | inl started ↦
        let then_at = reconciliation_time at e (some a) in
        let (l', closed, same, kept, ends) =
          close_action-lost a then_at l k started fits found (omega arith) (omega arith) in
        (
          action_state_value ActionState.worker_lost,
          l',
          ground (arith, started, closed),
          same,
          kept,
          ends,
        )
  ]
