-- ===== src/Execution/Authorization/Begin.antt =====
-- What a successful start leaves in the database.
use vuln_proof_claw.Common.{
  ℕ, ◌+◌, true, ◌≡◌, refl, inl, inr, Option, none, some, List, arith, lookup, insert, string_eq,
  nat_eq, Option-cases, String, if◌then◌else◌, ap, ◌∙◌, sym, subst,
}
use vuln_proof_claw.Common.Results.{Result, ok, err, >>=-eq-ok}
use vuln_proof_claw.Domain.Enums.{ActionState}
use vuln_proof_claw.Domain.Errors.{Time, Raises}
use vuln_proof_claw.Domain.Models.{Action, Approval, authorizes}
use vuln_proof_claw.Domain.ActionState.{transition_action, moved, may_move}
use vuln_proof_claw.Domain.ActionState.Success.{transition_action-Made}
use vuln_proof_claw.Policy.Approval.{consume_approval, used}
use vuln_proof_claw.Policy.Approval.Use.{consume_approval-ok}
use vuln_proof_claw.Persistence.{
  Stored, Database, StoreError, find_version, is_same_progress, write_action, save_action,
  save_approval,
}
use vuln_proof_claw.Execution.Authorization.{
  ExecutionAuthorization, of_domain, of_store, consume_bound, begin_execution,
}

pub of_domain-ok : {A : Type 0} (m : Raises A) {a : A} → of_domain m ≡ ok a → m ≡ ok a
of_domain-ok (ok a) h = ground arith
of_domain-ok (err e) h = cc

of_store-ok : {A : Type 0} (m : Result StoreError A) {a : A} → of_store m ≡ ok a → m ≡ ok a
of_store-ok (ok a) h = ground arith
of_store-ok (err e) h = cc

find_version-some :
    {T : Type 0} (key : String) (expected : ℕ) (rows : List (String × Stored T)) {row : Stored T}
    → find_version key expected rows ≡ some row
    → (lookup key rows ≡ some row) × (row.version ≡ expected)
find_version-some key expected rows h = ground arith

may_move-running :
    (s : ActionState) → may_move s ActionState.running ≡ true → s ≡ ActionState.queued
unfolding may_move
may_move-running s h = ground arith

moved-id : (a : Action) (at : Time) → (moved a ActionState.running none at).id ≡ a.id
unfolding moved
moved-id a at = refl

module _ {Network : Type 0} where
  -- A saved action: the row was there at the expected version, and it alone is written.
  pub save_action-ok :
      (a : Action) (expected : ℕ) (db : Database Network) {s : Stored Action}
      {db' : Database Network}
      → save_action a expected db ≡ ok (s, db')
      → (row : Stored Action) × (lookup a.id db.actions ≡ some row)
        × (row.version ≡ expected)
        × (s.entity ≡ write_action row.entity a)
        × (s.version ≡ (if is_same_progress row.entity a then row.version else row.version + 1))
        × (db' ≡ record db { actions = insert a.id s db.actions })
  unfolding save_action
  save_action-ok a expected db h = elim (Option-cases (find_version a.id expected db.actions)) [
    | inl missing ↦ ground arith
    | inr (row, found) ↦
        let (present, current) = find_version-some a.id expected db.actions found in
        (row, present, current, ground arith, ground arith, ground arith)
  ]

  save_approval-ok :
      (p : Approval) (expected : ℕ) (db : Database Network) {s : Stored Approval}
      {db' : Database Network}
      → save_approval p expected db ≡ ok (s, db')
      → (row : Stored Approval) × (lookup p.id db.approvals ≡ some row)
        × (row.version ≡ expected)
        × (s.entity ≡ record (row.entity) { consumed_executions = p.consumed_executions })
        × (db' ≡ record db { approvals = insert p.id s db.approvals })
  unfolding save_approval
  save_approval-ok p expected db h = elim (Option-cases (find_version p.id expected db.approvals)) [
    | inl missing ↦ ground arith
    | inr (row, found) ↦
        let (present, current) = find_version-some p.id expected db.approvals found in
        (row, present, current, ground arith, ground arith)
  ]

  -- The rows of the approvals, before and after: the approval that was bound, which was there at the
  -- version that was read, has one execution more consumed and is the same in all else.
  abbrev pub Consumed :
      Option (Stored Approval) → Action → Time → Database Network → Database Network → Type 0
  Consumed none a at db db' = db' ≡ db
  Consumed (some p) a at db db' =
      (row : Stored Approval) × (s : Stored Approval) × (lookup p.entity.id db.approvals ≡ some row)
      × (row.version ≡ p.version)
      × (authorizes p.entity a at ≡ true)
      × (s.entity ≡ record (row.entity) { consumed_executions = p.entity.consumed_executions + 1 })
      × (db' ≡ record db { approvals = insert p.entity.id s db.approvals })

  Consumed-used :
      (p : Stored Approval) (a : Action) (at : Time) (db : Database Network) (q : Approval)
      (saved : Stored Approval × Database Network) {db' : Database Network}
      → q ≡ used p.entity
      → authorizes p.entity a at ≡ true
      → save_approval q p.version db ≡ ok saved
      → saved.1 ≡ db'
      → Consumed (some p) a at db db'
  Consumed-used p a at db q saved {db'} e authorized h same =
      let (row, found, current, entity, after) =
        save_approval-ok q p.version db {s = saved.0} {db' = saved.1} h in
      let same_id = ap (λ (r : Approval). r.id) e in
      (
        row,
        saved.0,
        subst (λ k. lookup k db.approvals ≡ some row) same_id found,
        current,
        authorized,
        entity
            ∙ ap
                (λ (r : Approval). record (row.entity) {
                  consumed_executions = r.consumed_executions;
                })
                e,
        sym same
            ∙ after
            ∙ ap (λ k. record db { approvals = insert k saved.0 db.approvals }) same_id,
      )

  consume_bound-Consumed :
      (p : Option (Stored Approval)) (a : Action) (at : Time) (db : Database Network)
      {db' : Database Network}
      → consume_bound p a at db ≡ ok db'
      → Consumed p a at db db'
  unfolding consume_bound
  consume_bound-Consumed none a at db h = ground arith
  consume_bound-Consumed (some p) a at db h =
      let (q, consumed, h') = >>=-eq-ok (of_domain (consume_approval p.entity a at)) _ h in
      let (saved, stored, same) = >>=-eq-ok (of_store (save_approval q p.version db)) _ h' in
      let (e, authorized) = consume_approval-ok p.entity a at (of_domain-ok _ consumed) in
      Consumed-used p a at db q saved e authorized (of_store-ok _ stored) (ground arith)

  -- What `begin_execution` has done, where it succeeds.
  pub record Begun (auth : ExecutionAuthorization) (at : Time) (db : Database Network)
      (s : Stored Action) (db' : Database Network) : Type 0 where
    pub row : Stored Action
    pub middle : Database Network
    pub found : lookup auth.action.entity.id db.actions ≡ some row
    pub current : row.version ≡ auth.action.version
    pub queued : auth.action.entity.state ≡ ActionState.queued
    pub entity :
        s.entity ≡ write_action row.entity (moved auth.action.entity ActionState.running none at)
    pub version : s.version ≡ (
        if is_same_progress row.entity (moved auth.action.entity ActionState.running none at)
        then row.version
        else row.version + 1)
    pub written : middle ≡ record db { actions = insert auth.action.entity.id s db.actions }
    pub consumed : Consumed auth.approval auth.action.entity at middle db'

  started_once :
      (auth : ExecutionAuthorization) (at : Time) (db : Database Network) (running : Action)
      (saved : Stored Action × Database Network) {s : Stored Action} {db' : Database Network}
      → transition_action auth.action.entity ActionState.running none (some at) at ≡ ok running
      → save_action running auth.action.version db ≡ ok saved
      → consume_bound auth.approval auth.action.entity at saved.1 ≡ ok db'
      → saved.0 ≡ s
      → Begun auth at db s db'
  started_once auth at db running saved {s} {db'} t h c same =
      let a = auth.action.entity in
      let made = transition_action-Made a ActionState.running none (some at) at t in
      let (row, found, current, entity, version, after) =
        save_action-ok running auth.action.version db {s = saved.0} {db' = saved.1} h in
      let m = moved a ActionState.running none at in
      let same_id = ap (λ (r : Action). r.id) made.result ∙ moved-id a at in
      record {
        row = row;
        middle = saved.1;
        found = subst (λ k. lookup k db.actions ≡ some row) same_id found;
        current = current;
        queued = may_move-running a.state made.allowed;
        entity =
            ap (λ (r : Stored Action). r.entity) (sym same)
            ∙ entity
            ∙ ap (write_action row.entity) made.result;
        version =
            ap (λ (r : Stored Action). r.version) (sym same)
            ∙ version
            ∙ ap
                (λ (r : Action).
                  if is_same_progress row.entity r then row.version else row.version + 1)
                made.result;
        written =
            after
            ∙ ap (λ (k : String). record db { actions = insert k saved.0 db.actions }) same_id
            ∙ ap (λ (r : Stored Action). record db { actions = insert a.id r db.actions }) same;
        consumed = consume_bound-Consumed auth.approval a at saved.1 c;
      }

  pub begin_execution-Begun :
      (auth : ExecutionAuthorization) (at : Time) (db : Database Network) {s : Stored Action}
      {db' : Database Network}
      → begin_execution auth at db ≡ ok (s, db')
      → Begun auth at db s db'
  unfolding begin_execution
  begin_execution-Begun auth at db {s} {db'} h =
      let a = auth.action.entity in
      let (running, moved_on, h') =
        >>=-eq-ok (of_domain (transition_action a ActionState.running none (some at) at)) _ h in
      let (saved, stored, h'') =
        >>=-eq-ok (of_store (save_action running auth.action.version db)) _ h' in
      let (after, consumed, same) = >>=-eq-ok (consume_bound auth.approval a at saved.1) _ h'' in
      started_once auth at db running saved (of_domain-ok _ moved_on) (of_store-ok _ stored)
        (ground arith) (ground arith)
