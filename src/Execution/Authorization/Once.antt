-- ===== src/Execution/Authorization/Once.antt =====
-- The row of an action when its execution starts, and a second start.
use vuln_proof_claw.Common.{
  ◌+◌, false, ◌≡◌, ◌≢◌, refl, Option, none, some, arith, lookup, insert, lookup-insert, string_eq,
  String, if◌then◌else◌, ap, ◌∙◌, sym, subst, eq_self, ◌==◌,
}
use vuln_proof_claw.Common.Results.{ok}
use vuln_proof_claw.Domain.Enums.{ActionState}
use vuln_proof_claw.Domain.Errors.{Time}
use vuln_proof_claw.Domain.Models.{Action, Approval}
use vuln_proof_claw.Domain.ActionState.{moved}
use vuln_proof_claw.Persistence.{Stored, Database, is_same_progress, write_action}
use vuln_proof_claw.Execution.Authorization.{ExecutionAuthorization, begin_execution}
use vuln_proof_claw.Execution.Authorization.Begin.{Consumed, begin_execution-Begun}

-- Starting changes the state of a queued action.
progress-moved :
    (a : Action) (at : Time)
    → a.state ≡ ActionState.queued
    → is_same_progress a (moved a ActionState.running none at) ≡ false
unfolding is_same_progress moved
progress-moved a at h = ground arith

write-moved :
    (a : Action) (at : Time)
    → ((write_action a (moved a ActionState.running none at)).state ≡ ActionState.running)
      × ((write_action a (moved a ActionState.running none at)).started_at ≡ some at)
unfolding moved
write-moved a at = (refl, ground arith)

module _ {Network : Type 0} where
  Consumed-actions :
      (p : Option (Stored Approval)) (a : Action) (at : Time) (db db' : Database Network)
      → Consumed p a at db db'
      → db'.actions ≡ db.actions
  Consumed-actions none a at db db' c = ap (λ (d : Database Network). d.actions) c
  Consumed-actions (some p) a at db db' (row, s, found, current, auth, e, c) =
      ap (λ (d : Database Network). d.actions) c

  -- A start that succeeds, on a database that still holds the action as it was read: the action's
  -- row is running since the given time, at the next version, and every other action is untouched;
  -- and of the approvals exactly the bound one has one execution more consumed.
  pub record Started (auth : ExecutionAuthorization) (at : Time) (db : Database Network)
      (s : Stored Action) (db' : Database Network) : Type 0 where
    pub row : lookup auth.action.entity.id db'.actions ≡ some s
    pub running : s.entity.state ≡ ActionState.running
    pub started : s.entity.started_at ≡ some at
    pub version : s.version ≡ auth.action.version + 1
    pub rows :
        (j : String)
        → lookup j db'.actions
          ≡ (if auth.action.entity.id == j then some s else lookup j db.actions)
    pub middle : Database Network
    pub same_approvals : middle.approvals ≡ db.approvals
    pub consumed : Consumed auth.approval auth.action.entity at middle db'

  -- A start that succeeds, where the database holds the action as it was read, leaves `Started`:
  -- the action's row is running since the given time at the next version, every other action is as
  -- before, and the approval that was bound, if any, was at the version read, authorized the
  -- action and has one execution more consumed.
  pub begin_execution-Started :
      (auth : ExecutionAuthorization) (at : Time) (db : Database Network) {s : Stored Action}
      {db' : Database Network}
      → lookup auth.action.entity.id db.actions ≡ some auth.action
      → begin_execution auth at db ≡ ok (s, db')
      → Started auth at db s db'
  begin_execution-Started auth at db {s} {db'} read h =
      let b = begin_execution-Begun auth at db {s = s} {db' = db'} h in
      let a = auth.action.entity in
      let m = moved a ActionState.running none at in
      let same_row : b.row ≡ auth.action = cc (b.found, read) in
      let entity : s.entity ≡ write_action a m =
        b.entity ∙ ap (λ (r : Stored Action). write_action r.entity m) same_row in
      let actions : db'.actions ≡ insert a.id s db.actions =
        Consumed-actions auth.approval a at b.middle db' b.consumed
        ∙ ap (λ (d : Database Network). d.actions) b.written in
      record {
        row = ap (lookup a.id) actions ∙ lookup-insert a.id a.id s db.actions ∙ rw (eq_self a.id);
        running = ap (λ (r : Action). r.state) entity ∙ (write-moved a at).0;
        started = ap (λ (r : Action). r.started_at) entity ∙ (write-moved a at).1;
        version =
            b.version
            ∙ ap
                (λ (r : Stored Action).
                  if is_same_progress r.entity m then r.version else r.version + 1)
                same_row
            ∙ rw (progress-moved a at b.queued);
        rows = λ j. ap (lookup j) actions ∙ lookup-insert a.id j s db.actions;
        middle = b.middle;
        same_approvals = ap (λ (d : Database Network). d.approvals) b.written;
        consumed = b.consumed;
      }

  -- Where the database holds the action as it was read and a start of it succeeds, no later start
  -- succeeds on the resulting database that was authorized for the action as it was read, whatever
  -- the time and the approval of that start.
  pub begin_execution-once :
      (auth : ExecutionAuthorization) (at : Time) (db : Database Network) {s : Stored Action}
      {db' : Database Network} (other : ExecutionAuthorization) (at' : Time)
      → lookup auth.action.entity.id db.actions ≡ some auth.action
      → begin_execution auth at db ≡ ok (s, db')
      → other.action ≡ auth.action
      → (r : Stored Action × Database Network) → begin_execution other at' db' ≢ ok r
  begin_execution-once auth at db {s} {db'} other at' read h same r again =
      let first = begin_execution-Started auth at db {s = s} {db' = db'} read h in
      let second = begin_execution-Begun other at' db' {s = r.0} {db' = r.1} again in
      let found : lookup auth.action.entity.id db'.actions ≡ some second.row =
        subst (λ (x : Stored Action). lookup x.entity.id db'.actions ≡ some second.row) same
          second.found in
      let row : second.row ≡ s = cc (found, first.row) in
      let version : s.version ≡ auth.action.version =
        ap (λ (x : Stored Action). x.version) (sym row)
        ∙ second.current
        ∙ ap (λ (x : Stored Action). x.version) same in
      omega (arith, version, first.version)
