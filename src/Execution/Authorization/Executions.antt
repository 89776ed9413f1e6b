-- ===== src/Execution/Authorization/Executions.antt =====
-- Executions of actions that name one approval, each authorized and begun on the same database.
use vuln_proof_claw.Common.{
  ℕ, suc, ◌+◌, ◌≤◌, ◌≡◌, ◌≢◌, refl, some, arith, lookup, string_eq, String, ap, subst,
}
use vuln_proof_claw.Common.Unicode.{Unicode}
use vuln_proof_claw.Common.Results.{ok}
use vuln_proof_claw.Domain.Errors.{Time, Raises}
use vuln_proof_claw.Policy.Scope.{IpLibrary, NormalizedTarget}
use vuln_proof_claw.Persistence.{Stored, Database}
use vuln_proof_claw.Domain.Models.{Action, Approval}
use vuln_proof_claw.Execution.Authorization.{
  ExecutionAuthorization, authorize_queued_action, begin_execution,
}
use vuln_proof_claw.Execution.Authorization.Begin.{begin_execution-Begun}
use vuln_proof_claw.Execution.Authorization.Recheck.{authorize_queued_action-Rechecked}
use vuln_proof_claw.Execution.Authorization.Spending.{
  HasKeys, Spent, Holds, named-Spent, Spent-HasKeys, Spent-Holds, other-Holds,
}

module _ (unicode : Unicode) (ip : IpLibrary)
    (normalize_target : String → Raises NormalizedTarget) where
  open ip use {Network}

  -- An action that the database authorizes and whose execution then begins.
  pub record Execution (stored : Stored Action) (db db' : Database Network) : Type 0 where
    pub at : Time
    pub authorization : ExecutionAuthorization
    pub row : Stored Action
    pub authorized :
        authorize_queued_action unicode ip normalize_target stored at db ≡ ok authorization
    pub begun : begin_execution authorization at db ≡ ok (row, db')

  -- Executions in a row, `n` of them of actions that name the approval `k`.
  pub data Executions (k : String) (db : Database Network) : ℕ → Database Network → Type 0 where
    idle : Executions k db 0 db
    of_named :
        {n : ℕ} {before after : Database Network} (stored : Stored Action)
        → Executions k db n before
        → stored.entity.approval_id ≡ some k
        → Execution stored before after
        → Executions k db (suc n) after
    of_other :
        {n : ℕ} {before after : Database Network} (stored : Stored Action)
        → Executions k db n before
        → stored.entity.approval_id ≢ some k
        → Execution stored before after
        → Executions k db n after

  Execution-Spent :
      (stored : Stored Action) (db db' : Database Network)
      → HasKeys db
      → Execution stored db db'
      → Spent stored.entity.approval_id db db'
  Execution-Spent stored db db' keys e =
      let r =
        authorize_queued_action-Rechecked unicode ip normalize_target stored e.at db
          {auth = e.authorization} e.authorized in
      let b = begin_execution-Begun e.authorization e.at db {s = e.row} {db' = db'} e.begun in
      named-Spent stored.entity.approval_id e.authorization.approval e.authorization.action.entity
        e.at db b.middle db' keys r.approval (ap (λ (d : Database Network). d.approvals) b.written)
        b.consumed

  Executions-Holds :
      {k : String} {db db' : Database Network} {n : ℕ} (c p : ℕ)
      → Executions k db n db'
      → HasKeys db
      → Holds k c p db
      → HasKeys db' × Holds k (n + c) p db'
  Executions-Holds {k = k} {db = db} c p idle keys holds =
      (keys, subst (λ m. Holds k m p db) (omega arith) holds)
  Executions-Holds {k = k} c p (of_named {n} {before} {after} stored es named e) keys holds =
      let (kept, held) = Executions-Holds c p es keys holds in
      let spent = Execution-Spent stored before after kept e in
      let by_k = subst (λ x. Spent x before after) named spent in
      (
        Spent-HasKeys stored.entity.approval_id before after kept spent,
        subst (λ m. Holds k m p after) (omega arith)
            (Spent-Holds k (n + c) p before after by_k held),
      )
  Executions-Holds {k = k} c p (of_other {n} {before} {after} stored es other e) keys holds =
      let (kept, held) = Executions-Holds c p es keys holds in
      let spent = Execution-Spent stored before after kept e in
      (
        Spent-HasKeys stored.entity.approval_id before after kept spent,
        other-Holds stored.entity.approval_id k (n + c) p before after other spent held,
      )

  -- On a database whose approvals each stand under their own identifier and in which an approval
  -- has consumed no more than it permits, of any executions in a row, each authorized and then
  -- begun on the database that the one before left, the number that are of actions naming that
  -- approval and what it had consumed are together at most what it permits.
  pub Executions-le :
      {k : String} {db db' : Database Network} {n : ℕ} (row : Stored Approval)
      → Executions k db n db'
      → HasKeys db
      → lookup k db.approvals ≡ some row
      → row.entity.consumed_executions ≤ row.entity.permitted_executions
      → n + row.entity.consumed_executions ≤ row.entity.permitted_executions
  Executions-le row es keys found le =
      (Executions-Holds row.entity.consumed_executions row.entity.permitted_executions es keys
        (row, found, refl, refl, le)).1.4
