-- ===== src/Persistence.antt =====
-- persistence/repositories.py: the rows that the start of an execution reads and writes, with their
-- versions. A row is held as the entity that it is read back as; a transaction that raises is rolled
-- back, so a failed call has no database to give back.
use vuln_proof_claw.Common.{
  ℕ, ◌+◌, Bool, ◌&&◌, Option, none, some, List, ◌==◌, lookup, insert, nat_eq, string_eq, option_eq,
  if◌then◌else◌, String,
}
use vuln_proof_claw.Common.Results.{Result, ok, err}
use vuln_proof_claw.Domain.Enums.{ActionState-discrete, action_state_eq}
use vuln_proof_claw.Domain.Models.{Action, Approval, Engagement}
use vuln_proof_claw.Policy.Scope.{EngagementScope}

pub record Stored {ℓ} (T : Type ℓ) : Type ℓ where
  pub entity : T
  pub version : ℕ

pub record Database (Network : Type 0) : Type 0 where
  pub engagements : List (String × Stored Engagement)
  pub scopes : List (String × EngagementScope Network)
  pub approvals : List (String × Stored Approval)
  pub actions : List (String × Stored Action)

-- `ConcurrentUpdateError`
pub data StoreError : Type 0 where
  concurrent_update : StoreError

-- The row with this identifier at the version that the caller has read.
abbrev pub find_version {ℓ} :
    {T : Type ℓ} → String → ℕ → List (String × Stored T) → Option (Stored T)
find_version key expected rows = elim (lookup key rows) [
  | none ↦ none
  | some row ↦ if row.version == expected then some row else none
]

-- What `ActionRepository.save` writes into a row.
abbrev pub write_action : Action → Action → Action
write_action row a = record row {
  state = a.state;
  approval_id = a.approval_id;
  started_at = a.started_at;
  completed_at = a.completed_at;
}

-- An update that changes no column is not sent, so the version stays.
unfoldable pub is_same_progress : Action → Action → Bool
unfolding ActionState-discrete
is_same_progress a b =
    (a.state == b.state)
    && (a.approval_id == b.approval_id)
    && (a.started_at == b.started_at)
    && (a.completed_at == b.completed_at)

module _ {Network : Type 0} where
  -- `ActionRepository.save`
  unfoldable pub save_action :
      Action → ℕ → Database Network → Result StoreError (Stored Action × Database Network)
  save_action a expected db = elim (find_version a.id expected db.actions) [
    | none ↦ err concurrent_update
    | some row ↦
        let saved : Stored Action = record {
          entity = write_action row.entity a;
          version = if is_same_progress row.entity a then row.version else row.version + 1;
        } in
        ok (saved, record db { actions = insert a.id saved db.actions })
  ]

  -- `ApprovalRepository.save`
  unfoldable pub save_approval :
      Approval → ℕ → Database Network → Result StoreError (Stored Approval × Database Network)
  save_approval p expected db = elim (find_version p.id expected db.approvals) [
    | none ↦ err concurrent_update
    | some row ↦
        let saved : Stored Approval = record {
          entity = record (row.entity) { consumed_executions = p.consumed_executions };
          version =
              if row.entity.consumed_executions == p.consumed_executions
              then row.version
              else row.version + 1;
        } in
        ok (saved, record db { approvals = insert p.id saved db.approvals })
  ]
