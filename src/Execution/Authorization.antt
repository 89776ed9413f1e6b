-- ===== src/Execution/Authorization.antt =====
-- execution/authorization.py: authority is checked again at the start, and the approval consumed.
pub mod Begin
pub mod Once
pub mod Recheck
pub mod Spending
pub mod Executions
use vuln_proof_claw.Common.{
  ℕ, Bool, true, false, not, Option, none, some, ◌==◌, lookup, string_eq, if◌then◌else◌, String,
}
use vuln_proof_claw.Common.Unicode.{Unicode}
use vuln_proof_claw.Common.Results.{Result, ok, err, raise_if, ◌>>=◌, ◌>>◌}
use vuln_proof_claw.Domain.Enums.{ActionState, ActionState-discrete, action_state_eq}
use vuln_proof_claw.Domain.Errors.{Error, Time, Raises}
use vuln_proof_claw.Domain.Models.{Action, Approval, Engagement}
use vuln_proof_claw.Domain.ActionState.{transition_action}
use vuln_proof_claw.Policy.Approval.{consume_approval}
use vuln_proof_claw.Policy.Decision.{DecisionKind, PolicyConfig, PolicyDecision, decide_action}
use vuln_proof_claw.Policy.Scope.{IpLibrary, NormalizedTarget, EngagementScope}
use vuln_proof_claw.Persistence.{
  Stored, Database, StoreError, concurrent_update, save_action, save_approval,
}

pub data ExecutionError : Type 0 where
  -- ExecutionAuthorizationError
  refused : (reason : String) → ExecutionError
  domain : Error → ExecutionError
  store : StoreError → ExecutionError

abbrev pub Executes : Type 0 → Type 0
Executes A = Result ExecutionError A

abbrev pub of_domain : {A : Type 0} → Raises A → Executes A
of_domain (ok a) = ok a
of_domain (err e) = err (domain e)

abbrev pub of_store : {A : Type 0} → Result StoreError A → Executes A
of_store (ok a) = ok a
of_store (err e) = err (store e)

-- The value that was found, or a refusal.
abbrev pub or_refuse : {A : Type 0} → Option A → String → Executes A
or_refuse (some a) reason = ok a
or_refuse none reason = err (refused reason)

pub record ExecutionAuthorization : Type 0 where
  pub action : Stored Action
  pub approval : Option (Stored Approval)
  pub decision : PolicyDecision

abbrev pub config_of : Engagement → PolicyConfig
config_of e = record {
  maximum_risk = e.maximum_risk;
  auto_execute_l1 = e.auto_execute_l1;
  destructive_actions_enabled = e.destructive_actions_enabled;
}

abbrev pub entity_of : Option (Stored Approval) → Option Approval
entity_of none = none
entity_of (some row) = some row.entity

-- `if decision.kind is not DecisionKind.ALLOW: raise …`
abbrev pub if_allowed : PolicyDecision → ExecutionAuthorization → Executes ExecutionAuthorization
if_allowed decision auth = elim decision.kind [
  | DecisionKind.allow ↦ ok auth
  | _ ↦ err (refused decision.reason)
]

module _ {Network : Type 0} where
  -- The approval that the action names, which must be there.
  unfoldable pub find_approval :
      Option String → Database Network → Executes (Option (Stored Approval))
  find_approval none db = ok none
  find_approval (some id) db = elim (lookup id db.approvals) [
    | none ↦ err (refused "approval_record_missing")
    | some row ↦ ok (some row)
  ]

  -- The engagement and its scope, which must both be there.
  unfoldable pub find_engagement :
      String → Database Network → Executes (Engagement × EngagementScope Network)
  find_engagement id db = do
    engagement ← or_refuse (lookup id db.engagements) "engagement_or_scope_not_found"
    scope ← or_refuse (lookup id db.scopes) "engagement_or_scope_not_found"
    ok (engagement.entity, scope)

  -- The part of `begin_execution` that consumes the approval.
  unfoldable pub consume_bound :
      Option (Stored Approval) → Action → Time → Database Network → Executes (Database Network)
  consume_bound none a at db = ok db
  consume_bound (some p) a at db = do
    consumed ← of_domain (consume_approval p.entity a at)
    saved ← of_store (save_approval consumed p.version db)
    ok saved.1

  -- `now` is what `utc_now()` would read; it is not used, since `at` is given.
  unfoldable pub begin_execution :
      ExecutionAuthorization → Time → Database Network → Executes (Stored Action × Database Network)
  begin_execution auth at db = do
    running ← of_domain (transition_action auth.action.entity ActionState.running none (some at) at)
    saved ← of_store (save_action running auth.action.version db)
    after ← consume_bound auth.approval auth.action.entity at saved.1
    ok (saved.0, after)

  -- The part of `begin_execution` that writes the action.
  unfoldable pub write_running :
      ExecutionAuthorization → Time → Database Network → Executes (Stored Action × Database Network)
  write_running auth at db = do
    running ← of_domain (transition_action auth.action.entity ActionState.running none (some at) at)
    of_store (save_action running auth.action.version db)

  -- What the session holds where `begin_execution` has raised: the action is written before the
  -- approval is consumed.
  unfoldable pub begin_left : ExecutionAuthorization → Time → Database Network → Database Network
  unfolding write_running
  begin_left auth at db = elim (write_running auth at db) [ ok saved ↦ saved.1 | err e ↦ db ]

module _ (unicode : Unicode) (ip : IpLibrary)
    (normalize_target : String → Raises NormalizedTarget) where
  open ip use {Network}

  unfoldable pub authorize_queued_action :
      Stored Action → Time → Database Network → Executes ExecutionAuthorization
  unfolding ActionState-discrete
  authorize_queued_action stored at db = do
    let a = stored.entity
    raise_if (not (a.state == ActionState.queued)) (refused "action_not_queued")
    found ← find_engagement a.engagement_id db
    approval ← find_approval a.approval_id db
    decision ← of_domain (
        decide_action unicode ip normalize_target a found.1 (config_of found.0) at
          (entity_of approval))
    if_allowed decision (record { action = stored; approval = approval; decision = decision })
