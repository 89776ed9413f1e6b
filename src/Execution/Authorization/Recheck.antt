-- ===== src/Execution/Authorization/Recheck.antt =====
-- What `authorize_queued_action` has found in the database when it authorizes an action.
use vuln_proof_claw.Common.{
  not, ◌≡◌, refl, inl, inr, Option, none, some, arith, lookup, string_eq, String, ◌==◌, ap, ◌∙◌,
  sym, subst, Option-cases,
}
use vuln_proof_claw.Common.Unicode.{Unicode}
use vuln_proof_claw.Common.Results.{ok, raise_if, >>=-eq-ok}
use vuln_proof_claw.Domain.Enums.{ActionState, ActionState-discrete, action_state_eq}
use vuln_proof_claw.Domain.Errors.{Time, Raises}
use vuln_proof_claw.Domain.Models.{Action, Approval, Engagement}
use vuln_proof_claw.Policy.Decision.{DecisionKind, PolicyDecision, decide_action}
use vuln_proof_claw.Policy.Decision.Allow.{Grounds, decide_action-Grounds}
use vuln_proof_claw.Policy.Scope.{IpLibrary, NormalizedTarget, EngagementScope}
use vuln_proof_claw.Persistence.{Stored, Database}
use vuln_proof_claw.Execution.Authorization.{
  ExecutionAuthorization, refused, of_domain, or_refuse, config_of, entity_of, if_allowed,
  find_approval, find_engagement, authorize_queued_action,
}
use vuln_proof_claw.Execution.Authorization.Begin.{of_domain-ok}

or_refuse-ok :
    {A : Type 0} (o : Option A) (reason : String) {a : A} → or_refuse o reason ≡ ok a → o ≡ some a
or_refuse-ok (some a) reason h = ground arith
or_refuse-ok none reason h = cc

if_allowed-ok :
    (d : PolicyDecision) (auth : ExecutionAuthorization) {out : ExecutionAuthorization}
    → if_allowed d auth ≡ ok out
    → (d.kind ≡ DecisionKind.allow) × (out ≡ auth)
if_allowed-ok d auth h = ground arith

state_queued :
    (a : Action)
    → raise_if (not (a.state == ActionState.queued)) (refused "action_not_queued") ≡ ok tt
    → a.state ≡ ActionState.queued
unfolding ActionState-discrete
state_queued a h = ground arith

-- The approval that an action names is the row of that name; an action that names none has none.
abbrev pub IsNamed :
    {Network : Type 0} → Option String → Option (Stored Approval) → Database Network → Type 0
IsNamed none approval db = approval ≡ none
IsNamed (some id) approval db =
    (row : Stored Approval) × (lookup id db.approvals ≡ some row) × (approval ≡ some row)

find_approval-IsNamed :
    {Network : Type 0} (named : Option String) (db : Database Network)
    {approval : Option (Stored Approval)}
    → find_approval named db ≡ ok approval
    → IsNamed named approval db
unfolding find_approval
find_approval-IsNamed none db h = ground arith
find_approval-IsNamed (some id) db h = elim (Option-cases (lookup id db.approvals)) [
  | inl missing ↦ ground arith
  | inr (row, found) ↦ (row, found, ground arith)
]

module _ (unicode : Unicode) (ip : IpLibrary)
    (normalize_target : String → Raises NormalizedTarget) where
  open ip use {Network}

  -- The action is queued; its engagement, the scope and the approval that it names are rows of the
  -- database; and on these the decision rests on all its grounds.
  pub record Rechecked (stored : Stored Action) (at : Time) (db : Database Network)
      (auth : ExecutionAuthorization) : Type 0 where
    pub engagement : Stored Engagement
    pub scope : EngagementScope Network
    pub queued : stored.entity.state ≡ ActionState.queued
    pub engagement_row : lookup stored.entity.engagement_id db.engagements ≡ some engagement
    pub scope_row : lookup stored.entity.engagement_id db.scopes ≡ some scope
    pub action : auth.action ≡ stored
    pub approval : IsNamed stored.entity.approval_id auth.approval db
    pub grounds :
        Grounds unicode ip normalize_target stored.entity scope
          (config_of engagement.entity)
          at
          (entity_of auth.approval)
          auth.decision

  -- The rows of an engagement and of its scope.
  find_engagement-rows :
      (id : String) (db : Database Network) {e : Engagement} {s : EngagementScope Network}
      → find_engagement id db ≡ ok (e, s)
      → (row : Stored Engagement) × (lookup id db.engagements ≡ some row)
        × (lookup id db.scopes ≡ some s)
        × (row.entity ≡ e)
  unfolding find_engagement
  find_engagement-rows id db h =
      let (row, found, h1) = >>=-eq-ok (or_refuse (lookup id db.engagements) _) _ h in
      let (scope, scope_found, made) = >>=-eq-ok (or_refuse (lookup id db.scopes) _) _ h1 in
      (
        row,
        or_refuse-ok _ _ found,
        or_refuse-ok _ _ scope_found ∙ ap some (ground arith),
        ground arith,
      )

  rechecked :
      (stored : Stored Action) (at : Time) (db : Database Network)
      (found : Engagement × EngagementScope Network) (approval : Option (Stored Approval))
      (d : PolicyDecision) {auth : ExecutionAuthorization}
      → stored.entity.state ≡ ActionState.queued
      → find_engagement stored.entity.engagement_id db ≡ ok found
      → find_approval stored.entity.approval_id db ≡ ok approval
      → decide_action unicode ip normalize_target stored.entity found.1
          (config_of found.0)
          at
          (entity_of approval)
        ≡ ok d
      → d.kind ≡ DecisionKind.allow
      → auth ≡ record { action = stored; approval = approval; decision = d }
      → Rechecked stored at db auth
  rechecked stored at db found approval d {auth} queued e p decided allowed made =
      let (row, engagement_found, scope_found, same) =
        find_engagement-rows stored.entity.engagement_id db {e = found.0} {s = found.1} e in
      let grounds =
        (decide_action-Grounds unicode ip normalize_target stored.entity found.1 (config_of found.0)
            at (entity_of approval) {d = d} decided).0
          allowed in
      subst (Rechecked stored at db) (sym made) (record {
        engagement = row;
        scope = found.1;
        queued = queued;
        engagement_row = engagement_found;
        scope_row = scope_found;
        action = refl;
        approval = find_approval-IsNamed stored.entity.approval_id db p;
        grounds =
            subst
              (λ (x : Engagement).
                Grounds unicode ip normalize_target stored.entity found.1 (config_of x) at
                  (entity_of approval) d)
              (sym same) grounds;
      })

  -- Where `authorize_queued_action` gives an authorization, it is for the action as it was read, which
  -- is queued; the engagement, the scope and the approval that the action names are read from the
  -- database as it is now; and the decision rests on all of `Grounds` at the given time.
  pub authorize_queued_action-Rechecked :
      (stored : Stored Action) (at : Time) (db : Database Network) {auth : ExecutionAuthorization}
      → authorize_queued_action unicode ip normalize_target stored at db ≡ ok auth
      → Rechecked stored at db auth
  unfolding authorize_queued_action
  authorize_queued_action-Rechecked stored at db {auth} h =
      let a = stored.entity in
      let (_, tested, h1) =
        >>=-eq-ok (raise_if (not (a.state == ActionState.queued)) (refused "action_not_queued")) _
          h in
      let (found, e, h2) = >>=-eq-ok (find_engagement a.engagement_id db) _ h1 in
      let (approval, p, h3) = >>=-eq-ok (find_approval a.approval_id db) _ h2 in
      let (d, decided, h4) =
        >>=-eq-ok
          (of_domain (
            decide_action unicode ip normalize_target a found.1 (config_of found.0) at
              (entity_of approval)))
          _ h3 in
      let (allowed, made) = if_allowed-ok d _ h4 in
      rechecked stored at db found approval d {auth = auth} (state_queued a tested) e p
        (of_domain-ok _ decided) allowed made
