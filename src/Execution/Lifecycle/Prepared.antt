-- ===== src/Execution/Lifecycle/Prepared.antt =====
-- What `start` of execution/lifecycle.py has checked before it calls the manager.
use vuln_proof_claw.Common.{
  ℕ, list_eq, nat_eq, Bool, true, false, not, ◌≡◌, refl, ap, ◌∙◌, sym, subst, Option, none, some,
  String, is_some, lookup, string_eq, option_eq, eq_iff, arith,
}
use vuln_proof_claw.Common.Unicode.{Unicode}
use vuln_proof_claw.Common.Results.{ok, err, raise_if, >>=-eq-ok}
use vuln_proof_claw.Domain.Enums.{risk_level_eq}
use vuln_proof_claw.Domain.Errors.{Time, Raises}
use vuln_proof_claw.Domain.Models.{Action}
use vuln_proof_claw.Policy.Scope.{IpLibrary, NormalizedTarget, EngagementScope}
use vuln_proof_claw.Persistence.{Stored, Database}
use vuln_proof_claw.Execution.Authorization.{
  Executes, ExecutionAuthorization, authorize_queued_action, refused, domain, store,
}
use vuln_proof_claw.Execution.Authorization.Recheck.{Rechecked, authorize_queued_action-Rechecked}
use vuln_proof_claw.Execution.Protocol.{WorkerRequest, WorkerScope, is_same_scope, Validates}
use vuln_proof_claw.Execution.Registry.{get_for_action, get_for_request}
use vuln_proof_claw.Execution.Lifecycle.{Ledger, lifecycle, protocol, or_lifecycle, raised_as}
use vuln_proof_claw.Execution.Lifecycle.Closed.{raised_as-ok, or_lifecycle-ok, raise_if-ok}
use vuln_proof_claw.Execution.Lifecycle.Start.{executes_as, is_bound_to, verify_request, prepare}

-- The request is of this action, in every field that both have.
pub record IsOf {Cpu : Type 0} (r : WorkerRequest Cpu) (a : Action) : Type 0 where
  pub engagement_id : r.engagement_id ≡ a.engagement_id
  pub action_id : r.action_id ≡ a.id
  pub action_type : r.action_type ≡ a.action_type
  pub normalized_target : r.normalized_target ≡ a.normalized_target
  pub parameter_digest : r.parameter_digest ≡ a.parameter_digest
  pub risk_level : r.risk_level ≡ a.risk_level
  pub approval_id : r.approval_id ≡ a.approval_id
  pub idempotency_key : r.idempotency_key ≡ a.idempotency_key

is_bound_to-IsOf :
    {Cpu : Type 0} (r : WorkerRequest Cpu) (a : Action) → is_bound_to r a ≡ true → IsOf r a
unfolding is_bound_to
is_bound_to-IsOf r a h = record {
  engagement_id = (eq_iff r.engagement_id a.engagement_id).0 (ground arith);
  action_id = (eq_iff r.action_id a.id).0 (ground arith);
  action_type = (eq_iff r.action_type a.action_type).0 (ground arith);
  normalized_target = (eq_iff r.normalized_target a.normalized_target).0 (ground arith);
  parameter_digest = (eq_iff r.parameter_digest a.parameter_digest).0 (ground arith);
  risk_level = (risk_level_eq.beq_iff r.risk_level a.risk_level).0 (ground arith);
  approval_id = ((option_eq {A = String}).beq_iff r.approval_id a.approval_id).0 (ground arith);
  idempotency_key = (eq_iff r.idempotency_key a.idempotency_key).0 (ground arith);
}

is_same_scope-eq : (a b : WorkerScope) → is_same_scope a b ≡ true → a ≡ b
unfolding is_same_scope
is_same_scope-eq a b h =
    let names = (list_eq {A = String}).beq_iff in
    let ports = (list_eq {A = ℕ}).beq_iff in
    cc (
      (names a.allowed_hostnames b.allowed_hostnames).0 (ground arith),
      (names a.allowed_cidrs b.allowed_cidrs).0 (ground arith),
      (ports a.allowed_ports b.allowed_ports).0 (ground arith),
      (names a.allowed_schemes b.allowed_schemes).0 (ground arith),
      (names a.allowed_paths b.allowed_paths).0 (ground arith),
      (names a.denied_hostnames b.denied_hostnames).0 (ground arith),
      (names a.denied_cidrs b.denied_cidrs).0 (ground arith),
      (names a.denied_paths b.denied_paths).0 (ground arith),
      (names a.allowed_wildcards b.allowed_wildcards).0 (ground arith),
      (names a.denied_wildcards b.denied_wildcards).0 (ground arith),
    )

not-true : (b : Bool) → not b ≡ false → b ≡ true
not-true b h = ground arith

is_some-none : {A : Type 0} (o : Option A) → is_some o ≡ false → o ≡ none
is_some-none none h = refl
is_some-none (some a) h = cc

executes_as-ok : {A : Type 0} (x : Executes A) {a : A} → executes_as x ≡ ok a → x ≡ ok a
executes_as-ok (ok a) h = ground arith
executes_as-ok (err (refused reason)) h = cc
executes_as-ok (err (domain e)) h = cc
executes_as-ok (err (store e)) h = cc

module _ (unicode : Unicode) (ip : IpLibrary) (normalize_target : String → Raises NormalizedTarget)
    (worker_scope : EngagementScope ip.Network → Validates WorkerScope) {Cpu : Type 0}
    (r : WorkerRequest Cpu) where
  open ip use {Network}

  -- What the checks before the first call of the manager have found.
  pub record Prepared (at : Time) (l : Ledger Network) (auth : ExecutionAuthorization)
      : Type 0 where
    pub read : lookup r.action_id l.database.actions ≡ some auth.action
    pub bound : IsOf r auth.action.entity
    pub scope : EngagementScope Network
    pub scope_row : lookup auth.action.entity.engagement_id l.database.scopes ≡ some scope
    pub same_scope : worker_scope scope ≡ ok r.scope
    pub rechecked : Rechecked unicode ip normalize_target auth.action at l.database auth
    pub new_action : get_for_action r.action_id l.executions ≡ none
    pub new_request : get_for_request r.request_id l.executions ≡ none

  verify_request-ok :
      (a : Action) (db : Database Network)
      → verify_request worker_scope r a db ≡ ok tt
      → IsOf r a
        × (scope : EngagementScope Network) × (lookup a.engagement_id db.scopes ≡ some scope)
        × (worker_scope scope ≡ ok r.scope)
  unfolding verify_request
  verify_request-ok a db h =
      let (_, bound, h1) =
        >>=-eq-ok
          (raise_if (not (is_bound_to r a)) (lifecycle "worker_request_action_binding_mismatch")) _
          h in
      let (scope, found, h2) =
        >>=-eq-ok (or_lifecycle (lookup a.engagement_id db.scopes) "scope_not_found") _ h1 in
      let (expected, given, h3) = >>=-eq-ok (raised_as protocol (worker_scope scope)) _ h2 in
      let same =
        is_same_scope-eq r.scope expected
          (not-true (is_same_scope r.scope expected) (raise_if-ok _ _ h3)) in
      (
        is_bound_to-IsOf r a (not-true (is_bound_to r a) (raise_if-ok _ _ bound)),
        scope,
        or_lifecycle-ok _ _ found,
        raised_as-ok protocol _ given ∙ ap ok (sym same),
      )

  pub prepare-Prepared :
      (at : Time) (l : Ledger Network) {auth : ExecutionAuthorization}
      → prepare unicode ip normalize_target worker_scope r at l ≡ ok auth
      → Prepared at l auth
  unfolding prepare
  prepare-Prepared at l {auth} h =
      let (stored, found, h1) =
        >>=-eq-ok (or_lifecycle (lookup r.action_id l.database.actions) "action_not_found") _ h in
      let (_, verified, h2) =
        >>=-eq-ok (verify_request worker_scope r stored.entity l.database) _ h1 in
      let (given, authorized, h3) =
        >>=-eq-ok
          (executes_as (authorize_queued_action unicode ip normalize_target stored at l.database)) _
          h2 in
      let (_, free_action, h4) =
        >>=-eq-ok
          (raise_if (is_some (get_for_action r.action_id l.executions))
            (lifecycle "worker_execution_already_registered"))
          _ h3 in
      let (_, free_request, made) =
        >>=-eq-ok
          (raise_if (is_some (get_for_request r.request_id l.executions))
            (lifecycle "worker_request_already_registered"))
          _ h4 in
      let same : given ≡ auth = ground arith in
      let rechecked =
        authorize_queued_action-Rechecked unicode ip normalize_target stored at l.database
          {auth = auth} (executes_as-ok _ authorized ∙ ap ok same) in
      let (bound, scope, scope_row, same_scope) =
        verify_request-ok stored.entity l.database verified in
      let is_it : stored ≡ auth.action = sym rechecked.action in
      record {
        read = or_lifecycle-ok _ _ found ∙ ap some is_it;
        bound = subst (λ (x : Stored Action). IsOf r x.entity) is_it bound;
        scope = scope;
        scope_row =
            ap (λ (x : Stored Action). lookup x.entity.engagement_id l.database.scopes) (sym is_it)
            ∙ scope_row;
        same_scope = same_scope;
        rechecked =
            subst (λ x. Rechecked unicode ip normalize_target x at l.database auth) is_it rechecked;
        new_action = is_some-none _ (raise_if-ok _ _ free_action);
        new_request = is_some-none _ (raise_if-ok _ _ free_request);
      }
