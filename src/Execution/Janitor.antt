-- ===== src/Execution/Janitor.antt =====
-- execution/janitor.py: OrphanRuntimeJanitor. What the runtime's `destroy` does for each reference, and
-- what other sessions write into the registry while it is awaited, are arguments.
pub mod Calls
pub mod Live
pub mod Spared
pub mod Restart
pub mod Landed
use vuln_proof_claw.Common.{
  ℕ, ◌+◌, Bool, true, false, not, Option, none, some, List, [], ◌∷◌, String, ◌==◌, ltb, leb, max,
  lookup, contains, is_some, if◌then◌else◌, str_leb, sort_by, nat_eq, string_eq,
}
use vuln_proof_claw.Common.Results.{Result, ok, err}
use vuln_proof_claw.Domain.Enums.{worker_terminal}
use vuln_proof_claw.Domain.Errors.{Time}
use vuln_proof_claw.Persistence.{Stored, StoreError}
use vuln_proof_claw.Execution.Audit.{AuditEvent, text, worker_state_value, record_audit_event}
use vuln_proof_claw.Execution.Registry.{WorkerExecution, Rows, get_for_request, save_execution}

-- RuntimeResource of execution/manager.py
pub record RuntimeResource : Type 0 where
  pub worker_id : String
  pub request_id : String
  pub created_at : Time
  pub reference : String

pub data JanitorStatus : Type 0 where
  destroyed skipped failed : JanitorStatus

pub record JanitorOutcome : Type 0 where
  pub worker_id : String
  pub request_id : String
  pub status : JanitorStatus
  pub reason : String

-- The runtime, and what others write into the registry while a reference is destroyed.
pub record Surroundings : Type 0 where
  pub identity : String
  pub destroys : String → Bool
  pub meanwhile : String → Rows → Rows

-- What a sweep reads and writes; `calls` are the references given to `destroy`, the latest first.
pub record Sweep : Type 0 where
  pub rows : Rows
  pub audit : List AuditEvent
  pub calls : List String

abbrev pub outcome : RuntimeResource → JanitorStatus → String → JanitorOutcome
outcome resource status reason = record {
  worker_id = resource.worker_id;
  request_id = resource.request_id;
  status = status;
  reason = reason;
}

-- `_audit`
unfoldable pub audit_sweep : Surroundings → WorkerExecution → String → String → Time → Sweep → Sweep
audit_sweep env e event_type reason at s = record s {
  audit =
      record_audit_event e.engagement_id event_type "system:runtime-janitor"
        (("worker_id", text e.id)
          ∷ ("request_id", text e.request_id)
          ∷ ("runtime_identity", text env.identity)
          ∷ ("worker_state", text (worker_state_value e.state))
          ∷ ("reason", text reason)
          ∷ [])
        at s.audit;
}

-- `_audit`, if there is an execution to name.
unfoldable pub audit_optional :
    Surroundings → Option (Stored WorkerExecution) → String → String → Time → Sweep → Sweep
audit_optional env none event_type reason at s = s
audit_optional env (some row) event_type reason at s =
    audit_sweep env row.entity event_type reason at s

-- `await self._runtime.destroy(reference)`
abbrev pub call_destroy : Surroundings → String → Sweep → Sweep
call_destroy env reference s = record s {
  rows = env.meanwhile reference s.rows;
  calls = reference ∷ s.calls;
}

-- The execution that `replace` gives, with the resource gone.
abbrev pub marked : WorkerExecution → Time → WorkerExecution
marked e at = record e { cleaned_up = true; updated_at = max at e.updated_at }

-- The end of `_destroy_bound`, by how the save went.
unfoldable pub after_save :
    Surroundings
    → RuntimeResource
    → WorkerExecution
    → String
    → Time
    → Sweep
    → Result StoreError (Stored WorkerExecution × Rows)
    → Sweep × JanitorOutcome
unfolding audit_sweep
after_save env resource e reason at s (err _) = (
  audit_sweep env e "worker.janitor_registry_update_failed" "registry_update_conflict" at s,
  outcome resource JanitorStatus.destroyed "registry_update_conflict",
)
after_save env resource e reason at s (ok (saved, rows)) = (
  audit_sweep env saved.entity "worker.janitor_destroyed" reason at (record s { rows = rows }),
  outcome resource JanitorStatus.destroyed reason,
)

-- `_destroy_bound`
unfoldable pub destroy_bound :
    Surroundings
    → RuntimeResource
    → Stored WorkerExecution
    → String
    → Time
    → Sweep
    → Sweep × JanitorOutcome
unfolding audit_sweep after_save
destroy_bound env resource stored reason at s =
    let called = call_destroy env resource.reference s in
    if not (env.destroys resource.reference)
    then (
      audit_sweep env stored.entity "worker.janitor_cleanup_failed" "cleanup_failed" at called,
      outcome resource JanitorStatus.failed "cleanup_failed",
    )
    else if stored.entity.cleaned_up
    then (
      audit_sweep env stored.entity "worker.janitor_destroyed" reason at called,
      outcome resource JanitorStatus.destroyed reason,
    )
    else after_save env resource stored.entity reason at called
        (save_execution (marked stored.entity at) stored.version called.rows)

-- `_destroy_unbound`
unfoldable pub destroy_unbound :
    Surroundings
    → RuntimeResource
    → String
    → Option (Stored WorkerExecution)
    → Time
    → Sweep
    → Sweep × JanitorOutcome
unfolding audit_optional
destroy_unbound env resource reason row at s =
    let called = call_destroy env resource.reference s in
    if not (env.destroys resource.reference)
    then (
      audit_optional env row "worker.janitor_cleanup_failed" "cleanup_failed" at called,
      outcome resource JanitorStatus.failed "cleanup_failed",
    )
    else (
      audit_optional env row "worker.janitor_destroyed" reason at called,
      outcome resource JanitorStatus.destroyed reason,
    )

-- `_inspect_unbound`, with `_past_grace_period`
unfoldable pub inspect_unbound :
    Surroundings
    → ℕ
    → RuntimeResource
    → String
    → Option (Stored WorkerExecution)
    → Time
    → Sweep
    → Sweep × JanitorOutcome
unfolding destroy_unbound
inspect_unbound env grace_period resource reason row at s =
    if leb (resource.created_at + grace_period) at
    then destroy_unbound env resource reason row at s
    else (s, outcome resource JanitorStatus.skipped "grace_period")

-- `_bound_execution`
unfoldable pub bound_execution :
    Option (Stored WorkerExecution)
    → Option (Stored WorkerExecution)
    → Option (Stored WorkerExecution)
bound_execution none by_request = none
bound_execution (some row) none = none
bound_execution (some row) (some other) =
    if row.entity.id == other.entity.id then some row else none

-- `_inspect` of a resource that is bound to an execution.
unfoldable pub inspect_bound :
    Surroundings
    → ℕ
    → RuntimeResource
    → Stored WorkerExecution
    → Time
    → Sweep
    → Sweep × JanitorOutcome
unfolding inspect_unbound destroy_bound
inspect_bound env grace_period resource stored at s =
    if not (stored.entity.runtime_identity == env.identity)
    then inspect_unbound env grace_period resource "runtime_identity_mismatch" (some stored) at s
    else if not (worker_terminal stored.entity.state)
    then (s, outcome resource JanitorStatus.skipped "in_flight")
    else destroy_bound env resource stored
        (if stored.entity.cleaned_up then "stale_registry_claim" else "terminal_registry") at s

-- `_inspect`, by what the registry holds.
unfoldable pub inspect_found :
    Surroundings
    → ℕ
    → RuntimeResource
    → Option (Stored WorkerExecution)
    → Option (Stored WorkerExecution)
    → Option (Stored WorkerExecution)
    → Time
    → Sweep
    → Sweep × JanitorOutcome
unfolding inspect_bound
inspect_found env grace_period resource (some stored) by_id by_request at s =
    inspect_bound env grace_period resource stored at s
inspect_found env grace_period resource none by_id by_request at s =
    inspect_unbound env grace_period resource
      (if is_some by_id
        then "registry_binding_mismatch"
        else if is_some by_request
        then "registry_binding_mismatch"
        else "registry_missing")
      by_id at s

unfoldable pub inspect : Surroundings → ℕ → RuntimeResource → Time → Sweep → Sweep × JanitorOutcome
unfolding inspect_found
inspect env grace_period resource at s =
    let by_id = lookup resource.worker_id s.rows in
    let by_request = get_for_request resource.request_id s.rows in
    inspect_found env grace_period resource (bound_execution by_id by_request) by_id by_request at s

-- `a <= b` on the keys `(created_at, worker_id, request_id)`.
unfoldable pub resource_leb : RuntimeResource → RuntimeResource → Bool
resource_leb a b =
    if not (a.created_at == b.created_at)
    then ltb a.created_at b.created_at
    else if not (a.worker_id == b.worker_id)
    then str_leb a.worker_id b.worker_id
    else str_leb a.request_id b.request_id

-- The loop of `sweep`, over the references that were seen.
unfoldable pub sweep_from :
    Surroundings
    → ℕ
    → Time
    → List String
    → List RuntimeResource
    → Sweep
    → Sweep × List JanitorOutcome
sweep_from env grace_period at seen [] s = (s, [])
sweep_from env grace_period at seen (resource ∷ resources) s =
    let known = contains seen resource.reference in
    let x : Sweep × JanitorOutcome =
      if known
      then (s, outcome resource JanitorStatus.skipped "duplicate_reference")
      else inspect env grace_period resource at s in
    let rest =
      sweep_from env grace_period at (if known then seen else resource.reference ∷ seen) resources
        x.0 in
    (rest.0, x.1 ∷ rest.1)

-- `sweep`, of the resources that the runtime lists, at the time that the clock gives first.
unfoldable pub sweep :
    Surroundings → ℕ → Time → List RuntimeResource → Sweep → Sweep × List JanitorOutcome
unfolding sweep_from sort_by resource_leb
sweep env grace_period at resources s =
    sweep_from env grace_period at [] (sort_by resource_leb resources) s
