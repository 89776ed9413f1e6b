-- ===== src/Execution/Lifecycle/Launch.antt =====
-- When `start` of execution/lifecycle.py tells a worker to run.
use vuln_proof_claw.Common.{◌≡◌, List, [], ◌∷◌, String, string_eq, option_eq, ◌⊎◌}
use vuln_proof_claw.Common.Unicode.{Unicode}
use vuln_proof_claw.Common.Results.{ok}
use vuln_proof_claw.Domain.Enums.{risk_level_eq}
use vuln_proof_claw.Domain.Errors.{Time, Raises}
use vuln_proof_claw.Domain.Models.{Action}
use vuln_proof_claw.Policy.Scope.{IpLibrary, NormalizedTarget, EngagementScope}
use vuln_proof_claw.Persistence.{Stored, Database}
use vuln_proof_claw.Execution.Authorization.{ExecutionAuthorization}
use vuln_proof_claw.Execution.Authorization.Begin.{Begun}
use vuln_proof_claw.Execution.Protocol.{WorkerRequest, WorkerScope, Validates}
use vuln_proof_claw.Execution.Manager.{WorkerHandle}
use vuln_proof_claw.Execution.Lifecycle.{
  Ledger, LifecycleError, lifecycle, protocol, or_lifecycle, audit,
}
use vuln_proof_claw.Execution.Lifecycle as L
use vuln_proof_claw.Execution.Lifecycle.Start.{
  ManagerCall, to_submit, to_cancel, to_start, to_status, ManagerAnswers, Run,
}
use vuln_proof_claw.Execution.Lifecycle.Prepared.{Prepared}
use vuln_proof_claw.Execution.Lifecycle.Unspent.{Raised, Unspent}

-- The worker was told to run: what the calls are, and what the execution of the action began on.
pub record Told {Network : Type 0} (auth : ExecutionAuthorization) (at : Time)
    (db : Database Network) (h : WorkerHandle) (calls : List ManagerCall) : Type 0 where
  pub running : Stored Action
  pub after : Database Network
  pub begun : Begun auth at db running after
  pub told :
      (calls ≡ to_submit ∷ to_start h.worker_id ∷ [])
      ⊎ (calls ≡ to_submit ∷ to_start h.worker_id ∷ to_status h.worker_id ∷ [])

-- The worker that was created was cancelled, and `start` raised with no approval consumed.
abbrev pub IsCancelled : {Network : Type 0} → Database Network → WorkerHandle → Run Network → Type 0
IsCancelled db h x = (x.calls ≡ to_submit ∷ to_cancel h.worker_id ∷ []) × Unspent db x.ended

module _ (unicode : Unicode) (ip : IpLibrary) (normalize_target : String → Raises NormalizedTarget)
    (worker_scope : EngagementScope ip.Network → Validates WorkerScope) {Cpu : Type 0}
    (r : WorkerRequest Cpu) where
  open ip use {Network}

  -- What a run of `start` is: it raised before any call, and nothing was written; or no worker was created,
  -- and only other sessions wrote; or the worker that was created was cancelled, with no approval
  -- consumed; or it was told to run, with the checks made before and the execution begun.
  abbrev pub Course :
      ManagerAnswers
      → (Ledger Network → Ledger Network)
      → Time
      → Ledger Network
      → Run Network
      → Type 0
  Course answers meanwhile at l x =
      ((x.calls ≡ []) × Raised x.ended.1 × (x.ended.0 ≡ l))
      ⊎ ((x.calls ≡ to_submit ∷ []) × Raised x.ended.1 × (x.ended.0 ≡ meanwhile l))
      ⊎ (h : WorkerHandle) × (auth : ExecutionAuthorization) × (answers.submits ≡ ok h)
        × Prepared unicode ip normalize_target worker_scope r at l auth
        × (IsCancelled (meanwhile l).database h x ⊎ Told auth at (meanwhile l).database h x.calls)
