-- ===== src/Execution/Janitor/Restart.antt =====
-- `recover_runtime_after_restart` of execution/janitor.py: what was in flight is given up, and then the
-- runtime's resources are swept.
use vuln_proof_claw.Common.{ℕ, List, []}
use vuln_proof_claw.Common.Results.{ok, ◌>>=◌}
use vuln_proof_claw.Domain.Errors.{Time}
use vuln_proof_claw.Execution.Registry.{WorkerExecution}
use vuln_proof_claw.Execution.Lifecycle.{Ledger, Coordinates}
use vuln_proof_claw.Execution.Lifecycle.Recovery.{reconcile_after_restart}
use vuln_proof_claw.Execution.Janitor.{RuntimeResource, JanitorOutcome, Surroundings, Sweep, sweep}

pub record RuntimeRecovery (Network : Type 0) : Type 0 where
  pub reconciled : List WorkerExecution
  pub ledger : Ledger Network
  pub swept : Sweep
  pub outcomes : List JanitorOutcome

-- The sweep goes on with the rows and the events of the reconciliation; the ledger's actions and
-- evidence are its own.
unfoldable pub recover_runtime_after_restart :
    {Network : Type 0}
    → Surroundings
    → ℕ
    → List RuntimeResource
    → Time
    → Ledger Network
    → Coordinates (RuntimeRecovery Network)
recover_runtime_after_restart env grace_period resources at l = do
  reconciled ← reconcile_after_restart at l
  let x =
      sweep env grace_period at resources
        (record { rows = reconciled.1.executions; audit = reconciled.1.audit; calls = [] })
  ok (record { reconciled = reconciled.0; ledger = reconciled.1; swept = x.0; outcomes = x.1 })
