-- ===== src/Execution/Lifecycle/Unspent.antt =====
-- What the session of `start` of execution/lifecycle.py holds of the approvals where it raises.
use vuln_proof_claw.Common.{
  ℕ, ◌∙◌, none, some, ◌≡◌, refl, ap, sym, string_eq, option_eq, inl, inr, Option-cases,
}
use vuln_proof_claw.Common.Results.{ok, err, ok_inj, result_cases, >>=-eq-ok}
use vuln_proof_claw.Domain.Enums.{risk_level_eq}
use vuln_proof_claw.Domain.Errors.{Time}
use vuln_proof_claw.Domain.Models.{Action}
use vuln_proof_claw.Domain.Enums.{ActionState}
use vuln_proof_claw.Domain.ActionState.{transition_action}
use vuln_proof_claw.Persistence.{Stored, Database, save_action, find_version}
use vuln_proof_claw.Execution.Authorization.{
  ExecutionError, ExecutionAuthorization, begin_left, write_running, of_domain, refused, domain,
  store,
}
use vuln_proof_claw.Execution.Manager.{WorkerHandle}
use vuln_proof_claw.Execution.Lifecycle.{Ledger, Coordinates}
use vuln_proof_claw.Execution.Lifecycle.Start.{Ended, then_write, executes_as}

-- No value was given back.
abbrev pub Raised : Coordinates WorkerHandle → Type 0
Raised (ok x) = ⊥
Raised (err e) = Unit

pub executes_as-Raised : (e : ExecutionError) → Raised (executes_as (err e))
executes_as-Raised (refused reason) = tt
executes_as-Raised (domain e) = tt
executes_as-Raised (store e) = tt

-- `start` raised, and the approvals are those of the database.
abbrev pub Unspent : {Network : Type 0} → Database Network → Ended Network → Type 0
Unspent db x = Raised x.1 × (x.0.database.approvals ≡ db.approvals)

pub then_write-Unspent :
    {Network A : Type 0} (db : Database Network) (l : Ledger Network) (written : Coordinates A)
    (after : A → Ended Network)
    → l.database.approvals ≡ db.approvals
    → ((a : A) → written ≡ ok a → Unspent db (after a))
    → Unspent db (then_write l written after)
then_write-Unspent db l (err e) after same h = (tt, same)
then_write-Unspent db l (ok a) after same h = h a refl

save_action-approvals :
    {Network : Type 0} (a : Action) (expected : ℕ) (db : Database Network)
    {saved : Stored Action × Database Network}
    → save_action a expected db ≡ ok saved
    → saved.1.approvals ≡ db.approvals
unfolding save_action
save_action-approvals a expected db {saved} h =
    elim (Option-cases (find_version a.id expected db.actions)) [
      | inl stale ↦ cc (rw (stale, save_action) at h)
      | inr (row, found) ↦
          let written = ok_inj (rw (found, save_action) at h) in
          ap (λ (x : Stored Action × _). x.1.approvals) (sym written)
    ]

write_running-approvals :
    {Network : Type 0} (auth : ExecutionAuthorization) (at : Time) (db : Database Network)
    {saved : Stored Action × Database Network}
    → write_running auth at db ≡ ok saved
    → saved.1.approvals ≡ db.approvals
unfolding write_running
write_running-approvals auth at db {saved} h =
    let (running, _, h1) =
      >>=-eq-ok
        (of_domain (transition_action auth.action.entity ActionState.running none (some at) at)) _
        h in
    elim (result_cases (save_action running auth.action.version db)) [
      | inr (e, failed) ↦ cc (rw failed at h1)
      | inl (x, written) ↦
          let same = ok_inj (rw written at h1) in
          ap (λ (y : Stored Action × Database _). y.1.approvals) (sym same)
          ∙ save_action-approvals running auth.action.version db written
    ]

pub begin_left-approvals :
    {Network : Type 0} (auth : ExecutionAuthorization) (at : Time) (db : Database Network)
    → (begin_left auth at db).approvals ≡ db.approvals
unfolding begin_left
begin_left-approvals auth at db = elim (result_cases (write_running auth at db)) [
  | inr (e, failed) ↦ rw (failed, begin_left) refl
  | inl (saved, written) ↦ rw (written, begin_left) (write_running-approvals auth at db written)
]
