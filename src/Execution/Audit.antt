-- ===== src/Execution/Audit.antt =====
-- audit.py: the events that services append. A payload is kept as it is given to the canonical encoding.
use vuln_proof_claw.Common.{Bool, Option, none, some, List, [], ◌∷◌, ◌++◌, String}
use vuln_proof_claw.Domain.Enums.{WorkerState}
use vuln_proof_claw.Domain.Errors.{Time}

pub data AuditValue : Type 0 where
  text : String → AuditValue
  flag : Bool → AuditValue
  texts : List String → AuditValue
  nothing : AuditValue

pub record AuditEvent : Type 0 where
  pub engagement_id : String
  pub event_type : String
  pub actor : String
  pub payload : List (String × AuditValue)
  pub created_at : Time

-- A text or `None`.
abbrev pub optional_text : Option String → AuditValue
optional_text none = nothing
optional_text (some value) = text value

-- `WorkerState.value`
unfoldable pub worker_state_value : WorkerState → String
worker_state_value WorkerState.starting = "starting"
worker_state_value WorkerState.running = "running"
worker_state_value WorkerState.completed = "completed"
worker_state_value WorkerState.failed = "failed"
worker_state_value WorkerState.timed_out = "timed_out"
worker_state_value WorkerState.cancelled = "cancelled"
worker_state_value WorkerState.lost = "lost"

-- `record_audit_event`
abbrev pub record_audit_event :
    String → String → String → List (String × AuditValue) → Time → List AuditEvent → List AuditEvent
record_audit_event engagement_id event_type actor payload at log =
    log
    ++ record {
      engagement_id = engagement_id;
      event_type = event_type;
      actor = actor;
      payload = payload;
      created_at = at;
    }
      ∷ []
