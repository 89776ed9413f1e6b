-- ===== src/Execution/Protocol.antt =====
-- execution/protocol.py: what passes between the control plane and a worker, and the checks of a
-- response. `Cpu` stands for the floating-point number of processors.
use vuln_proof_claw.Common.{
  list_eq, nat_eq, ℕ, Bool, false, not, ◌&&◌, ◌||◌, Option, List, String, any, is_empty, is_some,
  ltb, length, ◌==◌, string_eq, none, some, Eq, discrete_eq,
}
use vuln_proof_claw.Common.Results.{Result, ok, raise_if, ◌>>◌}
use vuln_proof_claw.Domain.Enums.{RiskLevel}
use vuln_proof_claw.Domain.Errors.{Time}

-- `Literal["v1"]`
pub data ProtocolVersion : Type 0 where
  v1 : ProtocolVersion

unfoldable pub ProtocolVersion-discrete : Discrete ProtocolVersion
ProtocolVersion-discrete = hlevel

instance abbrev pub protocol_version_eq : Eq ProtocolVersion
protocol_version_eq = discrete_eq ProtocolVersion-discrete

-- `Literal["GET", "HEAD"]`
pub data HttpMethod : Type 0 where
  get head : HttpMethod

pub record WorkerLimits (Cpu : Type 0) : Type 0 where
  pub timeout_seconds : ℕ
  pub memory_megabytes : ℕ
  pub cpu_count : Cpu
  pub process_limit : ℕ

pub record WorkerScope : Type 0 where
  pub allowed_hostnames : List String
  pub allowed_cidrs : List String
  pub allowed_ports : List ℕ
  pub allowed_schemes : List String
  pub allowed_paths : List String
  pub denied_hostnames : List String
  pub denied_cidrs : List String
  pub denied_paths : List String
  pub allowed_wildcards : List String
  pub denied_wildcards : List String

-- `==` on scopes, by their fields.
unfoldable pub is_same_scope : WorkerScope → WorkerScope → Bool
is_same_scope a b =
    (a.allowed_hostnames == b.allowed_hostnames)
    && (a.allowed_cidrs == b.allowed_cidrs)
    && (a.allowed_ports == b.allowed_ports)
    && (a.allowed_schemes == b.allowed_schemes)
    && (a.allowed_paths == b.allowed_paths)
    && (a.denied_hostnames == b.denied_hostnames)
    && (a.denied_cidrs == b.denied_cidrs)
    && (a.denied_paths == b.denied_paths)
    && (a.allowed_wildcards == b.allowed_wildcards)
    && (a.denied_wildcards == b.denied_wildcards)

pub record WorkerHttpAction : Type 0 where
  pub method : HttpMethod
  pub headers : List (String × String)
  pub maximum_response_bytes : ℕ

pub record WorkerRequest (Cpu : Type 0) : Type 0 where
  pub protocol_version : ProtocolVersion
  pub request_id : String
  pub engagement_id : String
  pub action_id : String
  pub action_type : String
  pub normalized_target : String
  pub parameter_digest : String
  pub risk_level : RiskLevel
  pub approval_id : Option String
  pub idempotency_key : String
  pub capabilities : List String
  pub http_action : Option WorkerHttpAction
  pub scope : WorkerScope
  pub limits : WorkerLimits Cpu

pub data WorkerResultStatus : Type 0 where
  succeeded failed timed_out cancelled policy_denied worker_error : WorkerResultStatus

unfoldable pub WorkerResultStatus-discrete : Discrete WorkerResultStatus
WorkerResultStatus-discrete = hlevel

instance abbrev pub worker_result_status_eq : Eq WorkerResultStatus
worker_result_status_eq = discrete_eq WorkerResultStatus-discrete

pub record WorkerHttpCapture : Type 0 where
  pub method : HttpMethod
  pub request_target : String
  pub request_headers : List (String × String)
  pub status_code : ℕ
  pub final_target : String
  pub response_headers : List (String × String)
  pub body_base64 : String
  pub body_sha256 : String
  pub captured_at : Time
  pub duration_ms : ℕ

-- An `int`; `negsuc n` is -(n + 1).
pub data ℤ : Type 0 where
  pos : ℕ → ℤ
  negsuc : ℕ → ℤ

pub record WorkerResponse : Type 0 where
  pub protocol_version : ProtocolVersion
  pub request_id : String
  pub engagement_id : String
  pub action_id : String
  pub status : WorkerResultStatus
  pub started_at : Time
  pub completed_at : Time
  pub evidence_ids : List String
  pub artifact_ids : List String
  pub http_captures : List WorkerHttpCapture
  pub exit_code : Option ℤ
  pub error_code : Option String

-- pydantic's ValidationError: of the field that is too long, or of a validator.
pub data ProtocolError : Type 0 where
  too_long : (field : String) → ProtocolError
  value_error : (message : String) → ProtocolError

abbrev pub Validates : Type 0 → Type 0
Validates A = Result ProtocolError A

-- `if test: raise ValueError(message)`
abbrev pub reject_if : Bool → String → Validates (Unit {0})
reject_if test message = raise_if test (value_error message)

-- The truth of an optional text.
abbrev pub has_text : Option String → Bool
has_text none = false
has_text (some text) = not (text == "")

-- `capture.captured_at` lies outside the window of the response.
abbrev pub is_outside : WorkerResponse → WorkerHttpCapture → Bool
is_outside r capture =
    ltb capture.captured_at r.started_at || ltb r.completed_at capture.captured_at

-- `WorkerResponse.validate_timestamps_and_error` for a status other than success.
unfoldable pub validate_failure : WorkerResponse → Validates WorkerResponse
validate_failure r = do
  reject_if (not (has_text r.error_code)) "non-success responses require a safe error_code"
  reject_if (not (is_empty r.http_captures)) "non-success responses must not include HTTP captures"
  ok r

-- The same for success.
unfoldable pub validate_success : WorkerResponse → Validates WorkerResponse
validate_success r = do
  reject_if (is_some r.error_code) "successful responses must not include an error_code"
  reject_if (is_empty r.evidence_ids && is_empty r.http_captures)
      "successful responses require evidence_ids or one HTTP capture"
  reject_if (not (is_empty r.evidence_ids) && not (is_empty r.http_captures))
      "worker responses must not mix evidence_ids and HTTP captures"
  reject_if (any (is_outside r) r.http_captures)
      "worker capture timestamp is outside the response window"
  ok r

-- The constructor of `WorkerResponse`.
unfoldable pub validate_response : WorkerResponse → Validates WorkerResponse
validate_response r = do
  raise_if (ltb 1 (length r.http_captures)) (too_long "http_captures")
  reject_if (ltb r.completed_at r.started_at) "completed_at must not be earlier than started_at"
  elim r.status [ WorkerResultStatus.succeeded ↦ validate_success r | _ ↦ validate_failure r ]
