-- ===== src/Execution/Manager/Bound.antt =====
-- What it is for a response to be bound to the request of a worker of execution/manager.py.
use vuln_proof_claw.Common.{
  true, ◌*◌, ◌≤◌, ◌≡◌, refl, ap, List, [], ◌∷◌, String, all, All, string_eq, eq_iff, arith,
  Bool-cases, subst, ◌∙◌, inl, inr,
}
use vuln_proof_claw.Common.Results.{ok, err}
use vuln_proof_claw.Domain.Errors.{Time}
use vuln_proof_claw.Execution.Protocol.{
  ProtocolVersion, protocol_version_eq, WorkerRequest, WorkerResponse, WorkerHttpCapture,
  WorkerResultStatus, Validates, validate_response, validate_success, validate_failure,
}
use vuln_proof_claw.Execution.Manager.{Answers, ManagedWorker, own_response}
use vuln_proof_claw.Execution.Manager.Tasks.{capture_matches, response_matches, matched}

-- Where the constructor of a response returns, it returns what it was given.
pub validate_response-ok :
    (r : WorkerResponse) {q : WorkerResponse} → validate_response r ≡ ok q → q ≡ r
unfolding validate_response validate_success validate_failure
validate_response-ok r h = ground arith

v1_only : (v : ProtocolVersion) → ProtocolVersion.v1 ≡ v
v1_only ProtocolVersion.v1 = refl

module _ {Cpu : Type 0} where
  -- The capture is of the request's target and took no longer than the request allows.
  abbrev pub CaptureIsBound : WorkerRequest Cpu → WorkerHttpCapture → Type 0
  CaptureIsBound request capture =
      (capture.request_target ≡ request.normalized_target)
      × (capture.duration_ms ≤ request.limits.timeout_seconds * 1000)

  pub record IsBound (request : WorkerRequest Cpu) (r : WorkerResponse) : Type 0 where
    pub version : r.protocol_version ≡ request.protocol_version
    pub same_request : r.request_id ≡ request.request_id
    pub same_engagement : r.engagement_id ≡ request.engagement_id
    pub same_action : r.action_id ≡ request.action_id
    pub captures : All (CaptureIsBound request) r.http_captures

  captures-IsBound :
      (request : WorkerRequest Cpu) (captures : List WorkerHttpCapture)
      → all (capture_matches request) captures ≡ true
      → All (CaptureIsBound request) captures
  unfolding capture_matches
  captures-IsBound request [] h = tt
  captures-IsBound request (c ∷ captures) h = (
    ((eq_iff c.request_target request.normalized_target).0 (ground arith), ground arith),
    captures-IsBound request captures (ground arith),
  )

  pub response_matches-IsBound :
      (request : WorkerRequest Cpu) (r : WorkerResponse)
      → response_matches request r ≡ true
      → IsBound request r
  unfolding response_matches
  response_matches-IsBound request r h = record {
    version =
        (protocol_version_eq.beq_iff r.protocol_version request.protocol_version).0 (ground arith);
    same_request = (eq_iff r.request_id request.request_id).0 (ground arith);
    same_engagement = (eq_iff r.engagement_id request.engagement_id).0 (ground arith);
    same_action = (eq_iff r.action_id request.action_id).0 (ground arith);
    captures = captures-IsBound request r.http_captures (ground arith);
  }

  pub own_response-IsBound :
      (m : ManagedWorker Cpu) (status : WorkerResultStatus) (at : Time) (code : String)
      {r : WorkerResponse}
      → own_response m status at code ≡ ok r
      → IsBound m.request r × (r.status ≡ status)
  unfolding own_response
  own_response-IsBound m status at code h =
      let same = validate_response-ok _ h in
      let version = v1_only m.request.protocol_version in
      (
        record {
          version = ap (λ (q : WorkerResponse). q.protocol_version) same ∙ version;
          same_request = ap (λ (q : WorkerResponse). q.request_id) same;
          same_engagement = ap (λ (q : WorkerResponse). q.engagement_id) same;
          same_action = ap (λ (q : WorkerResponse). q.action_id) same;
          captures = rw same tt;
        },
        ap (λ (q : WorkerResponse). q.status) same,
      )

  -- What the task answers with is bound to the request, whatever the runtime gave.
  pub matched-IsBound :
      (w : Answers) (m : ManagedWorker Cpu) (outcome : Validates WorkerResponse)
      {r : WorkerResponse}
      → matched w m outcome ≡ ok r
      → IsBound m.request r
  unfolding matched
  matched-IsBound w m (err e) h = cc
  matched-IsBound w m (ok q) {r} h = elim (Bool-cases (response_matches m.request q)) [
    | inl fits ↦
        let same : q ≡ r = ground arith in
        subst (IsBound m.request) same (response_matches-IsBound m.request q fits)
    | inr differs ↦
        (own_response-IsBound m WorkerResultStatus.worker_error (w.reading 1)
          "worker_response_binding_mismatch" (rw differs at h)).0
  ]
