-- ===== src/Examples/ManagerCases.antt =====
-- Equality of worker requests, and the worker manager, tried.
use mathlib.Core.List.{List-discrete}
use native.Mathlib.Decide.{ℕ_discrete}
use vuln_proof_claw.Common.{
  ℕ, String-discrete, [], ◌∷◌, none, some, true, false, Eq, discrete_eq, string_eq, eq_iff, ◌≡◌,
  refl, ap, lookup, is_blank, arith, ◌≢◌,
}
use vuln_proof_claw.Common.Results.{ok, err}
use vuln_proof_claw.Domain.Enums.{RiskLevel, RiskLevel-discrete, WorkerState, worker_terminal}
use vuln_proof_claw.Execution.Protocol.{
  WorkerRequest, WorkerScope, WorkerHttpAction, HttpMethod, ProtocolVersion-discrete,
  ProtocolVersion, WorkerResponse, WorkerResultStatus, validate_response, validate_success,
}
use vuln_proof_claw.Execution.Manager.{
  Answers, Manager, ManagedWorker, CollectionTask, RuntimeCall, responds, invalid_message, called,
  start_worker, cancel_worker, collect_worker, cleanup, state_for_response, await_task,
  WorkerHandle,
}
use vuln_proof_claw.Execution.Manager.Tasks.{
  settle, finish, outcome_response, matched, response_matches, capture_matches, outcome_called,
}
use vuln_proof_claw.Execution.Manager.Index.{
  starts, cancels, collects, settles, finishes, act_on, submit, submit_new, submitted, no_workers,
}
use vuln_proof_claw.Execution.Manager.Contract.{resource, view}
use vuln_proof_claw.Execution.Manager.Histories.{Later, here, submits, acts}
use vuln_proof_claw.Execution.Manager.Outcomes.{
  Completion, Later-resource, Later-Completion, Later-ended,
}
use vuln_proof_claw.Execution.Manager.Replay.{submit-submit}
use vuln_proof_claw.Execution.Manager.Cancelling.{
  late, Cancellation, cancel_worker-Cancellation, cancel_worker_behind,
}
use vuln_proof_claw.Examples.{digest}

HttpMethod-discrete : Discrete HttpMethod
HttpMethod-discrete = hlevel

WorkerScope-discrete : Discrete WorkerScope
WorkerScope-discrete = hlevel (ℕ_discrete, String-discrete, List-discrete)

WorkerHttpAction-discrete : Discrete WorkerHttpAction
WorkerHttpAction-discrete = hlevel (ℕ_discrete, String-discrete, List-discrete, HttpMethod-discrete)

WorkerRequest-discrete : Discrete (WorkerRequest ℕ)
WorkerRequest-discrete = hlevel (
  ℕ_discrete, String-discrete, List-discrete, RiskLevel-discrete, ProtocolVersion-discrete,
  WorkerScope-discrete, WorkerHttpAction-discrete,
)

instance abbrev request_eq : Eq (WorkerRequest ℕ)
request_eq = discrete_eq WorkerRequest-discrete

abbrev request : WorkerRequest ℕ
request = record {
  protocol_version = ProtocolVersion.v1;
  request_id = "r1";
  engagement_id = "e1";
  action_id = "a1";
  action_type = "public_page_read";
  normalized_target = "https://example.com:443/";
  parameter_digest = digest;
  risk_level = RiskLevel.l0;
  approval_id = none;
  idempotency_key = "k1";
  capabilities = "http_client" ∷ [];
  http_action = none;
  scope = record {
    allowed_hostnames = "example.com" ∷ [];
    allowed_cidrs = [];
    allowed_ports = 443 ∷ [];
    allowed_schemes = "https" ∷ [];
    allowed_paths = "/" ∷ [];
    denied_hostnames = [];
    denied_cidrs = [];
    denied_paths = [];
    allowed_wildcards = [];
    denied_wildcards = [];
  };
  limits = record {
    timeout_seconds = 30;
    memory_megabytes = 256;
    cpu_count = 1;
    process_limit = 64;
  };
}

abbrev answer : WorkerResponse
answer = record {
  protocol_version = ProtocolVersion.v1;
  request_id = "r1";
  engagement_id = "e1";
  action_id = "a1";
  status = WorkerResultStatus.succeeded;
  started_at = 110;
  completed_at = 120;
  evidence_ids = "v1" ∷ [];
  artifact_ids = [];
  http_captures = [];
  exit_code = none;
  error_code = none;
}

-- Every call of the runtime returns.
abbrev at : ℕ → Answers
at now = record {
  start_returns = true;
  cancel_returns = true;
  destroy_returns = true;
  reading = λ n. now;
}

abbrev submitted_manager : Manager ℕ
submitted_manager = (submit request "w1" (some "c1") 100 no_workers).0

abbrev finished_manager : Manager ℕ
finished_manager = act_on (finishes (at 130)) "w1" (
    act_on (settles (at 125) (responds answer)) "w1"
      (act_on collects "w1" (act_on (starts (at 105)) "w1" submitted_manager)))

answer-IsSound : validate_response answer ≡ ok answer
unfolding validate_response validate_success
answer-IsSound = refl

started-Later : Later submitted_manager finished_manager
started-Later =
    acts (finishes (at 130)) "w1"
      (acts (settles (at 125) (responds answer)) "w1"
        (acts collects "w1" (acts (starts (at 105)) "w1" here tt) tt) answer-IsSound)
      tt

finished-Later : Later no_workers finished_manager
finished-Later =
    acts (finishes (at 130)) "w1"
      (acts (settles (at 125) (responds answer)) "w1"
        (acts collects "w1"
          (acts (starts (at 105)) "w1" (submits request "w1" (some "c1") 100 here refl) tt) tt)
        answer-IsSound)
      tt

abbrev created : ManagedWorker ℕ
created = record {
  request = request;
  runtime_reference = "c1";
  handle = record {
    worker_id = "w1";
    request_id = "r1";
    state = WorkerState.starting;
    created_at = 100;
    updated_at = some 100;
    cleaned_up = false;
    error_code = none;
  };
  response = none;
  collection_task = CollectionTask.absent;
  calls = RuntimeCall.create ∷ [];
}

abbrev finished : ManagedWorker ℕ
finished = record created {
  handle = record {
    worker_id = "w1";
    request_id = "r1";
    state = WorkerState.completed;
    created_at = 100;
    updated_at = some 130;
    cleaned_up = true;
    error_code = none;
  };
  response = some answer;
  collection_task = CollectionTask.done;
  calls = RuntimeCall.destroy true ∷ RuntimeCall.wait ∷ RuntimeCall.start ∷ RuntimeCall.create ∷ [];
}

found_finished : lookup "w1" finished_manager.workers ≡ some finished
unfolding submit submit_new submitted act_on start_worker collect_worker settle finish cleanup
    outcome_response matched response_matches capture_matches outcome_called state_for_response
    is_blank await_task
found_finished = refl

Later-resource_example : resource finished.calls ≡ some (view finished.handle)
Later-resource_example = Later-resource "w1" finished finished-Later found_finished

Later-Completion_example : Completion finished
Later-Completion_example = Later-Completion "w1" finished finished-Later found_finished refl

finished_ended : worker_terminal finished.handle.state ≡ true
unfolding worker_terminal
finished_ended = refl

cancelled-Later : Later finished_manager (act_on (cancels (at 140)) "w1" finished_manager)
cancelled-Later = acts (cancels (at 140)) "w1" here tt

Later-ended_example :
    lookup "w1" (act_on (cancels (at 140)) "w1" finished_manager).workers ≡ some finished
Later-ended_example =
    Later-ended "w1" finished finished-Later found_finished finished_ended cancelled-Later

submitted_ok : (submit request "w1" (some "c1") 100 no_workers).1 ≡ ok created.handle
unfolding submit submit_new submitted is_blank
submitted_ok = refl

submit-submit_example :
    (h : WorkerHandle) × (h.worker_id ≡ "w1")
    × (submit request "w2" (some "c2") 150 finished_manager ≡ (finished_manager, ok h))
submit-submit_example =
    submit-submit request "w1" (some "c1") 100 no_workers created.handle refl submitted_ok
      started-Later "w2" (some "c2") 150

abbrev other_request : WorkerRequest ℕ
other_request = record request { action_id = "a2" }

other_request-ne : other_request ≢ request
other_request-ne e = cc ((eq_iff "a2" "a1").1 (ap (λ (r : WorkerRequest ℕ). r.action_id) e))

created_open : worker_terminal created.handle.state ≡ false
unfolding worker_terminal
created_open = refl

cancel_worker-Cancellation_example :
    Cancellation (at 140) created (cancel_worker (at 140) created).0
    × ((cancel_worker (at 140) created).1 ≡ ok (cancel_worker (at 140) created).0.handle)
cancel_worker-Cancellation_example =
    cancel_worker-Cancellation (at 140) created created_open (omega arith) (omega arith)

cancel_worker_behind_example :
    cancel_worker (at 99) created ≡ (called RuntimeCall.cancel created, err (invalid_message late))
cancel_worker_behind_example = cancel_worker_behind (at 99) created created_open (omega arith)
