-- ===== src/Examples/JanitorCases.antt =====
-- A sweep over a runtime's resources, tried.
use vuln_proof_claw.Common.{
  List, [], ◌∷◌, none, false, ◌≡◌, refl, ◌==◌, contains, length, IsUnique, OnSome, if_split,
  string_eq, eq_iff,
}
use vuln_proof_claw.Domain.Enums.{WorkerState, worker_terminal}
use vuln_proof_claw.Persistence.{Stored}
use vuln_proof_claw.Execution.Registry.{WorkerExecution, Rows, get_for_request, find_row}
use vuln_proof_claw.Execution.Janitor.{RuntimeResource, Surroundings, Sweep, sweep}
use vuln_proof_claw.Execution.Janitor.Calls.{attempts, sweep_lem}
use vuln_proof_claw.Execution.Janitor.Live.{HasKeys, InFlight}
use vuln_proof_claw.Execution.Janitor.Spared.{IsOnlyOne, sweep-InFlight}

abbrev pub execution : WorkerExecution
execution = record {
  request_id = "r1";
  engagement_id = "e1";
  action_id = "a1";
  runtime_identity = "docker";
  state = WorkerState.running;
  created_at = 100;
  updated_at = 200;
  id = "w1";
  cleaned_up = false;
  error_code = none;
}

abbrev ended : WorkerExecution
ended = record execution {
  request_id = "r2";
  id = "w2";
  action_id = "a2";
  state = WorkerState.completed;
}

abbrev rows : Rows
rows =
    ("w1", record { entity = execution; version = 2 })
    ∷ ("w2", record { entity = ended; version = 5 })
    ∷ []

-- One reference cannot be destroyed, and nobody else writes.
abbrev pub env : Surroundings
env = record {
  identity = "docker";
  destroys = λ reference. reference == "c3";
  meanwhile = λ reference rows. rows;
}

abbrev pub live : RuntimeResource
live = record { worker_id = "w1"; request_id = "r1"; created_at = 100; reference = "c1" }

abbrev pub finished : RuntimeResource
finished = record { worker_id = "w2"; request_id = "r2"; created_at = 90; reference = "c2" }

abbrev pub stray : RuntimeResource
stray = record { worker_id = "w3"; request_id = "r3"; created_at = 80; reference = "c3" }

abbrev pub resources : List RuntimeResource
resources = live ∷ finished ∷ stray ∷ finished ∷ []

abbrev before : Sweep
before = record { rows = rows; audit = []; calls = [] }

rows-HasKeys : HasKeys rows
rows-HasKeys k =
    let kept = OnSome (λ (row : Stored WorkerExecution). row.entity.id ≡ k) in
    if_split kept ("w1" == k) _ _ (λ same. (eq_iff "w1" k).0 same)
      λ _. if_split kept ("w2" == k) _ _ (λ same. (eq_iff "w2" k).0 same) λ _. tt

live-IsOnlyOne : IsOnlyOne env live resources
live-IsOnlyOne = (
  λ _. refl,
  (
    λ e. cc ((eq_iff "c2" "c1").1 e),
    (λ e. cc ((eq_iff "c3" "c1").1 e), (λ e. cc ((eq_iff "c2" "c1").1 e), tt)),
  ),
)

live-InFlight : InFlight env live rows
unfolding get_for_request find_row worker_terminal
live-InFlight = record {
  row = record { entity = execution; version = 2 };
  by_id = refl;
  by_request = refl;
  identity = refl;
  open_state = refl;
  keyed = rows-HasKeys;
}

sweep-InFlight_example :
    (contains (sweep env 60 500 resources before).0.calls "c1" ≡ false)
    × InFlight env live (sweep env 60 500 resources before).0.rows
sweep-InFlight_example =
    sweep-InFlight env live 60 500 resources before (λ reference rows f. f) live-IsOnlyOne
      live-InFlight refl

sweep_lem_example :
    let x = sweep env 60 500 resources before in
    (length x.1 ≡ 4) × (length x.0.calls ≡ attempts x.1) × IsUnique x.0.calls
sweep_lem_example = sweep_lem env 60 500 resources before refl
