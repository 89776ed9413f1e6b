-- ===== src/Execution/Registry.antt =====
-- WorkerExecution of domain/models.py and its repository of persistence/repositories.py: the durable
-- registry of worker executions. Rows stand under their identifiers.
pub mod InFlight
use vuln_proof_claw.Common.{
  is_some, ℕ, ◌+◌, Bool, ◌&&◌, ◌||◌, not, Option, none, some, List, [], ◌∷◌, String, ◌==◌, ltb,
  lookup, insert, if◌then◌else◌, str_leb, sort_by, nat_eq, string_eq, option_eq, Eq, true, false,
}
use vuln_proof_claw.Common.Results.{Result, ok, err, ◌>>◌}
use vuln_proof_claw.Domain.Enums.{
  WorkerState, WorkerState-discrete, worker_state_eq, worker_terminal,
}
use vuln_proof_claw.Domain.Errors.{Time, Raises, require_text, refuse_if}
use vuln_proof_claw.Persistence.{Stored, StoreError, concurrent_update, find_version}

pub record WorkerExecution : Type 0 where
  pub request_id : String
  pub engagement_id : String
  pub action_id : String
  pub runtime_identity : String
  pub state : WorkerState
  pub created_at : Time
  pub updated_at : Time
  pub id : String
  pub cleaned_up : Bool
  pub error_code : Option String

-- `if self.error_code is not None: _require_text(…)`
abbrev pub require_code : Option String → Raises (Unit {0})
require_code none = ok tt
require_code (some code) = require_text code "error_code"

-- `WorkerExecution.__post_init__`
unfoldable pub validate_execution : WorkerExecution → Raises WorkerExecution
validate_execution e = do
  require_text e.request_id "request_id"
  require_text e.runtime_identity "runtime_identity"
  refuse_if (ltb e.updated_at e.created_at) "updated_at must not be earlier than created_at"
  refuse_if (e.cleaned_up && not (worker_terminal e.state))
      "cleaned_up requires a terminal Worker state"
  require_code e.error_code
  ok e

abbrev pub Rows : Type 0
Rows = List (String × Stored WorkerExecution)

-- The first row that passes a test.
unfoldable pub find_row : (WorkerExecution → Bool) → Rows → Option (Stored WorkerExecution)
find_row test [] = none
find_row test ((id, row) ∷ rows) = if test row.entity then some row else find_row test rows

unfoldable pub get_for_request : String → Rows → Option (Stored WorkerExecution)
unfolding find_row
get_for_request request_id rows = find_row (λ e. e.request_id == request_id) rows

unfoldable pub get_for_action : String → Rows → Option (Stored WorkerExecution)
unfolding find_row
get_for_action action_id rows = find_row (λ e. e.action_id == action_id) rows

-- `STARTING` or `RUNNING`
unfoldable pub is_in_flight : WorkerState → Bool
unfolding WorkerState-discrete
is_in_flight s = s == WorkerState.starting || s == WorkerState.running

abbrev pub rows_in_flight : Rows → List (Stored WorkerExecution)
rows_in_flight [] = []
rows_in_flight ((id, row) ∷ rows) =
    if is_in_flight row.entity.state then row ∷ rows_in_flight rows else rows_in_flight rows

-- `a <= b` on the keys `(created_at, id)`.
unfoldable pub execution_leb : Stored WorkerExecution → Stored WorkerExecution → Bool
execution_leb a b =
    if a.entity.created_at == b.entity.created_at
    then str_leb a.entity.id b.entity.id
    else ltb a.entity.created_at b.entity.created_at

unfoldable pub list_in_flight : Rows → List (Stored WorkerExecution)
unfolding sort_by execution_leb
list_in_flight rows = sort_by execution_leb (rows_in_flight rows)

-- What `WorkerExecutionRepository.save` writes into a row.
abbrev pub write_execution : WorkerExecution → WorkerExecution → WorkerExecution
write_execution row e = record row {
  state = e.state;
  cleaned_up = e.cleaned_up;
  error_code = e.error_code;
  updated_at = e.updated_at;
}

-- An update that changes no column is not sent, so the version stays.
unfoldable pub is_same_execution : WorkerExecution → WorkerExecution → Bool
unfolding WorkerState-discrete
is_same_execution a b =
    (a.state == b.state)
    && (if a.cleaned_up then b.cleaned_up else not b.cleaned_up)
    && (a.error_code == b.error_code)
    && (a.updated_at == b.updated_at)

-- The row after a save.
abbrev pub saved_execution : Stored WorkerExecution → WorkerExecution → Stored WorkerExecution
saved_execution row e = record {
  entity = write_execution row.entity e;
  version = if is_same_execution row.entity e then row.version else row.version + 1;
}

-- `WorkerExecutionRepository.save`
unfoldable pub save_execution :
    WorkerExecution → ℕ → Rows → Result StoreError (Stored WorkerExecution × Rows)
save_execution e expected rows = elim (find_version e.id expected rows) [
  | none ↦ err concurrent_update
  | some row ↦ ok (saved_execution row e, insert e.id (saved_execution row e) rows)
]

-- `WorkerExecutionRepository.add`, or `none` where the flush breaks a constraint: an identifier, a
-- request and an action each stand in one row only.
unfoldable pub add_execution : WorkerExecution → Rows → Option (Stored WorkerExecution × Rows)
unfolding get_for_request get_for_action
add_execution e rows =
    if is_some (lookup e.id rows)
      || is_some (get_for_request e.request_id rows)
      || is_some (get_for_action e.action_id rows)
    then none
    else some
        (record { entity = e; version = 1 }, insert e.id (record { entity = e; version = 1 }) rows)
