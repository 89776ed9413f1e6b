-- ===== src/Lib.antt =====
-- vuln-proof-claw: a model of the authority and evidence core of the control plane, in which every
-- target-facing action is classified, checked against a scope, approved by its risk, started once,
-- and recorded in a chain of digests.
--
-- An Action is proposed and moves through the states of `transition_action`. `decide_action` decides
-- on it from the engagement's scope, its own risk and an Approval. At the start of an execution
-- `authorize_queued_action` decides again on what the database holds, and `begin_execution` marks the
-- action running and consumes the approval, each by a save that asks for the version that was read.
-- What is captured goes into an evidence store, a hash chain per engagement. The autonomous controller
-- works on leads within a mission's cadence and budget, and a plan that it follows is checked before the
-- policy is asked.
--
-- A worker runs an action: ActionWorkerCoordinator asks the worker manager for one, registers it as a
-- WorkerExecution, begins the action's execution and only then tells the worker to run; it collects or
-- cancels the worker and closes the action. After a restart it gives up what was in flight, and the
-- janitor destroys the runtime's resources that no live execution is bound to.
--
-- The files, and the code that each is about (below src/vuln_proof_claw/):
--   Common        tests, equality, lists, sorting, texts by code points, results that may be an error
--   Domain        Enums, Errors and Models: domain/enums.py, domain/errors.py, domain/models.py
--   Domain/ActionState  domain/action_state.py: `transition_action` and its table
--   Domain/Plan         domain/plan.py: `ordered`, `resume_point`, `transition`, `claim`
--   Domain/Finding      domain/finding.py and Finding of domain/models.py
--   Domain/Autonomous   domain/autonomous.py: MissionCadence, MissionBudget, Mission
--   Policy/Risk         policy/risk.py: `normalize_action_type`, `classify_risk`
--   Policy/Scope        policy/scope.py: `evaluate_scope` and what it calls; Scope/Paths has
--                       `normalize_path`, with Python's `unquote` and `posixpath.normpath`,
--                       Scope/Rules `EngagementScope.create` and what it calls, Scope/Targets
--                       `normalize_target`, with Python's `urlsplit`, and Scope/Queries `normalize_query`,
--                       with `parse_qsl` and `urlencode`
--   Policy/Approval     policy/approval.py: `validate_approval`, `consume_approval`
--   Policy/Decision     policy/decision.py: `decide_action`
--   Policy/Effort       policy/effort.py: `budget_for_risk`, `budget_for_action`
--   Persistence         persistence/repositories.py: the two versioned saves
--   Execution/Authorization  execution/authorization.py
--   Execution/Protocol  execution/protocol.py: the messages, and the checks of WorkerResponse
--   Execution/Manager   execution/manager.py: LifecycleWorkerManager. Manager has what runs with a
--                       worker's lock held, Manager/Tasks `_collect_worker`, Manager/Index `submit`
--                       and the calls that name a worker
--   Execution/Audit     audit.py: the events that services append
--   Execution/Registry  WorkerExecution of domain/models.py and WorkerExecutionRepository of
--                       persistence/repositories.py
--   Execution/Lifecycle execution/lifecycle.py: ActionWorkerCoordinator. Lifecycle has `cancel` and what
--                       the operations share, Lifecycle/Start `start`, Lifecycle/Collect
--                       `collect`, Lifecycle/Recovery `reconcile_after_restart`
--   Execution/Janitor   execution/janitor.py: OrphanRuntimeJanitor; Janitor/Restart has
--                       `recover_runtime_after_restart`
--   Evidence            evidence/models.py: EvidenceMetadata, EvidenceRecord
--   Evidence/HashChain  evidence/hash_chain.py: `compute_digest` (`framed` is what it hashes),
--                       `append_to_chain`, `verify_chain` (`verify_from` is its loop)
--   Evidence/Store      evidence/store.py: InMemoryEvidenceStore
--   Agent/Budget        agent/budget.py and BudgetLedgerRepository of
--                       persistence/autonomous_repositories.py
--   Agent/Scheduler     agent/scheduler.py
--   Agent/Leads         agent/leads.py and Lead of domain/autonomous.py
--   Agent/Planner       agent/planner.py: ResearchPlan and `validate_plan`
--   Examples            concrete inputs on which the theorems are tried
--
-- State is passed explicitly. A call that may raise gives a Result; where a call leaves something
-- behind although it raises, as the evidence store does, it gives the state as well. A time is a
-- number of microseconds since the year 1 in UTC, so the checks that a datetime is aware have no
-- counterpart, and a counter is a natural number, so neither have the checks for negative ones.
-- A database transaction that raises is rolled back, except that of ActionWorkerCoordinator's
-- `start` the model has what its session holds where it raises, which its caller may commit. Loops are structural recursions over lists; the
-- only fuel is that of the decimal digits of a port, which is one more than the number and so more
-- than its digits, while `normalize_path` decodes at most five times, as the code does. A length that is framed is below 2 ^ 64, or `to_bytes` raises.
--
-- The worker manager runs on one event loop, so it changes state only between the points where a call
-- waits. What a call does with a worker's lock held is one step, which is given what the runtime's
-- calls and the clock do in it: no other call that takes the lock runs in between, `status` sees the
-- handle of before or after, and the part of the collection task that holds no lock (`settle`) changes
-- nothing that a holder of the lock reads but the task itself, which `cancel` ends. `submit` holds the
-- manager's lock and touches no worker that is there. A caller that is itself cancelled while it waits
-- is not modelled.
--
-- The coordinator and the janitor are given what the manager and the runtime answer. While the janitor
-- awaits `destroy`, other sessions may write into the registry: what they write is an argument. So is
-- what `_persist_http_capture` does up to the response that it builds (`persist`), what the scope of an
-- engagement is in the protocol (`worker_scope`), and what other sessions write while `start` awaits
-- the manager's `submit`; the rows that `start` has written then are locked until its transaction ends.
--
-- Parameters, for code that is not in this repository: `ipaddress` (IpLibrary, RuleLibrary and
-- UrlLibrary), the codec `idna` and the lower case of a text (RuleLibrary), SHA-256 (Hash, of which it
-- is asked that its digests are 64 hexadecimal digits), the character tables of Unicode (Unicode) and
-- floating-point numbers (Floats). Where a policy reads a target from a text, `normalize_target` is an
-- argument that may only raise domain errors, and so is the canonical encoding of metadata of
-- evidence/canonical.py: what is said there holds whatever they give.
--
-- Not modelled: the canonical encoding, the runtimes of
-- workers, the controller's cycle, the other repositories; and, being input and output or documents,
-- the API, the command line, configuration, the container engine, discovery, reporting, and the tables
-- of SQLAlchemy.
pub mod Agent
pub mod Common
pub mod Domain
pub mod Evidence
pub mod Examples
pub mod Execution
pub mod Persistence
pub mod Policy
