-- ===== src/Domain/Enums.antt =====
-- domain/enums.py: the enumerations that a decision reads, with their properties. Members are
-- compared by `==`, which stands for `is` and for membership in a set of members.
use vuln_proof_claw.Common.{Bool, true, false, Eq, discrete_eq}

pub data RiskLevel : Type 0 where
  l0 l1 l2 l3 l4 : RiskLevel

unfoldable pub RiskLevel-discrete : Discrete RiskLevel
RiskLevel-discrete = hlevel

instance abbrev pub risk_level_eq : Eq RiskLevel
risk_level_eq = discrete_eq RiskLevel-discrete

-- `RiskLevel.requires_approval`
unfoldable pub requires_approval : RiskLevel → Bool
requires_approval RiskLevel.l2 = true
requires_approval RiskLevel.l3 = true
requires_approval RiskLevel.l4 = true
requires_approval _ = false

pub data ActionState : Type 0 where
  proposed policy_check denied pending_approval queued running succeeded failed timed_out cancelled
        worker_lost :
      ActionState

unfoldable pub ActionState-discrete : Discrete ActionState
ActionState-discrete = hlevel

instance abbrev pub action_state_eq : Eq ActionState
action_state_eq = discrete_eq ActionState-discrete

pub data WorkerState : Type 0 where
  starting running completed failed timed_out cancelled lost : WorkerState

unfoldable pub WorkerState-discrete : Discrete WorkerState
WorkerState-discrete = hlevel

instance abbrev pub worker_state_eq : Eq WorkerState
worker_state_eq = discrete_eq WorkerState-discrete

-- `WorkerState.terminal`
unfoldable pub worker_terminal : WorkerState → Bool
worker_terminal WorkerState.completed = true
worker_terminal WorkerState.failed = true
worker_terminal WorkerState.timed_out = true
worker_terminal WorkerState.cancelled = true
worker_terminal WorkerState.lost = true
worker_terminal _ = false

pub data FindingStatus : Type 0 where
  candidate pending_verification verified rejected needs_manual_review : FindingStatus

unfoldable pub FindingStatus-discrete : Discrete FindingStatus
FindingStatus-discrete = hlevel

instance abbrev pub finding_status_eq : Eq FindingStatus
finding_status_eq = discrete_eq FindingStatus-discrete

pub data FindingSeverity : Type 0 where
  informational low medium high critical : FindingSeverity

unfoldable pub FindingSeverity-discrete : Discrete FindingSeverity
FindingSeverity-discrete = hlevel

instance abbrev pub finding_severity_eq : Eq FindingSeverity
finding_severity_eq = discrete_eq FindingSeverity-discrete

pub data FindingConfidence : Type 0 where
  low medium high : FindingConfidence

unfoldable pub FindingConfidence-discrete : Discrete FindingConfidence
FindingConfidence-discrete = hlevel

instance abbrev pub finding_confidence_eq : Eq FindingConfidence
finding_confidence_eq = discrete_eq FindingConfidence-discrete

pub data MissionState : Type 0 where
  pending running paused completed expired stopped : MissionState

unfoldable pub MissionState-discrete : Discrete MissionState
MissionState-discrete = hlevel

instance abbrev pub mission_state_eq : Eq MissionState
mission_state_eq = discrete_eq MissionState-discrete

-- `MissionState.schedulable`
unfoldable pub schedulable : MissionState → Bool
schedulable MissionState.running = true
schedulable _ = false

pub data LeadStatus : Type 0 where
  new queued investigating waiting needs_approval verified rejected stale closed : LeadStatus

unfoldable pub LeadStatus-discrete : Discrete LeadStatus
LeadStatus-discrete = hlevel

instance abbrev pub lead_status_eq : Eq LeadStatus
lead_status_eq = discrete_eq LeadStatus-discrete

-- `LeadStatus.terminal`
unfoldable pub lead_terminal : LeadStatus → Bool
lead_terminal LeadStatus.verified = true
lead_terminal LeadStatus.rejected = true
lead_terminal LeadStatus.closed = true
lead_terminal _ = false

-- `LeadStatus.eligible_for_scheduling`
unfoldable pub eligible_for_scheduling : LeadStatus → Bool
eligible_for_scheduling LeadStatus.new = true
eligible_for_scheduling LeadStatus.queued = true
eligible_for_scheduling LeadStatus.waiting = true
eligible_for_scheduling _ = false

-- `LeadStatus.reawakenable`
unfoldable pub reawakenable : LeadStatus → Bool
reawakenable LeadStatus.stale = true
reawakenable LeadStatus.rejected = true
reawakenable LeadStatus.waiting = true
reawakenable _ = false

pub data TaskState : Type 0 where
  planned running completed failed abandoned : TaskState

unfoldable pub TaskState-discrete : Discrete TaskState
TaskState-discrete = hlevel

instance abbrev pub task_state_eq : Eq TaskState
task_state_eq = discrete_eq TaskState-discrete

-- `TaskState.terminal`
unfoldable pub task_terminal : TaskState → Bool
task_terminal TaskState.completed = true
task_terminal TaskState.abandoned = true
task_terminal _ = false

-- `TaskState.resumable`
unfoldable pub resumable : TaskState → Bool
resumable TaskState.planned = true
resumable TaskState.running = true
resumable TaskState.failed = true
resumable _ = false

pub data VerificationMethod : Type 0 where
  observed differential : VerificationMethod

unfoldable pub VerificationMethod-discrete : Discrete VerificationMethod
VerificationMethod-discrete = hlevel

instance abbrev pub verification_method_eq : Eq VerificationMethod
verification_method_eq = discrete_eq VerificationMethod-discrete

pub data EffortLevel : Type 0 where
  low medium high xhigh : EffortLevel

unfoldable pub EffortLevel-discrete : Discrete EffortLevel
EffortLevel-discrete = hlevel

instance abbrev pub effort_level_eq : Eq EffortLevel
effort_level_eq = discrete_eq EffortLevel-discrete
