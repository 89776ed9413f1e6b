-- ===== src/Agent/Leads.antt =====
-- agent/leads.py, with `Lead` of domain/autonomous.py: when a lead may be worked on, and what becomes
-- of it. `Float` stands for the type of its confidence, with the test `0.0 <= x <= 1.0`.
pub mod Eligibility
pub mod Attempts
pub mod Promotion
use Prim.Native.String.{◌++◌ as str_append}
use vuln_proof_claw.Common.{
  ℕ, ◌+◌, Bool, true, false, not, ◌&&◌, ◌||◌, Option, none, some, List, [], ◌∷◌, ◌==◌, leb, ltb,
  any, is_empty, is_some, is_blank, or_else, if◌then◌else◌, String, string_eq,
}
use vuln_proof_claw.Common.Results.{ok, ◌>>=◌, ◌>>◌}
use vuln_proof_claw.Domain.Enums.{
  LeadStatus, LeadStatus-discrete, lead_status_eq, eligible_for_scheduling, reawakenable,
}
use vuln_proof_claw.Domain.Errors.{Time, Raises, require_text, refuse_if}
use vuln_proof_claw.Domain.Autonomous.{MissionBudget, MissionCadence}
use vuln_proof_claw.Agent.Scheduler.{next_attempt_at}

-- `LeadStatus.value`
unfoldable pub lead_status_value : LeadStatus → String
lead_status_value LeadStatus.new = "new"
lead_status_value LeadStatus.queued = "queued"
lead_status_value LeadStatus.investigating = "investigating"
lead_status_value LeadStatus.waiting = "waiting"
lead_status_value LeadStatus.needs_approval = "needs_approval"
lead_status_value LeadStatus.verified = "verified"
lead_status_value LeadStatus.rejected = "rejected"
lead_status_value LeadStatus.stale = "stale"
lead_status_value LeadStatus.closed = "closed"

pub record Floats : Type 1 where
  pub Float : Type 0
  pub is_unit : Float → Bool

pub record LeadEligibility : Type 0 where
  pub eligible : Bool
  pub reason : String

-- The truth of an optional text.
abbrev pub truthy : Option String → Bool
truthy none = false
truthy (some text) = not (text == "")

-- `if text is not None: _require_text(text, label)`
abbrev pub require_text_if : Option String → String → Raises (Unit {0})
require_text_if none label = ok tt
require_text_if (some text) label = require_text text label

module _ (floats : Floats) where
  open floats use {Float, is_unit}

  pub record Lead : Type 0 where
    pub engagement_id : String
    pub mission_id : String
    pub title : String
    pub hypothesis : String
    pub category : String
    pub asset_id : Option String
    pub endpoint_id : Option String
    pub confidence : Float
    pub priority : ℕ
    pub status : LeadStatus
    pub origin : List String
    pub evidence_ids : List String
    pub related_findings : List String
    pub attempt_count : ℕ
    pub failure_count : ℕ
    pub last_attempt_at : Option Time
    pub next_attempt : Option Time
    pub last_reasoning_summary : Option String
    pub next_action : Option String
    pub blocked_reason : Option String
    pub dedupe_key : Option String
    pub id : String
    pub created_at : Time
    pub updated_at : Time

  unfoldable pub validate_lead : Lead → Raises Lead
  unfolding LeadStatus-discrete
  validate_lead l = do
    require_text l.title "title"
    require_text l.hypothesis "hypothesis"
    require_text l.category "category"
    refuse_if (ltb l.updated_at l.created_at) "updated_at must not be earlier than created_at"
    refuse_if (not (is_unit l.confidence)) "confidence must be between 0.0 and 1.0"
    refuse_if (not (leb l.priority 100)) "priority must be between 0 and 100"
    refuse_if (ltb l.attempt_count l.failure_count) "failure_count must not exceed attempt_count"
    refuse_if (not (is_some l.last_attempt_at) && ltb 0 l.attempt_count)
        "an attempted lead requires last_attempt_at"
    refuse_if (l.status == LeadStatus.verified && is_empty l.evidence_ids)
        "a verified lead requires at least one evidence record"
    refuse_if (l.status == LeadStatus.needs_approval && not (truthy l.blocked_reason))
        "a lead awaiting approval requires blocked_reason"
    require_text_if l.last_reasoning_summary "last_reasoning_summary"
    require_text_if l.next_action "next_action"
    require_text_if l.blocked_reason "blocked_reason"
    require_text_if l.dedupe_key "dedupe_key"
    refuse_if (any is_blank l.origin) "origin must not be empty"
    ok l

  -- `next_attempt_at is not None and now < next_attempt_at`
  abbrev pub cooling : Option Time → Time → Bool
  cooling none now = false
  cooling (some next) now = ltb now next

  unfoldable pub evaluate_eligibility : Lead → Time → MissionBudget → Bool → LeadEligibility
  unfolding eligible_for_scheduling
  evaluate_eligibility l now budget has_new_evidence =
      let refused : String → LeadEligibility =
        λ reason. record { eligible = false; reason = reason } in
      if not (eligible_for_scheduling l.status)
      then refused (str_append "status_" (lead_status_value l.status))
      else if truthy l.blocked_reason
      then refused "lead_blocked"
      else if leb budget.maximum_lead_attempts l.attempt_count
      then refused "attempt_limit_reached"
      else if cooling l.next_attempt now
      then refused "cooldown_active"
      else if ltb 0 l.failure_count && not has_new_evidence
      then refused "no_new_evidence_since_failure"
      else record { eligible = true; reason = "eligible" }

  unfoldable pub begin_attempt : Lead → Time → Raises Lead
  begin_attempt l now = validate_lead (record l {
    status = LeadStatus.investigating;
    attempt_count = l.attempt_count + 1;
    last_attempt_at = some now;
    next_attempt = none;
    updated_at = now;
  })

  unfoldable pub record_failure : Lead → String → MissionCadence → Time → Raises Lead
  record_failure l reason cadence now = do
    require_text reason "reason"
    failed ← validate_lead (record l {
      failure_count = l.failure_count + 1;
      last_attempt_at = some (or_else l.last_attempt_at now);
      last_reasoning_summary = some reason;
      updated_at = now;
    })
    validate_lead (record failed {
      status = LeadStatus.waiting;
      next_attempt = some (next_attempt_at failed.failure_count cadence now);
    })

  unfoldable pub record_blocked : Lead → String → Time → Raises Lead
  record_blocked l reason now = do
    require_text reason "reason"
    validate_lead (record l {
      status = LeadStatus.needs_approval;
      blocked_reason = some reason;
      next_attempt = none;
      updated_at = now;
    })

  unfoldable pub record_rejected : Lead → String → Time → Raises Lead
  record_rejected l reason now = do
    require_text reason "reason"
    validate_lead (record l {
      status = LeadStatus.rejected;
      last_reasoning_summary = some reason;
      next_attempt = none;
      updated_at = now;
    })

  unfoldable pub mark_stale : Lead → Time → Raises Lead
  mark_stale l now =
      validate_lead (record l { status = LeadStatus.stale; next_attempt = none; updated_at = now })

  unfoldable pub reawaken : Lead → String → Time → Raises Lead
  reawaken l reason now = do
    require_text reason "reason"
    refuse_if (not (reawakenable l.status))
        "only stale, rejected, or waiting leads may be reawakened"
    validate_lead (record l {
      status = LeadStatus.queued;
      blocked_reason = none;
      last_reasoning_summary = some reason;
      next_attempt = none;
      updated_at = now;
    })
