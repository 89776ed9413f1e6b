-- ===== src/Domain/Autonomous.antt =====
-- domain/autonomous.py: the mission, its cadence and its budget, each with its `__post_init__`.
use Prim.Native.String.{◌++◌ as str_append}
use vuln_proof_claw.Common.{
  ℕ, Bool, true, false, not, ◌||◌, Option, none, some, String, ltb, leb, in_range, if◌then◌else◌,
}
use vuln_proof_claw.Common.Results.{ok, ◌>>◌}
use vuln_proof_claw.Domain.Enums.{RiskLevel, MissionState, schedulable}
use vuln_proof_claw.Domain.Errors.{Time, Raises, require_text, refuse_if}

-- `_require_cadence`, with the range of `_MINIMUM_CADENCE_SECONDS` and `_MAXIMUM_CADENCE_SECONDS`
abbrev pub require_cadence : ℕ → String → Raises (Unit {0})
require_cadence value field_name =
    refuse_if (not (in_range 30 2592000 value))
      (str_append field_name " must be between 30 and 2592000")

abbrev pub require_positive : ℕ → String → Raises (Unit {0})
require_positive value field_name =
    refuse_if (ltb value 1) (str_append field_name " must be at least one")

pub record MissionCadence : Type 0 where
  pub cycle_interval_seconds : ℕ
  pub http_inventory_seconds : ℕ
  pub subdomain_refresh_seconds : ℕ
  pub deep_recon_seconds : ℕ
  pub lead_retry_cooldown_seconds : ℕ
  pub stale_lead_after_seconds : ℕ

unfoldable pub validate_cadence : MissionCadence → Raises MissionCadence
validate_cadence c = do
  require_cadence c.cycle_interval_seconds "cycle_interval_seconds"
  require_cadence c.http_inventory_seconds "http_inventory_seconds"
  require_cadence c.subdomain_refresh_seconds "subdomain_refresh_seconds"
  require_cadence c.deep_recon_seconds "deep_recon_seconds"
  require_cadence c.lead_retry_cooldown_seconds "lead_retry_cooldown_seconds"
  require_cadence c.stale_lead_after_seconds "stale_lead_after_seconds"
  ok c

pub record MissionBudget : Type 0 where
  pub requests_per_minute_per_domain : ℕ
  pub requests_per_hour : ℕ
  pub requests_per_day : ℕ
  pub total_requests : ℕ
  pub llm_tokens_per_day : ℕ
  pub llm_tokens_per_lead : ℕ
  pub maximum_concurrent_actions : ℕ
  pub maximum_lead_attempts : ℕ

unfoldable pub validate_budget : MissionBudget → Raises MissionBudget
validate_budget b = do
  require_positive b.requests_per_minute_per_domain "requests_per_minute_per_domain"
  require_positive b.requests_per_hour "requests_per_hour"
  require_positive b.requests_per_day "requests_per_day"
  require_positive b.total_requests "total_requests"
  refuse_if (not (in_range 1 64 b.maximum_concurrent_actions))
      "maximum_concurrent_actions must be between 1 and 64"
  refuse_if (not (in_range 1 100 b.maximum_lead_attempts))
      "maximum_lead_attempts must be between 1 and 100"
  refuse_if (ltb b.requests_per_day b.requests_per_hour)
      "requests_per_hour must not exceed requests_per_day"
  refuse_if (ltb b.total_requests b.requests_per_day)
      "requests_per_day must not exceed total_requests"
  ok b

pub record Mission : Type 0 where
  pub engagement_id : String
  pub name : String
  pub cadence : MissionCadence
  pub budget : MissionBudget
  pub maximum_autonomous_risk : RiskLevel
  pub state : MissionState
  pub kill_switch_engaged : Bool
  pub expires_at : Option Time
  pub id : String
  pub created_at : Time
  pub updated_at : Time

-- `expires_at is not None and expires_at <= at`
abbrev pub over : Option Time → Time → Bool
over none at = false
over (some end) at = leb end at

-- `RiskLevel.L0` and `RiskLevel.L1`
abbrev pub is_autonomous_risk : RiskLevel → Bool
is_autonomous_risk RiskLevel.l0 = true
is_autonomous_risk RiskLevel.l1 = true
is_autonomous_risk _ = false

unfoldable pub validate_mission : Mission → Raises Mission
validate_mission m = do
  require_text m.name "name"
  refuse_if (ltb m.updated_at m.created_at) "updated_at must not be earlier than created_at"
  refuse_if (over m.expires_at m.created_at) "expires_at must be later than created_at"
  refuse_if (not (is_autonomous_risk m.maximum_autonomous_risk))
      "autonomous execution is capped at L1; higher risk requires human approval"
  ok m

-- `Mission.permits_cycle`
unfoldable pub permits_cycle : Mission → Time → Bool
unfolding schedulable
permits_cycle m at =
    if m.kill_switch_engaged || not (schedulable m.state) then false else not (over m.expires_at at)
