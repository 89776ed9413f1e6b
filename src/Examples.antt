-- ===== src/Examples.antt =====
-- Inputs on which the theorems are tried, and the trials.
mod DomainCases
mod PolicyCases
mod ScopeCases
mod PathCases
mod RuleCases
mod TargetCases
mod QueryCases
mod ExecutionCases
mod SpendingCases
mod ManagerCases
mod JanitorCases
mod LifecycleCases
mod StartCases
mod PlannerCases
mod EvidenceCases
mod AgentCases
mod LeadCases
use Prim.Native.Char.{Char, code}
use text.Mathlib.TextBridge.{of_list}
use vuln_proof_claw.Common.{
  map, ◌||◌, ◌+◌, chars, in_range, to_char, or_else, if◌then◌else◌, ℕ, Bool, true, false, Option,
  none, some, List, [], ◌∷◌, String,
}
use vuln_proof_claw.Domain.Autonomous.{MissionCadence, Mission}
use vuln_proof_claw.Domain.Enums.{MissionState, RiskLevel, ActionState, TaskState}
use vuln_proof_claw.Domain.Errors.{Time, Raises}
use vuln_proof_claw.Common.Results.{ok}
use vuln_proof_claw.Domain.Models.{Engagement, Action, Approval, Task}
use vuln_proof_claw.Policy.Scope.Rules.{RuleLibrary}
use vuln_proof_claw.Policy.Scope.{IpLibrary, NormalizedTarget, EngagementScope}

abbrev pub digest : String
digest = "0123456789abcdef0123456789abcdef0123456789abcdef0123456789abcdef"

abbrev pub action : Action
action = record {
  engagement_id = "e1";
  task_id = "t1";
  action_type = "vulnerability_scan";
  normalized_target = "https://example.com:443/";
  parameter_digest = digest;
  risk_level = RiskLevel.l2;
  idempotency_key = "k1";
  query = "";
  id = "a1";
  state = ActionState.proposed;
  approval_id = none;
  created_at = 100;
  started_at = none;
  completed_at = none;
}

abbrev pub approval : Approval
approval = record {
  engagement_id = "e1";
  action_type = "vulnerability_scan";
  normalized_target = "https://example.com:443/";
  parameter_digest = digest;
  risk_level = RiskLevel.l2;
  expires_at = 1000;
  permitted_executions = 2;
  approver = "operator";
  id = "p1";
  approved_at = 100;
  consumed_executions = 0;
}

abbrev pub task : ℕ → TaskState → Task
task sequence state = record {
  flow_id = "f1";
  title = "step";
  sequence = sequence;
  state = state;
  attempts = 1;
  id = "t1";
  created_at = 50;
}

abbrev pub target : NormalizedTarget
target = record { scheme = "https"; host = "example.com"; port = 443; path = "/" }

-- Every text names this target, as far as these examples go.
abbrev pub read_target : String → Raises NormalizedTarget
read_target text = ok target

-- A library that takes no text for an address.
abbrev pub no_addresses : IpLibrary
no_addresses = record {
  Address = String;
  Network = String;
  ip_address = λ text. none;
  within = λ address network. false;
}

abbrev pub scope : EngagementScope String
scope = record {
  allowed_hostnames = "example.com" ∷ [];
  allowed_networks = [];
  allowed_ports = 443 ∷ [];
  allowed_schemes = "https" ∷ [];
  allowed_paths = "/" ∷ [];
  denied_hostnames = [];
  denied_networks = [];
  denied_paths = "/admin" ∷ [];
  allowed_wildcards = [];
  denied_wildcards = [];
  valid_from = some 100;
  valid_until = some 1000;
}

abbrev pub cadence : MissionCadence
cadence = record {
  cycle_interval_seconds = 300;
  http_inventory_seconds = 2700;
  subdomain_refresh_seconds = 21600;
  deep_recon_seconds = 86400;
  lead_retry_cooldown_seconds = 3600;
  stale_lead_after_seconds = 604800;
}

abbrev pub mission : Mission
mission = record {
  engagement_id = "e1";
  name = "nightly";
  cadence = cadence;
  budget = record {
    requests_per_minute_per_domain = 10;
    requests_per_hour = 1000;
    requests_per_day = 10000;
    total_requests = 100000;
    llm_tokens_per_day = 1000000;
    llm_tokens_per_lead = 50000;
    maximum_concurrent_actions = 2;
    maximum_lead_attempts = 5;
  };
  maximum_autonomous_risk = RiskLevel.l1;
  state = MissionState.running;
  kill_switch_engaged = false;
  expires_at = none;
  id = "m1";
  created_at = 100;
  updated_at = 100;
}

unfoldable pub lower_char : Char → Char
unfolding to_char
lower_char c = if in_range b'A' b'Z' (code c) then or_else (to_char (code c + 32)) c else c

-- ASCII letters and no addresses.
abbrev pub rule_library : RuleLibrary String
rule_library = record {
  ip_text = λ text. none;
  ip_network = some;
  encode_idna = some;
  lower = λ text. of_list (map lower_char (chars text));
  is_alnum = λ c.
      in_range b'0' b'9' (code c) || in_range b'a' b'z' (code c) || in_range b'A' b'Z' (code c);
}
