-- ===== src/Agent/Budget.antt =====
-- agent/budget.py, with `BudgetLedgerRepository` of persistence/autonomous_repositories.py: the
-- ceilings on requests and tokens. The counters are natural numbers here, so the checks that refuse
-- a negative amount never do.
pub mod Ledger
pub mod Requests
pub mod Ceilings
use Prim.Native.String.{◌++◌ as str_append}
use vuln_proof_claw.Common.{
  ℕ, ◌+◌, ◌-◌, ◌*◌, ◌%◌, min, Bool, true, false, ◌&&◌, ◌||◌, ◌≡◌, Option, none, some, List, [], ◌∷◌,
  ◌==◌, leb, ltb, lookup, insert, string_eq, nat_eq, if◌then◌else◌, String, Eq, eq_iff, eq_self,
  nat_beq_iff, ◌↔◌, discrete_eq, and_left, and_right, subst,
}
use vuln_proof_claw.Domain.Errors.{Time}
use vuln_proof_claw.Domain.Autonomous.{Mission, MissionBudget}

pub data BudgetWindowKind : Type 0 where
  minute hour day total : BudgetWindowKind

pub BudgetWindowKind-discrete : Discrete BudgetWindowKind
BudgetWindowKind-discrete = hlevel

instance abbrev pub budget_window_kind_eq : Eq BudgetWindowKind
budget_window_kind_eq = discrete_eq BudgetWindowKind-discrete

pub record BudgetDecision : Type 0 where
  pub allowed : Bool
  pub reason : String

-- `_EPOCH`, 1970-01-01
abbrev pub epoch : Time
epoch = 719162 * 86400 * 1000000

unfoldable pub window_start : BudgetWindowKind → Time → Time
window_start BudgetWindowKind.minute at = at - at % (60 * 1000000)
window_start BudgetWindowKind.hour at = at - at % (3600 * 1000000)
window_start BudgetWindowKind.day at = at - at % (86400 * 1000000)
window_start BudgetWindowKind.total at = epoch

-- The columns by which `_window_query` selects a row.
pub record LedgerKey : Type 0 where
  pub mission_id : String
  pub kind : BudgetWindowKind
  pub scope_key : String
  pub start : Time

abbrev pub key_beq : LedgerKey → LedgerKey → Bool
key_beq a b =
    (a.mission_id == b.mission_id)
    && (a.kind == b.kind)
    && (a.scope_key == b.scope_key)
    && (a.start == b.start)

key_beq_self : (a : LedgerKey) → key_beq a a ≡ true
key_beq_self a = rw (eq_self a.mission_id, eq_self a.kind, eq_self a.scope_key, eq_self a.start)

pub key_beq_iff : (a b : LedgerKey) → (key_beq a b ≡ true) ↔ (a ≡ b)
key_beq_iff a b = (
  λ h.
      let kind_test = a.kind == b.kind in
      let scope_test = a.scope_key == b.scope_key in
      let rest = and_left _ (a.start == b.start) h in
      let pair = and_left (a.mission_id == b.mission_id && kind_test) scope_test rest in
      let mission = (eq_iff a.mission_id b.mission_id).0 (and_left _ kind_test pair) in
      let kind =
        (budget_window_kind_eq.beq_iff a.kind b.kind).0
          (and_right (a.mission_id == b.mission_id) kind_test pair) in
      let scope =
        (eq_iff a.scope_key b.scope_key).0
          (and_right (a.mission_id == b.mission_id && kind_test) scope_test rest) in
      let start = (nat_beq_iff a.start b.start).0 (and_right _ (a.start == b.start) h) in
      λ i. record { mission_id = mission i; kind = kind i; scope_key = scope i; start = start i },
  λ e. subst (λ x. key_beq a x ≡ true) e (key_beq_self a),
)

instance abbrev pub ledger_key_eq : Eq LedgerKey
ledger_key_eq = record { beq = key_beq; beq_iff = key_beq_iff }

pub record BudgetUsage : Type 0 where
  pub requests : ℕ
  pub tokens : ℕ

-- The rows of the ledger.
abbrev pub Ledger : Type 0
Ledger = List (LedgerKey × BudgetUsage)

abbrev pub or_nothing : Option BudgetUsage → BudgetUsage
or_nothing none = record { requests = 0; tokens = 0 }
or_nothing (some u) = u

-- `BudgetLedgerRepository.usage`
unfoldable pub usage : Ledger → LedgerKey → BudgetUsage
usage ledger key = or_nothing (lookup key ledger)

-- `BudgetLedgerRepository.consume`
unfoldable pub consume : LedgerKey → BudgetUsage → Ledger → Ledger
unfolding usage
consume key more ledger =
    let before = usage ledger key in
    insert key
      (record { requests = before.requests + more.requests; tokens = before.tokens + more.tokens })
      ledger

-- The row that counts what happens at a time, of a kind of window.
abbrev pub window : Mission → BudgetWindowKind → String → Time → LedgerKey
window m kind scope_key at = record {
  mission_id = m.id;
  kind = kind;
  scope_key = scope_key;
  start = window_start kind at;
}

-- The windows that a request counts in: its host's minute, and the mission's hour, day and total.
abbrev pub request_window : Mission → String → Time → BudgetWindowKind → LedgerKey
request_window m host at BudgetWindowKind.minute = window m BudgetWindowKind.minute host at
request_window m host at BudgetWindowKind.hour = window m BudgetWindowKind.hour "" at
request_window m host at BudgetWindowKind.day = window m BudgetWindowKind.day "" at
request_window m host at BudgetWindowKind.total = window m BudgetWindowKind.total "" at

abbrev pub ceiling : MissionBudget → BudgetWindowKind → ℕ
ceiling b BudgetWindowKind.minute = b.requests_per_minute_per_domain
ceiling b BudgetWindowKind.hour = b.requests_per_hour
ceiling b BudgetWindowKind.day = b.requests_per_day
ceiling b BudgetWindowKind.total = b.total_requests

abbrev refusal : BudgetWindowKind → String
refusal BudgetWindowKind.minute = "domain_rate_limit_reached"
refusal BudgetWindowKind.hour = "hourly_request_ceiling_reached"
refusal BudgetWindowKind.day = "daily_request_ceiling_reached"
refusal BudgetWindowKind.total = "mission_request_budget_exhausted"

abbrev within_budget : BudgetDecision
within_budget = record { allowed = true; reason = "within_budget" }

module _ (m : Mission) where
  abbrev pub requests_in : String → Time → Ledger → BudgetWindowKind → ℕ
  requests_in host at ledger kind = (usage ledger (request_window m host at kind)).requests

  -- The loop of `permits_request` over its checks.
  abbrev pub first_reached : String → Time → Ledger → List BudgetWindowKind → BudgetDecision
  first_reached host at ledger [] = within_budget
  first_reached host at ledger (kind ∷ kinds) =
      if leb (ceiling m.budget kind) (requests_in host at ledger kind)
      then record { allowed = false; reason = refusal kind }
      else first_reached host at ledger kinds

  unfoldable pub permits_request : String → Time → Ledger → BudgetDecision
  permits_request host at ledger = first_reached host at ledger (
      BudgetWindowKind.minute ∷ BudgetWindowKind.hour ∷ BudgetWindowKind.day
      ∷ BudgetWindowKind.total ∷ [])

  -- What a window has left; `max(0, …)` of the smallest difference is the smallest of these.
  abbrev pub left_in : String → Time → Ledger → BudgetWindowKind → ℕ
  left_in host at ledger kind = ceiling m.budget kind - requests_in host at ledger kind

  -- `_headroom`
  unfoldable pub headroom : String → Time → Bool → Ledger → ℕ
  headroom host at include_minute ledger =
      let sustained = min (left_in host at ledger BudgetWindowKind.hour) (
        min (left_in host at ledger BudgetWindowKind.day)
          (left_in host at ledger BudgetWindowKind.total)) in
      if include_minute
      then min (left_in host at ledger BudgetWindowKind.minute) sustained
      else sustained

  unfoldable pub remaining_requests : String → Time → Ledger → ℕ
  unfolding headroom
  remaining_requests host at ledger = headroom host at true ledger

  unfoldable pub sustained_requests : Time → Ledger → ℕ
  unfolding headroom
  sustained_requests at ledger = headroom "" at false ledger

  unfoldable pub record_request : String → Time → Ledger → Ledger
  record_request host at ledger =
      let one : BudgetUsage = record { requests = 1; tokens = 0 } in
      let key = request_window m host at in
      consume (key BudgetWindowKind.total) one (
        consume (key BudgetWindowKind.day) one (
          consume (key BudgetWindowKind.hour) one
            (consume (key BudgetWindowKind.minute) one ledger)))

  abbrev pub daily_tokens : Time → LedgerKey
  daily_tokens at = window m BudgetWindowKind.day "llm" at

  abbrev pub lead_tokens : String → LedgerKey
  lead_tokens lead_key = record {
    mission_id = m.id;
    kind = BudgetWindowKind.total;
    scope_key = str_append "lead:" lead_key;
    start = epoch;
  }

  unfoldable pub permits_tokens : ℕ → String → Time → Ledger → BudgetDecision
  permits_tokens tokens lead_key at ledger =
      if ltb m.budget.llm_tokens_per_day ((usage ledger (daily_tokens at)).tokens + tokens)
      then record { allowed = false; reason = "daily_token_budget_exhausted" }
      else if ltb m.budget.llm_tokens_per_lead
          ((usage ledger (lead_tokens lead_key)).tokens + tokens)
      then record { allowed = false; reason = "lead_token_budget_exhausted" }
      else within_budget

  unfoldable pub record_tokens : ℕ → String → Time → Ledger → Ledger
  record_tokens tokens lead_key at ledger =
      let spent : BudgetUsage = record { requests = 0; tokens = tokens } in
      consume (lead_tokens lead_key) spent (consume (daily_tokens at) spent ledger)
