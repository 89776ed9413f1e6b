-- ===== src/Agent/Budget/Ceilings.antt =====
-- The ledger of work that asks the gate first.
use vuln_proof_claw.Common.{
  ℕ, ◌+◌, ◌<◌, ◌≤◌, true, false, ◌≡◌, inl, inr, [], arith, ◌==◌, Bool-cases, String, ap, sym, subst,
}
use vuln_proof_claw.Domain.Errors.{Time}
use vuln_proof_claw.Domain.Autonomous.{Mission}
use vuln_proof_claw.Agent.Budget.{
  LedgerKey, ledger_key_eq, key_beq_iff, Ledger, usage, request_window, ceiling, permits_request,
  record_request, permits_tokens, record_tokens, daily_tokens, lead_tokens,
}
use vuln_proof_claw.Agent.Budget.Ledger.{
  only_if, usage-record_request, usage-record_tokens, other_kind,
}
use vuln_proof_claw.Agent.Budget.Requests.{permits_request-HasRoom}

-- What a mission has spent, each request and each model call after the gate has permitted it.
pub data Spending (m : Mission) : Ledger → Type 0 where
  nothing : Spending m []
  request :
      {l : Ledger} (host : String) (at : Time)
      → Spending m l
      → (permits_request m host at l).allowed ≡ true
      → Spending m (record_request m host at l)
  model_call :
      {l : Ledger} (tokens : ℕ) (lead_key : String) (at : Time)
      → Spending m l
      → (permits_tokens m tokens lead_key at l).allowed ≡ true
      → Spending m (record_tokens m tokens lead_key at l)

module _ (m : Mission) where
  request-le :
      (l : Ledger) (host : String) (at : Time) (j : LedgerKey)
      → (permits_request m host at l).allowed ≡ true
      → (usage l j).requests ≤ ceiling m.budget j.kind
      → (usage (record_request m host at l) j).requests ≤ ceiling m.budget j.kind
  request-le l host at j permitted le =
      let recorded = (usage-record_request m host at l j).0 in
      elim (Bool-cases (request_window m host at j.kind == j)) [
        | inr other ↦ let share = ap (λ b. only_if b 1) other in omega (arith, recorded, share, le)
        | inl same ↦
            let share = ap (λ b. only_if b 1) same in
            let room =
              subst (λ k. (usage l k).requests < ceiling m.budget j.kind)
                ((key_beq_iff (request_window m host at j.kind) j).0 same)
                ((permits_request-HasRoom m host at l).0 permitted j.kind) in
            omega (arith, recorded, share, room)
      ]

  -- From an empty ledger, after any requests and model calls of a mission each of which the gate
  -- permitted, no row counts more requests than the ceiling of its kind of window: a host's
  -- minute, the hour, the day and the total.
  pub Spending-requests_le :
      {l : Ledger} → Spending m l → (j : LedgerKey) → (usage l j).requests ≤ ceiling m.budget j.kind
  unfolding usage
  Spending-requests_le nothing j = omega arith
  Spending-requests_le (request {l} host at s permitted) j =
      request-le l host at j permitted (Spending-requests_le s j)
  Spending-requests_le (model_call {l} tokens lead_key at s permitted) j =
      let kept = (usage-record_tokens m tokens lead_key at l j).1 in
      subst (λ n. n ≤ ceiling m.budget j.kind) (sym kept) (Spending-requests_le s j)

  permits_tokens-le :
      (tokens : ℕ) (lead_key : String) (at : Time) (l : Ledger)
      → (permits_tokens m tokens lead_key at l).allowed ≡ true
      → ((usage l (daily_tokens m at)).tokens + tokens ≤ m.budget.llm_tokens_per_day)
        × ((usage l (lead_tokens m lead_key)).tokens + tokens ≤ m.budget.llm_tokens_per_lead)
  unfolding permits_tokens
  permits_tokens-le tokens lead_key at l h = (ground arith, ground arith)

  -- The row of a day or of a lead, with its ceiling.
  abbrev TokensLe : Ledger → LedgerKey → ℕ → Type 0
  TokensLe l j most = (usage l j).tokens ≤ most

  -- A model call that changes one of the two rows keeps it under its ceiling.
  token_step :
      (l : Ledger) (tokens : ℕ) (lead_key : String) (at : Time) (own other j : LedgerKey) (most : ℕ)
      → (usage (record_tokens m tokens lead_key at l) j).tokens
        ≡ only_if (own == j) tokens + only_if (other == j) tokens + (usage l j).tokens
      → (other == j) ≡ false
      → (usage l own).tokens + tokens ≤ most
      → (usage l j).tokens ≤ most
      → (usage (record_tokens m tokens lead_key at l) j).tokens ≤ most
  token_step l tokens lead_key at own other j most recorded apart room le =
      let none_there = ap (λ b. only_if b tokens) apart in
      elim (Bool-cases (own == j)) [
        | inr away ↦
            let share = ap (λ b. only_if b tokens) away in
            omega (arith, recorded, none_there, share, le)
        | inl same ↦
            let share = ap (λ b. only_if b tokens) same in
            let room' =
              subst (λ k. (usage l k).tokens + tokens ≤ most) ((key_beq_iff own j).0 same) room in
            omega (arith, recorded, none_there, share, room')
      ]

  -- From an empty ledger, after any requests and model calls of a mission each of which the gate
  -- permitted, the tokens counted for any day and for any lead are at most the budget's.
  Spending-tokens_le :
      {l : Ledger}
      → Spending m l
      → (day : Time) → (lead : String)
      → ((usage l (daily_tokens m day)).tokens ≤ m.budget.llm_tokens_per_day)
        × ((usage l (lead_tokens m lead)).tokens ≤ m.budget.llm_tokens_per_lead)
  unfolding usage
  Spending-tokens_le nothing day lead = (omega arith, omega arith)
  Spending-tokens_le (request {l} host at s permitted) day lead =
      let (daily, by_lead) = Spending-tokens_le s day lead in
      (
        subst (λ n. n ≤ m.budget.llm_tokens_per_day)
            (sym (usage-record_request m host at l (daily_tokens m day)).1) daily,
        subst (λ n. n ≤ m.budget.llm_tokens_per_lead)
            (sym (usage-record_request m host at l (lead_tokens m lead)).1) by_lead,
      )
  Spending-tokens_le (model_call {l} tokens lead_key at s permitted) day lead =
      let (daily, by_lead) = Spending-tokens_le s day lead in
      let (room_day, room_lead) = permits_tokens-le tokens lead_key at l permitted in
      let a = (usage-record_tokens m tokens lead_key at l (daily_tokens m day)).0 in
      let b = (usage-record_tokens m tokens lead_key at l (lead_tokens m lead)).0 in
      (
        token_step l tokens lead_key at (daily_tokens m at) (lead_tokens m lead_key)
            (daily_tokens m day) m.budget.llm_tokens_per_day (omega (arith, a))
            (other_kind (lead_tokens m lead_key) (daily_tokens m day) (λ h. cc h)) room_day daily,
        token_step l tokens lead_key at (lead_tokens m lead_key) (daily_tokens m at)
            (lead_tokens m lead) m.budget.llm_tokens_per_lead (omega (arith, b))
            (other_kind (daily_tokens m at) (lead_tokens m lead) (λ h. cc h)) room_lead by_lead,
      )
