-- ===== src/Agent/Budget/Ledger.antt =====
-- What recording adds to each row of the ledger.
use vuln_proof_claw.Common.{
  ℕ, ◌+◌, Bool, true, false, ◌≡◌, ◌≢◌, refl, inl, inr, Option, some, arith, ◌==◌, if◌then◌else◌,
  lookup, lookup-insert, Bool-cases, String, ap, ◌∙◌, sym,
}
use vuln_proof_claw.Domain.Errors.{Time}
use vuln_proof_claw.Domain.Autonomous.{Mission}
use vuln_proof_claw.Agent.Budget.{
  BudgetWindowKind, budget_window_kind_eq, LedgerKey, ledger_key_eq, key_beq_iff, BudgetUsage,
  Ledger, or_nothing, usage, consume, request_window, record_request, record_tokens, daily_tokens,
  lead_tokens,
}

-- The amount, where the row is the one that is written.
abbrev pub only_if : Bool → ℕ → ℕ
only_if true n = n
only_if false n = 0

abbrev added : BudgetUsage → BudgetUsage → BudgetUsage
added before u = record {
  requests = before.requests + u.requests;
  tokens = before.tokens + u.tokens;
}

counted :
    (b : Bool) (o : Option BudgetUsage) (before u : BudgetUsage)
    → (b ≡ true → before ≡ or_nothing o)
    → ((or_nothing (if b then some (added before u) else o)).requests
        ≡ only_if b u.requests + (or_nothing o).requests)
      × ((or_nothing (if b then some (added before u) else o)).tokens
          ≡ only_if b u.tokens + (or_nothing o).tokens)
counted true o before u h =
    let requests : before.requests ≡ (or_nothing o).requests =
      ap (λ (x : BudgetUsage). x.requests) (h refl) in
    let tokens : before.tokens ≡ (or_nothing o).tokens =
      ap (λ (x : BudgetUsage). x.tokens) (h refl) in
    (omega (arith, requests), omega (arith, tokens))
counted false o before u h = (omega arith, omega arith)

pub usage-consume :
    (k j : LedgerKey) (u : BudgetUsage) (l : Ledger)
    → ((usage (consume k u l) j).requests ≡ only_if (k == j) u.requests + (usage l j).requests)
      × ((usage (consume k u l) j).tokens ≡ only_if (k == j) u.tokens + (usage l j).tokens)
unfolding consume usage
usage-consume k j u l =
    let written = lookup-insert k j (added (usage l k) u) l in
    let amounts =
      counted (k == j) (lookup j l) (usage l k) u
        (λ same. ap (usage l) ((key_beq_iff k j).0 same)) in
    (
      ap (λ (o : Option BudgetUsage). (or_nothing o).requests) written ∙ amounts.0,
      ap (λ (o : Option BudgetUsage). (or_nothing o).tokens) written ∙ amounts.1,
    )

-- Rows of different kinds are different.
pub other_kind : (a b : LedgerKey) → a.kind ≢ b.kind → (a == b) ≡ false
other_kind a b h = elim (Bool-cases (a == b)) [
  | inl same ↦ absurd (h (ap (λ (k : LedgerKey). k.kind) ((key_beq_iff a b).0 same)))
  | inr other ↦ other
]

pub kind_of_window :
    (m : Mission) (host : String) (at : Time) (kind : BudgetWindowKind)
    → (request_window m host at kind).kind ≡ kind
kind_of_window m host at BudgetWindowKind.minute = refl
kind_of_window m host at BudgetWindowKind.hour = refl
kind_of_window m host at BudgetWindowKind.day = refl
kind_of_window m host at BudgetWindowKind.total = refl

module _ (m : Mission) (host : String) (at : Time) (l : Ledger) (j : LedgerKey) where
  -- One, if the request's window of this kind is the row.
  abbrev share : BudgetWindowKind → ℕ
  share kind = only_if (request_window m host at kind == j) 1

  share-other : (kind : BudgetWindowKind) → j.kind ≢ kind → share kind ≡ 0
  share-other kind h =
      ap (λ b. only_if b 1)
        (other_kind (request_window m host at kind) j
          (λ same. h (sym (sym (kind_of_window m host at kind) ∙ same))))

  shares :
      ((usage (record_request m host at l) j).requests
        ≡ share BudgetWindowKind.total
          + share BudgetWindowKind.day
          + share BudgetWindowKind.hour
          + share BudgetWindowKind.minute
          + (usage l j).requests)
      × ((usage (record_request m host at l) j).tokens ≡ (usage l j).tokens)
  unfolding record_request
  shares =
      let one : BudgetUsage = record { requests = 1; tokens = 0 } in
      let key = request_window m host at in
      let l1 = consume (key BudgetWindowKind.minute) one l in
      let l2 = consume (key BudgetWindowKind.hour) one l1 in
      let l3 = consume (key BudgetWindowKind.day) one l2 in
      let a = usage-consume (key BudgetWindowKind.minute) j one l in
      let b = usage-consume (key BudgetWindowKind.hour) j one l1 in
      let c = usage-consume (key BudgetWindowKind.day) j one l2 in
      let d = usage-consume (key BudgetWindowKind.total) j one l3 in
      (omega (arith, a.0, b.0, c.0, d.0), ground (arith, a.1, b.1, c.1, d.1))

  share_alone :
      (kind : BudgetWindowKind)
      → j.kind ≡ kind
      → share BudgetWindowKind.total
          + share BudgetWindowKind.day
          + share BudgetWindowKind.hour
          + share BudgetWindowKind.minute
        ≡ share kind
  share_alone BudgetWindowKind.minute e = omega (
    arith,
    share-other BudgetWindowKind.hour (λ h. cc (e, h)),
    share-other BudgetWindowKind.day (λ h. cc (e, h)),
    share-other BudgetWindowKind.total (λ h. cc (e, h)),
  )
  share_alone BudgetWindowKind.hour e = omega (
    arith,
    share-other BudgetWindowKind.minute (λ h. cc (e, h)),
    share-other BudgetWindowKind.day (λ h. cc (e, h)),
    share-other BudgetWindowKind.total (λ h. cc (e, h)),
  )
  share_alone BudgetWindowKind.day e = omega (
    arith,
    share-other BudgetWindowKind.minute (λ h. cc (e, h)),
    share-other BudgetWindowKind.hour (λ h. cc (e, h)),
    share-other BudgetWindowKind.total (λ h. cc (e, h)),
  )
  share_alone BudgetWindowKind.total e = omega (
    arith,
    share-other BudgetWindowKind.minute (λ h. cc (e, h)),
    share-other BudgetWindowKind.hour (λ h. cc (e, h)),
    share-other BudgetWindowKind.day (λ h. cc (e, h)),
  )

  -- A request adds one to the row of each kind that it counts in, and to no other row.
  pub usage-record_request :
      ((usage (record_request m host at l) j).requests
        ≡ only_if (request_window m host at j.kind == j) 1 + (usage l j).requests)
      × ((usage (record_request m host at l) j).tokens ≡ (usage l j).tokens)
  usage-record_request = (omega (arith, shares.0, share_alone j.kind refl), shares.1)

-- Tokens add their number to the row of the day and the row of the lead, and to no other row.
pub usage-record_tokens :
    (m : Mission) (tokens : ℕ) (lead_key : String) (at : Time) (l : Ledger) (j : LedgerKey)
    → ((usage (record_tokens m tokens lead_key at l) j).tokens
        ≡ only_if (lead_tokens m lead_key == j) tokens
          + only_if (daily_tokens m at == j) tokens
          + (usage l j).tokens)
      × ((usage (record_tokens m tokens lead_key at l) j).requests ≡ (usage l j).requests)
unfolding record_tokens
usage-record_tokens m tokens lead_key at l j =
    let spent : BudgetUsage = record { requests = 0; tokens = tokens } in
    let a = usage-consume (daily_tokens m at) j spent l in
    let b = usage-consume (lead_tokens m lead_key) j spent (consume (daily_tokens m at) spent l) in
    (omega (arith, a.1, b.1), ground (arith, a.0, b.0))
