-- ===== src/Examples/AgentCases.antt =====
-- Budgets and schedules, tried.
use vuln_proof_claw.Common.{◌≤◌, refl, []}
use vuln_proof_claw.Agent.Budget.{
  BudgetWindowKind, Ledger, LedgerKey, usage, request_window, permits_request, record_request,
}
use vuln_proof_claw.Agent.Budget.Ceilings.{Spending, nothing, request, Spending-requests_le}
use vuln_proof_claw.Examples.{mission}

abbrev after_request : Ledger
after_request = record_request mission "example.com" 100 []

one_request : Spending mission after_request
unfolding permits_request usage
one_request = request "example.com" 100 nothing refl

abbrev minute_row : LedgerKey
minute_row = request_window mission "example.com" 100 BudgetWindowKind.minute

Spending-requests_le_example : (usage after_request minute_row).requests ≤ 10
Spending-requests_le_example = Spending-requests_le mission one_request minute_row
