-- ===== src/Policy/Effort.antt =====
-- policy/effort.py: the reasoning effort and the output budget of an action, by its risk.
use vuln_proof_claw.Common.{ℕ, ◌≤◌, arith, String}
use vuln_proof_claw.Common.Unicode.{Unicode}
use vuln_proof_claw.Common.Results.{ok, ◌>>=◌}
use vuln_proof_claw.Domain.Enums.{RiskLevel, EffortLevel}
use vuln_proof_claw.Domain.Errors.{Raises}
use vuln_proof_claw.Policy.Risk.{classify_risk}
use vuln_proof_claw.Policy.Decision.{risk_rank}

-- `MINIMUM_OUTPUT_TOKENS`
abbrev pub minimum_output_tokens : ℕ
minimum_output_tokens = 4_000

pub record EffortBudget : Type 0 where
  pub effort : EffortLevel
  pub max_output_tokens : ℕ

-- `RISK_EFFORT`
unfoldable pub budget_for_risk : RiskLevel → EffortBudget
budget_for_risk RiskLevel.l0 = record { effort = EffortLevel.low; max_output_tokens = 8_000 }
budget_for_risk RiskLevel.l1 = record { effort = EffortLevel.medium; max_output_tokens = 16_000 }
budget_for_risk RiskLevel.l2 = record { effort = EffortLevel.high; max_output_tokens = 24_000 }
budget_for_risk RiskLevel.l3 = record { effort = EffortLevel.high; max_output_tokens = 32_000 }
budget_for_risk RiskLevel.l4 = record { effort = EffortLevel.xhigh; max_output_tokens = 32_000 }

unfoldable pub budget_for_action : Unicode → String → Raises EffortBudget
budget_for_action unicode action_type = do
  level ← classify_risk unicode action_type
  ok (budget_for_risk level)

-- No risk level gets fewer output tokens than a lower one, and each gets the minimum that
-- `EffortBudget` asks for.
budget_for_risk_mono :
    (a b : RiskLevel)
    → risk_rank a ≤ risk_rank b
    → ((budget_for_risk a).max_output_tokens ≤ (budget_for_risk b).max_output_tokens)
      × (minimum_output_tokens ≤ (budget_for_risk a).max_output_tokens)
unfolding budget_for_risk risk_rank
budget_for_risk_mono a b h = ground arith
