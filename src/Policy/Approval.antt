-- ===== src/Policy/Approval.antt =====
-- policy/approval.py: an approval is checked against the exact action and consumed once per start.
pub mod Use
use vuln_proof_claw.Common.{ℕ, ◌+◌, not}
use vuln_proof_claw.Common.Results.{ok, raise_if, ◌>>◌}
use vuln_proof_claw.Domain.Errors.{Time, Raises, invalid_approval}
use vuln_proof_claw.Domain.Models.{Action, Approval, authorizes, validate_approval_record}

unfoldable pub validate_approval : Approval → Action → Time → Raises (Unit {0})
validate_approval p a at = raise_if (not (authorizes p a at)) invalid_approval

-- The approval with one more execution consumed, as `replace` sets it.
abbrev pub used : Approval → Approval
used p = record p { consumed_executions = p.consumed_executions + 1 }

unfoldable pub consume_approval : Approval → Action → Time → Raises Approval
consume_approval p a at = do validate_approval p a at; validate_approval_record (used p)
