-- ===== src/Agent/Budget/Requests.antt =====
-- When a request is permitted, and what it takes from its windows.
use vuln_proof_claw.Common.{ℕ, ◌+◌, ◌-◌, ◌<◌, min, true, ◌≡◌, ◌↔◌, arith, ◌==◌, String, ap, ◌∙◌}
use vuln_proof_claw.Domain.Errors.{Time}
use vuln_proof_claw.Domain.Autonomous.{Mission}
use vuln_proof_claw.Agent.Budget.{
  BudgetWindowKind, ledger_key_eq, key_beq_iff, Ledger, request_window, ceiling, requests_in,
  permits_request, remaining_requests, headroom, left_in, record_request,
}
use vuln_proof_claw.Agent.Budget.Ledger.{only_if, usage-record_request, kind_of_window}

ap_min : {a b : ℕ} (c d : ℕ) → a ≡ c - 1 → b ≡ d - 1 → min a b ≡ min c d - 1
ap_min c d e f = omega (arith, e, f)

module _ (m : Mission) (host : String) (at : Time) (l : Ledger) where
  -- Every window has room for one more.
  abbrev pub HasRoom : Type 0
  HasRoom = (kind : BudgetWindowKind) → requests_in m host at l kind < ceiling m.budget kind

  permitted-HasRoom : (permits_request m host at l).allowed ≡ true → HasRoom
  unfolding permits_request
  permitted-HasRoom h BudgetWindowKind.minute = ground arith
  permitted-HasRoom h BudgetWindowKind.hour = ground arith
  permitted-HasRoom h BudgetWindowKind.day = ground arith
  permitted-HasRoom h BudgetWindowKind.total = ground arith

  -- A request is permitted exactly if every window has room for it.
  pub permits_request-HasRoom : ((permits_request m host at l).allowed ≡ true) ↔ HasRoom
  unfolding permits_request
  permits_request-HasRoom = (
    permitted-HasRoom,
    λ room. ground (
      arith,
      room BudgetWindowKind.minute,
      room BudgetWindowKind.hour,
      room BudgetWindowKind.day,
      room BudgetWindowKind.total,
    ),
  )

  remaining-HasRoom : 0 < remaining_requests m host at l → HasRoom
  unfolding remaining_requests headroom
  remaining-HasRoom h BudgetWindowKind.minute = omega (arith, h)
  remaining-HasRoom h BudgetWindowKind.hour = omega (arith, h)
  remaining-HasRoom h BudgetWindowKind.day = omega (arith, h)
  remaining-HasRoom h BudgetWindowKind.total = omega (arith, h)

  -- `remaining_requests` is above zero exactly if `permits_request` allows a request to the same
  -- host at the same time.
  remaining_requests-permits_request :
      (0 < remaining_requests m host at l) ↔ ((permits_request m host at l).allowed ≡ true)
  unfolding remaining_requests headroom
  remaining_requests-permits_request = (
    λ h. permits_request-HasRoom.1 (remaining-HasRoom h),
    λ h.
        let room = permits_request-HasRoom.0 h in
        omega (
          arith,
          room BudgetWindowKind.minute,
          room BudgetWindowKind.hour,
          room BudgetWindowKind.day,
          room BudgetWindowKind.total,
        ),
  )

  requests-record_request :
      (kind : BudgetWindowKind)
      → requests_in m host at (record_request m host at l) kind ≡ 1 + requests_in m host at l kind
  requests-record_request kind =
      let own = request_window m host at kind in
      let same : (request_window m host at own.kind == own) ≡ true =
        (key_beq_iff (request_window m host at own.kind) own).1
          (ap (request_window m host at) (kind_of_window m host at kind)) in
      (usage-record_request m host at l own).0
      ∙ ap (λ b. only_if b 1 + requests_in m host at l kind) same

  left-record_request :
      (kind : BudgetWindowKind)
      → left_in m host at (record_request m host at l) kind ≡ left_in m host at l kind - 1
  left-record_request kind = omega (arith, requests-record_request kind)

  -- Recording a request lowers by one what `remaining_requests` gives for the same host and time,
  -- down to zero.
  pub remaining_requests-record_request :
      remaining_requests m host at (record_request m host at l) ≡ remaining_requests m host at l - 1
  unfolding remaining_requests headroom
  remaining_requests-record_request = ap_min _ _ (left-record_request BudgetWindowKind.minute) (
      ap_min _ _ (left-record_request BudgetWindowKind.hour) (
        ap_min _ _ (left-record_request BudgetWindowKind.day)
          (left-record_request BudgetWindowKind.total)))
