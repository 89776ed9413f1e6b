-- ===== src/Policy/Scope/Allowed.antt =====
-- The tests that a target passes if `evaluate_scope` of policy/scope.py allows it.
use vuln_proof_claw.Common.{
  true, false, ◌≡◌, ◌↔◌, ◌⊎◌, inl, inr, none, arith, any, contains, not, nat_eq, string_eq,
  Option-cases,
}
use vuln_proof_claw.Domain.Errors.{Time}
use vuln_proof_claw.Policy.Scope.{
  IpLibrary, NormalizedTarget, EngagementScope, wildcard_matches, path_matches, not_started,
  expired, in_networks, is_ip, host_allowed, deny_reason, decision_of, evaluate_scope,
}

module _ (ip : IpLibrary) where
  open ip use {Network, ip_address, within}

  -- Every test that would give a reason to deny fails.
  pub record Passes (t : NormalizedTarget) (s : EngagementScope Network) (at : Time) : Type 0 where
    pub started : not_started s.valid_from at ≡ false
    pub unexpired : expired s.valid_until at ≡ false
    pub scheme : contains s.allowed_schemes t.scheme ≡ true
    pub port : contains s.allowed_ports t.port ≡ true
    pub host_undenied : contains s.denied_hostnames t.host ≡ false
    pub wildcard_undenied : any (wildcard_matches t.host) s.denied_wildcards ≡ false
    pub network_undenied : in_networks ip t.host s.denied_networks ≡ false
    pub path_undenied : any (path_matches t.path) s.denied_paths ≡ false
    pub reachable : (host_allowed ip t s ≡ true) ⊎ (in_networks ip t.host s.allowed_networks ≡ true)
    pub path : any (path_matches t.path) s.allowed_paths ≡ true

  deny_reason-none :
      (t : NormalizedTarget) (s : EngagementScope Network) (at : Time)
      → (deny_reason ip t s at ≡ none) ↔ Passes t s at
  unfolding deny_reason
  deny_reason-none t s at = (λ h. ground arith, λ h. ground arith)

  -- A target is allowed exactly if it passes; and what else the decision says.
  pub evaluate_scope-Passes :
      (t : NormalizedTarget) (s : EngagementScope Network) (at : Time)
      → (((evaluate_scope ip t s at).allowed ≡ true) ↔ Passes t s at)
        × (((evaluate_scope ip t s at).allowed ≡ false)
            ⊎ ((evaluate_scope ip t s at).reason ≡ "scope_allowed"))
        × ((evaluate_scope ip t s at).target ≡ t)
        × ((evaluate_scope ip t s at).requires_dns_recheck ≡ not (is_ip ip t))
  unfolding evaluate_scope
  evaluate_scope-Passes t s at = elim (Option-cases (deny_reason ip t s at)) [
    | inl clear ↦ (
      (λ h. (deny_reason-none t s at).0 clear, λ h. rw (clear, decision_of)),
      inr (rw (clear, decision_of)),
      rw (clear, decision_of),
      rw (clear, decision_of),
    )
    | inr (reason, denied) ↦ (
      (λ h. cc (rw (denied, decision_of) at h), λ h. cc (denied, (deny_reason-none t s at).1 h)),
      inl (rw (denied, decision_of)),
      rw (denied, decision_of),
      rw (denied, decision_of),
    )
  ]
