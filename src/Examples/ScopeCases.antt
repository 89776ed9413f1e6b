-- ===== src/Examples/ScopeCases.antt =====
-- Scope rules, tried.
use mathlib.Core.List.{mem-cons_of_mem}
use vuln_proof_claw.Common.{
  Bool, true, false, ◌≡◌, refl, ◌↔◌, ◌⊎◌, inl, inr, none, some, [], String,
}
use vuln_proof_claw.Policy.Scope.{
  EngagementScope, evaluate_scope, deny_reason, host_allowed, in_networks, is_ip, path_matches,
  wildcard_matches, not_started,
}
use vuln_proof_claw.Policy.Scope.Described.{InScope, evaluate_scope-InScope}
use vuln_proof_claw.Policy.Scope.Narrower.{Narrower, evaluate_scope_mono}
use vuln_proof_claw.Examples.{target, no_addresses, scope}

evaluate_scope-InScope_example :
    ((evaluate_scope no_addresses target scope 200).allowed ≡ true)
    ↔ InScope no_addresses target scope 200
evaluate_scope-InScope_example = evaluate_scope-InScope no_addresses target scope 200

-- The scope without its deny rule and its end.
abbrev wider : EngagementScope String
wider = record scope { denied_paths = []; valid_until = none }

narrower : Narrower no_addresses scope wider
narrower = record {
  hostnames = λ x i. i;
  wildcards = λ x i. i;
  networks = λ x i. i;
  ports = λ x i. i;
  schemes = λ x i. i;
  paths = λ x i. i;
  no_hostnames = λ x i. i;
  no_wildcards = λ x i. i;
  no_networks = λ x i. i;
  no_paths = λ x i. mem-cons_of_mem "/admin" i;
  starts = λ at. same_start (not_started (some 100) at);
  ends = λ at. inl refl;
}
  where
    same_start : (b : Bool) → (b ≡ false) ⊎ (b ≡ true)
    same_start true = inr refl
    same_start false = inl refl

evaluate_scope_mono_example : (evaluate_scope no_addresses target wider 200).allowed ≡ true
unfolding evaluate_scope deny_reason host_allowed in_networks is_ip path_matches wildcard_matches
evaluate_scope_mono_example = evaluate_scope_mono no_addresses target 200 narrower refl
