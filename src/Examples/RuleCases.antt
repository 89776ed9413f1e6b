-- ===== src/Examples/RuleCases.antt =====
-- Scope rules as an operator writes them, tried.
use vuln_proof_claw.Common.{◌≡◌, refl, some, [], ◌∷◌, String, chars}
use vuln_proof_claw.Common.Results.{ok, err}
use vuln_proof_claw.Domain.Errors.{domain_validation}
use vuln_proof_claw.Policy.Scope.{
  NormalizedTarget, EngagementScope, evaluate_scope, deny_reason, host_allowed, in_networks, is_ip,
  path_matches, wildcard_matches,
}
use vuln_proof_claw.Policy.Scope.Paths.{normalize_path}
use vuln_proof_claw.Policy.Scope.Paths.Confined.{IsConfined}
use vuln_proof_claw.Policy.Scope.Rules.{ScopeRules, create, normalize_hostname, normalize_wildcard}
use vuln_proof_claw.Policy.Scope.Rules.Delegated.{IsDelegated}
use vuln_proof_claw.Policy.Scope.Rules.Authority.{evaluate_scope-create}
use vuln_proof_claw.Examples.{no_addresses, rule_library, lower_char}

wildcard : normalize_wildcard rule_library " *.Example.COM. " ≡ ok "*.example.com"
unfolding normalize_wildcard normalize_hostname lower_char
wildcard = refl

suffix :
    normalize_wildcard rule_library "*.co.uk"
    ≡ err (domain_validation "wildcard base must not be a public suffix")
unfolding normalize_wildcard normalize_hostname lower_char
suffix = refl

hyphen :
    normalize_hostname rule_library "-a.example.com"
    ≡ err (domain_validation "hostname contains an invalid label")
unfolding normalize_hostname lower_char
hyphen = refl

abbrev rules : ScopeRules
rules = record {
  allowed_hostnames = [];
  allowed_cidrs = [];
  allowed_ports = 443 ∷ [];
  allowed_schemes = " HTTPS" ∷ [];
  allowed_paths = "/api/" ∷ [];
  denied_hostnames = "mail.example.com." ∷ [];
  denied_cidrs = [];
  denied_paths = "/api/x/../%61dmin" ∷ [];
  allowed_wildcards = "*.example.com" ∷ [];
  denied_wildcards = [];
  valid_from = some 100;
  valid_until = some 1000;
}

abbrev made : EngagementScope String
made = record {
  allowed_hostnames = [];
  allowed_networks = [];
  allowed_ports = 443 ∷ [];
  allowed_schemes = "https" ∷ [];
  allowed_paths = "/api" ∷ [];
  denied_hostnames = "mail.example.com" ∷ [];
  denied_networks = [];
  denied_paths = "/api/admin" ∷ [];
  allowed_wildcards = "*.example.com" ∷ [];
  denied_wildcards = [];
  valid_from = some 100;
  valid_until = some 1000;
}

created : create rule_library rules ≡ ok made
unfolding create lower_char normalize_path
created = refl

abbrev page : NormalizedTarget
page = record { scheme = "https"; host = "www.example.com"; port = 443; path = "/api/v1" }

confined : IsConfined "/api/v1"
confined = record { segments = chars "api" ∷ chars "v1" ∷ []; proper = refl; spelled = refl }

evaluate_scope-create_example : IsDelegated no_addresses rule_library rules page confined
unfolding evaluate_scope deny_reason host_allowed in_networks is_ip path_matches wildcard_matches
evaluate_scope-create_example =
    evaluate_scope-create no_addresses rule_library rules page 200 confined created refl
