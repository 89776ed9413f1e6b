-- ===== src/Policy/Scope/Rules/Created.antt =====
-- The scope that `EngagementScope.create` of policy/scope.py gives, rule by rule.
use vuln_proof_claw.Common.{false, ◌≡◌, subst}
use vuln_proof_claw.Common.Results.{ok, ok_inj, >>=-eq-ok}
use vuln_proof_claw.Domain.Errors.{refuse_if-eq-ok}
use vuln_proof_claw.Policy.Scope.{EngagementScope}
use vuln_proof_claw.Policy.Scope.Paths.{normalize_path}
use vuln_proof_claw.Policy.Scope.Rules.{
  RuleLibrary, ScopeRules, create, normalize_each, is_reversed, normalize_port, normalize_scheme,
  normalize_network, normalize_hostname, normalize_wildcard,
}

module _ {Network : Type 0} (library : RuleLibrary Network) where
  pub record IsMade (rules : ScopeRules) (s : EngagementScope Network) : Type 0 where
    pub in_order : is_reversed s.valid_from s.valid_until ≡ false
    pub allowed_hostnames :
        normalize_each (normalize_hostname library) rules.allowed_hostnames ≡ ok s.allowed_hostnames
    pub allowed_networks :
        normalize_each (normalize_network library) rules.allowed_cidrs ≡ ok s.allowed_networks
    pub allowed_ports : normalize_each normalize_port rules.allowed_ports ≡ ok s.allowed_ports
    pub allowed_schemes :
        normalize_each (normalize_scheme library) rules.allowed_schemes ≡ ok s.allowed_schemes
    pub allowed_paths : normalize_each normalize_path rules.allowed_paths ≡ ok s.allowed_paths
    pub denied_hostnames :
        normalize_each (normalize_hostname library) rules.denied_hostnames ≡ ok s.denied_hostnames
    pub denied_networks :
        normalize_each (normalize_network library) rules.denied_cidrs ≡ ok s.denied_networks
    pub denied_paths : normalize_each normalize_path rules.denied_paths ≡ ok s.denied_paths
    pub allowed_wildcards :
        normalize_each (normalize_wildcard library) rules.allowed_wildcards ≡ ok s.allowed_wildcards
    pub denied_wildcards :
        normalize_each (normalize_wildcard library) rules.denied_wildcards ≡ ok s.denied_wildcards

  -- Every list of a created scope holds what its rules normalize to, and nothing else.
  pub create-IsMade :
      (rules : ScopeRules) {s : EngagementScope Network}
      → create library rules ≡ ok s
      → IsMade rules s
  unfolding create
  create-IsMade rules {s} h =
      let (in_order, h0) =
        refuse_if-eq-ok (is_reversed rules.valid_from rules.valid_until)
          "valid_until must be later than valid_from" _ h in
      let (_, e1, h1) =
        >>=-eq-ok (normalize_each (normalize_hostname library) rules.allowed_hostnames) _ h0 in
      let (_, e2, h2) =
        >>=-eq-ok (normalize_each (normalize_network library) rules.allowed_cidrs) _ h1 in
      let (_, e3, h3) = >>=-eq-ok (normalize_each normalize_port rules.allowed_ports) _ h2 in
      let (_, e4, h4) =
        >>=-eq-ok (normalize_each (normalize_scheme library) rules.allowed_schemes) _ h3 in
      let (_, e5, h5) = >>=-eq-ok (normalize_each normalize_path rules.allowed_paths) _ h4 in
      let (_, e6, h6) =
        >>=-eq-ok (normalize_each (normalize_hostname library) rules.denied_hostnames) _ h5 in
      let (_, e7, h7) =
        >>=-eq-ok (normalize_each (normalize_network library) rules.denied_cidrs) _ h6 in
      let (_, e8, h8) = >>=-eq-ok (normalize_each normalize_path rules.denied_paths) _ h7 in
      let (_, e9, h9) =
        >>=-eq-ok (normalize_each (normalize_wildcard library) rules.allowed_wildcards) _ h8 in
      let (_, e10, h10) =
        >>=-eq-ok (normalize_each (normalize_wildcard library) rules.denied_wildcards) _ h9 in
      subst (IsMade rules) (ok_inj h10) (record {
        in_order = in_order;
        allowed_hostnames = e1;
        allowed_networks = e2;
        allowed_ports = e3;
        allowed_schemes = e4;
        allowed_paths = e5;
        denied_hostnames = e6;
        denied_networks = e7;
        denied_paths = e8;
        allowed_wildcards = e9;
        denied_wildcards = e10;
      })
