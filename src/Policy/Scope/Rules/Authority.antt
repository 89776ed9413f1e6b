-- ===== src/Policy/Scope/Rules/Authority.antt =====
-- What the rules say of a target that policy/scope.py allows: `EngagementScope.create` and
-- `evaluate_scope` together.
use mathlib.Core.List.{Mem}
use vuln_proof_claw.Common.{
  ℕ, true, false, ◌≡◌, ◌≤◌, ◌⊎◌, inl, inr, ap, sym, ◌∙◌, List, ◌∷◌, String, any, contains, nat_eq,
  string_eq, arith, ◌==◌, eq_iff, Bool-cases, Option-cases, refl, Eq, [], nat_beq_iff,
}
use vuln_proof_claw.Common.Results.{ok}
use vuln_proof_claw.Domain.Errors.{Time}
use vuln_proof_claw.Policy.Scope.{
  IpLibrary, NormalizedTarget, EngagementScope, evaluate_scope, path_matches, wildcard_matches,
  in_networks, host_allowed,
}
use vuln_proof_claw.Policy.Scope.Allowed.{evaluate_scope-Passes}
use vuln_proof_claw.Policy.Scope.Paths.{normalize_path}
use vuln_proof_claw.Policy.Scope.Paths.Confined.{IsConfined, normalize_path-IsConfined}
use vuln_proof_claw.Policy.Scope.Paths.Below.{path_matches-IsConfined}
use vuln_proof_claw.Policy.Scope.Rules.{
  RuleLibrary, ScopeRules, create, normalize_port, normalize_scheme, normalize_network,
  normalize_hostname, normalize_wildcard,
}
use vuln_proof_claw.Policy.Scope.Rules.Normal.{
  IsScheme, normalize_port-in_range, normalize_scheme-IsScheme,
}
use vuln_proof_claw.Policy.Scope.Rules.Each.{any-normalize_each, any-normalize_each-false}
use vuln_proof_claw.Policy.Scope.Rules.Created.{IsMade, create-IsMade}
use vuln_proof_claw.Policy.Scope.Rules.Delegated.{
  LiesBelow, IsCovered, IsWithin, IsReached, IsDelegated, wildcard_matches-IsCovered, uncovered,
}

contains-any : {A : Type 0} ⦃e : Eq A⦄ (xs : List A) (a : A) → contains xs a ≡ any (λ x. a == x) xs
contains-any [] a = refl
contains-any (x ∷ xs) a = ground (arith, contains-any xs a)

module _ (ip : IpLibrary) (library : RuleLibrary ip.Network) where
  module _ (rules : ScopeRules) (t : NormalizedTarget) (p : IsConfined t.path)
      {s : EngagementScope ip.Network} (made : IsMade library rules s) where
    path_below :
        any (path_matches t.path) s.allowed_paths ≡ true
        → (rule : String) × Mem rule rules.allowed_paths × LiesBelow p rule
    path_below h =
        let (rule, member, prefix, given, matched) =
          any-normalize_each normalize_path (path_matches t.path) rules.allowed_paths
            made.allowed_paths h in
        let q = normalize_path-IsConfined rule given in
        let (rest, e) = (path_matches-IsConfined t.path prefix p q).0 matched in
        (rule, member, (prefix, given, q, rest, e))

    path_not_below :
        any (path_matches t.path) s.denied_paths ≡ false
        → (rule : String) → Mem rule rules.denied_paths
        → ¬ LiesBelow p rule
    path_not_below h rule member (prefix, given, q, rest, e) =
        let missed =
          any-normalize_each-false normalize_path (path_matches t.path) rules.denied_paths
            made.denied_paths h member given in
        cc ((path_matches-IsConfined t.path prefix p q).1 (rest, e), missed)

    network_inside :
        in_networks ip t.host s.allowed_networks ≡ true
        → (rule : String) × Mem rule rules.allowed_cidrs × IsWithin ip library t.host rule
    unfolding in_networks
    network_inside h = elim (Option-cases (ip.ip_address t.host)) [
      | inl no_address ↦ cc (rw (no_address, in_networks) at h)
      | inr (address, found) ↦
          let (rule, member, network, given, inside) =
            any-normalize_each (normalize_network library) (ip.within address) rules.allowed_cidrs
              made.allowed_networks (rw (found, in_networks) at h) in
          (rule, member, (network, given, address, found, inside))
    ]

    network_outside :
        in_networks ip t.host s.denied_networks ≡ false
        → (rule : String) → Mem rule rules.denied_cidrs
        → ¬ IsWithin ip library t.host rule
    unfolding in_networks
    network_outside h rule member (network, given, address, found, inside) =
        let missed =
          any-normalize_each-false (normalize_network library) (ip.within address)
            rules.denied_cidrs made.denied_networks (rw (found, in_networks) at h) member given in
        cc (missed, inside)

    host_named :
        contains s.allowed_hostnames t.host ≡ true
        → (rule : String) × Mem rule rules.allowed_hostnames
          × (normalize_hostname library rule ≡ ok t.host)
    host_named h =
        let (rule, member, host, given, same) =
          any-normalize_each (normalize_hostname library) (λ x. t.host == x) rules.allowed_hostnames
            made.allowed_hostnames (sym (contains-any s.allowed_hostnames t.host) ∙ h) in
        (rule, member, given ∙ ap ok (sym ((eq_iff t.host host).0 same)))

    wildcard_allowed :
        any (wildcard_matches t.host) s.allowed_wildcards ≡ true
        → (rule : String) × Mem rule rules.allowed_wildcards × IsCovered ip library t.host rule
    wildcard_allowed h =
        let (rule, member, wildcard, given, matched) =
          any-normalize_each (normalize_wildcard library) (wildcard_matches t.host)
            rules.allowed_wildcards made.allowed_wildcards h in
        (rule, member, wildcard_matches-IsCovered ip library t.host rule wildcard given matched)

    reached :
        ((host_allowed ip t s ≡ true) ⊎ (in_networks ip t.host s.allowed_networks ≡ true))
        → IsReached ip library rules t
    unfolding host_allowed
    reached (inr network) = inr (inr (network_inside network))
    reached (inl h) = elim (Bool-cases (contains s.allowed_hostnames t.host)) [
      | inl named ↦ inl (host_named named)
      | inr unnamed ↦
          let (rule, member, covered) = wildcard_allowed (ground (arith, h)) in
          inr (inl (ground (arith, h), rule, member, covered))
    ]

    scheme_allowed :
        contains s.allowed_schemes t.scheme ≡ true
        → (rule : String) × Mem rule rules.allowed_schemes
          × (normalize_scheme library rule ≡ ok t.scheme)
          × IsScheme library t.scheme
    scheme_allowed h =
        let (rule, member, scheme, given, same) =
          any-normalize_each (normalize_scheme library) (λ x. t.scheme == x) rules.allowed_schemes
            made.allowed_schemes (sym (contains-any s.allowed_schemes t.scheme) ∙ h) in
        let given_too = given ∙ ap ok (sym ((eq_iff t.scheme scheme).0 same)) in
        (rule, member, given_too, normalize_scheme-IsScheme library rule given_too)

    port_allowed :
        contains s.allowed_ports t.port ≡ true
        → (rule : ℕ) × Mem rule rules.allowed_ports
          × (normalize_port rule ≡ ok t.port)
          × (1 ≤ t.port)
          × (t.port ≤ 65535)
    port_allowed h =
        let (rule, member, port, given, same) =
          any-normalize_each normalize_port (λ x. t.port == x) rules.allowed_ports
            made.allowed_ports (sym (contains-any s.allowed_ports t.port) ∙ h) in
        let given_too = given ∙ ap ok (sym ((nat_beq_iff t.port port).0 same)) in
        let (low, high) = normalize_port-in_range rule given_too in
        (rule, member, given_too, low, high)

    host_unnamed :
        contains s.denied_hostnames t.host ≡ false
        → (rule : String) → Mem rule rules.denied_hostnames
        → ¬ (normalize_hostname library rule ≡ ok t.host)
    host_unnamed h rule member given =
        let missed =
          any-normalize_each-false (normalize_hostname library) (λ x. t.host == x)
            rules.denied_hostnames made.denied_hostnames
            (sym (contains-any s.denied_hostnames t.host) ∙ h) member given in
        cc ((eq_iff t.host t.host).1 refl, missed)

    host_uncovered :
        any (wildcard_matches t.host) s.denied_wildcards ≡ false
        → (rule : String) → Mem rule rules.denied_wildcards
        → ¬ IsCovered ip library t.host rule
    host_uncovered h rule member covered =
        let missed =
          any-normalize_each-false (normalize_wildcard library) (wildcard_matches t.host)
            rules.denied_wildcards made.denied_wildcards h member covered.1 in
        uncovered ip library t.host rule covered.1 missed covered

  -- A target with a confined path is let through only by the rules as the operator wrote them. Some
  -- rule's normal form is its scheme, which is http or https, and some rule its port, which lies between
  -- 1 and 65535. Its path lies in a directory that an allowed path names, and in none that a denied path
  -- names. Some rule lets the host through: a hostname by its normal form, a network by an address in
  -- it, or, for a host that is no address, a wildcard of which it is a strict subdomain, whose base has
  -- two labels at least and is no public suffix. And no denied hostname, wildcard or network is about it.
  pub evaluate_scope-create :
      (rules : ScopeRules) (t : NormalizedTarget) (at : Time) (p : IsConfined t.path)
      {s : EngagementScope ip.Network}
      → create library rules ≡ ok s
      → (evaluate_scope ip t s at).allowed ≡ true
      → IsDelegated ip library rules t p
  evaluate_scope-create rules t at p {s} h allowed =
      let made = create-IsMade library rules h in
      let i = (evaluate_scope-Passes ip t s at).0.0 allowed in
      record {
        scheme = scheme_allowed rules t p made i.scheme;
        port = port_allowed rules t p made i.port;
        path = path_below rules t p made i.path;
        path_undenied = path_not_below rules t p made i.path_undenied;
        host = reached rules t p made i.reachable;
        host_undenied = host_unnamed rules t p made i.host_undenied;
        wildcard_undenied = host_uncovered rules t p made i.wildcard_undenied;
        network_undenied = network_outside rules t p made i.network_undenied;
      }
