-- ===== src/Policy/Scope/Rules/Delegated.antt =====
-- What an operator's rules, as `EngagementScope.create` of policy/scope.py takes them, say of a target.
use mathlib.Core.List.{Mem}
use vuln_proof_claw.Common.{
  ℕ, true, false, ◌≡◌, ◌≤◌, ◌⊎◌, ap, sym, ◌∙◌, List, ◌∷◌, ◌++◌, some, String, nat_eq, string_eq,
  codes, drop,
}
use vuln_proof_claw.Common.Results.{ok, ok_inj}
use Prim.Native.Char.{Char, code}
use Prim.Native.String.{◌++◌ as str_append}
use text.Mathlib.TextLemmas.{nil-append, cons-append}
use vuln_proof_claw.Policy.Scope.{IpLibrary, NormalizedTarget, wildcard_matches, is_ip}
use vuln_proof_claw.Policy.Scope.Matching.{wildcard_matches-strict}
use vuln_proof_claw.Policy.Scope.Paths.{normalize_path}
use vuln_proof_claw.Policy.Scope.Paths.Confined.{IsConfined}
use vuln_proof_claw.Policy.Scope.Rules.{
  RuleLibrary, ScopeRules, normalize_port, normalize_scheme, normalize_network, normalize_hostname,
  normalize_wildcard,
}
use vuln_proof_claw.Policy.Scope.Rules.Normal.{IsWildcard, IsScheme, normalize_wildcard-IsWildcard}

codes-append : (s t : String) → codes (str_append s t) ≡ codes s ++ codes t
codes-append String.[] t = ap codes (nil-append t)
codes-append (String.◌∷◌ c s) t =
    ap codes (cons-append c s t) ∙ ap (λ cs. code c ∷ cs) (codes-append s t)

-- The path lies in the directory that the rule names.
abbrev pub LiesBelow : {path : String} → IsConfined path → String → Type 0
LiesBelow p rule =
    (prefix : String) × (normalize_path rule ≡ ok prefix)
    × (q : IsConfined prefix) × (rest : List (List Char)) × (p.segments ≡ q.segments ++ rest)

module _ (ip : IpLibrary) (library : RuleLibrary ip.Network) where
  -- The host is a strict subdomain of the rule's base, which is a wildcard's: of two labels at least and
  -- no public suffix.
  abbrev pub IsCovered : String → String → Type 0
  IsCovered host rule =
      (made : String) × (normalize_wildcard library rule ≡ ok made)
      × (w : IsWildcard library made) × (front : List ℕ) × (codes host
          ≡ front ++ b'.' ∷ codes w.base)

  -- The host is an address in the network that the rule names.
  abbrev pub IsWithin : String → String → Type 0
  IsWithin host rule =
      (network : ip.Network) × (normalize_network library rule ≡ ok network)
      × (address : ip.Address) × (ip.ip_address host ≡ some address)
      × (ip.within address network ≡ true)

  base_of_wildcard :
      (rule : String) (w : IsWildcard library rule) → drop 2 (codes rule) ≡ codes w.base
  base_of_wildcard rule w =
      ap (λ r. drop 2 (codes r)) w.spelled ∙ ap (drop 2) (codes-append "*." w.base)

  pub wildcard_matches-IsCovered :
      (host rule made : String)
      → normalize_wildcard library rule ≡ ok made
      → wildcard_matches host made ≡ true
      → IsCovered host rule
  wildcard_matches-IsCovered host rule made given h =
      let w = normalize_wildcard-IsWildcard library rule given in
      let (front, e) = (wildcard_matches-strict host made).0.0 h in
      (made, given, w, front, e ∙ ap (λ cs. front ++ b'.' ∷ cs) (base_of_wildcard made w))

  pub uncovered :
      (host rule : String) {made : String}
      → normalize_wildcard library rule ≡ ok made
      → wildcard_matches host made ≡ false
      → ¬ IsCovered host rule
  uncovered host rule {made} given h (other, given_too, w, front, e) =
      let same : other ≡ made = ok_inj (sym given_too ∙ given) in
      let base : codes w.base ≡ drop 2 (codes made) =
        sym (base_of_wildcard other w) ∙ ap (λ r. drop 2 (codes r)) same in
      let matched : wildcard_matches host made ≡ true =
        (wildcard_matches-strict host made).0.1 (front, e ∙ ap (λ cs. front ++ b'.' ∷ cs) base) in
      cc (matched, h)

  -- Some rule lets the host through.
  abbrev pub IsReached : ScopeRules → NormalizedTarget → Type 0
  IsReached rules t =
      ((rule : String) × Mem rule rules.allowed_hostnames
        × (normalize_hostname library rule ≡ ok t.host))
      ⊎ (((is_ip ip t ≡ false)
            × (rule : String) × Mem rule rules.allowed_wildcards
            × IsCovered t.host rule)
          ⊎ ((rule : String) × Mem rule rules.allowed_cidrs × IsWithin t.host rule))

  pub record IsDelegated (rules : ScopeRules) (t : NormalizedTarget) (p : IsConfined t.path)
      : Type 0 where
    pub scheme :
        (rule : String) × Mem rule rules.allowed_schemes
        × (normalize_scheme library rule ≡ ok t.scheme)
        × IsScheme library t.scheme
    pub port :
        (rule : ℕ) × Mem rule rules.allowed_ports
        × (normalize_port rule ≡ ok t.port)
        × (1 ≤ t.port)
        × (t.port ≤ 65535)
    pub path : (rule : String) × Mem rule rules.allowed_paths × LiesBelow p rule
    pub path_undenied : (rule : String) → Mem rule rules.denied_paths → ¬ LiesBelow p rule
    pub host : IsReached rules t
    pub host_undenied :
        (rule : String)
        → Mem rule rules.denied_hostnames
        → ¬ (normalize_hostname library rule ≡ ok t.host)
    pub wildcard_undenied :
        (rule : String) → Mem rule rules.denied_wildcards → ¬ IsCovered t.host rule
    pub network_undenied : (rule : String) → Mem rule rules.denied_cidrs → ¬ IsWithin t.host rule
