-- ===== src/Policy/Scope.antt =====
-- policy/scope.py: the default-deny evaluation of a normalized target against an engagement's scope.
-- Addresses and networks are those of Python's `ipaddress`.
pub mod Paths
pub mod Rules
pub mod Targets
pub mod Queries
pub mod Matching
pub mod Allowed
pub mod Described
pub mod Narrower
use vuln_proof_claw.Common.{
  ℕ, suc, zero, ◌+◌, ◌/◌, ◌%◌, Bool, true, false, ◌&&◌, ◌||◌, not, Option, none, some, List, [],
  ◌∷◌, ◌++◌, any, contains, ◌==◌, nat_eq, string_eq, ltb, leb, is_some, codes, codes_beq,
  starts_with, ends_with, drop, nat_beq, if◌then◌else◌, String,
}
use vuln_proof_claw.Common.Results.{ok, ◌>>=◌}
use vuln_proof_claw.Domain.Errors.{Time, Raises}

-- What the code uses of the module `ipaddress`.
pub record IpLibrary : Type 1 where
  pub Address : Type 0
  pub Network : Type 0
  -- `ip_address(text)`, or `none` where it raises ValueError
  pub ip_address : String → Option Address
  -- `address in network`
  pub within : Address → Network → Bool

-- `_wildcard_matches`: the rule's text behind its first two characters, with a dot in front.
unfoldable pub wildcard_matches : String → String → Bool
wildcard_matches host rule = ends_with (b'.' ∷ drop 2 (codes rule)) (codes host)

-- `_path_matches`
unfoldable pub path_matches : String → String → Bool
path_matches path prefix =
    (prefix == "/" || prefix == path) || starts_with (codes prefix ++ b'/' ∷ []) (codes path)

pub record NormalizedTarget : Type 0 where
  pub scheme : String
  pub host : String
  pub port : ℕ
  pub path : String

-- The decimal digits of a number below 10 ^ fuel.
unfoldable pub decimal_digits : ℕ → ℕ → List ℕ
decimal_digits zero n = []
decimal_digits (suc fuel) n =
    let front = decimal_digits fuel (n / 10) in
    (if ltb n 10 then [] else front) ++ (b'0' + n % 10) ∷ []

-- `NormalizedTarget.authority`; a number has no more digits than its value and one.
unfoldable pub authority : NormalizedTarget → List ℕ
unfolding decimal_digits
authority t =
    let host = codes t.host in
    (if any (nat_beq b':') host then b'[' ∷ (host ++ b']' ∷ []) else host)
    ++ b':' ∷ decimal_digits (suc t.port) t.port

-- `NormalizedTarget.__str__`
unfoldable pub target_text : NormalizedTarget → List ℕ
unfolding authority
target_text t = codes t.scheme ++ (codes "://" ++ (authority t ++ codes t.path))

pub record EngagementScope (Network : Type 0) : Type 0 where
  pub allowed_hostnames : List String
  pub allowed_networks : List Network
  pub allowed_ports : List ℕ
  pub allowed_schemes : List String
  pub allowed_paths : List String
  pub denied_hostnames : List String
  pub denied_networks : List Network
  pub denied_paths : List String
  pub allowed_wildcards : List String
  pub denied_wildcards : List String
  pub valid_from : Option Time
  pub valid_until : Option Time

pub record ScopeDecision : Type 0 where
  pub allowed : Bool
  pub reason : String
  pub target : NormalizedTarget
  pub requires_dns_recheck : Bool

-- `valid_from is not None and at < valid_from`
abbrev pub not_started : Option Time → Time → Bool
not_started none at = false
not_started (some t) at = ltb at t

-- `valid_until is not None and at >= valid_until`
abbrev pub expired : Option Time → Time → Bool
expired none at = false
expired (some t) at = leb t at

module _ (ip : IpLibrary) where
  open ip use {Network, ip_address, within}

  -- `address is not None and any(address in network for network in networks)`
  unfoldable pub in_networks : String → List Network → Bool
  in_networks host networks = elim (ip_address host) [
    | none ↦ false
    | some address ↦ any (within address) networks
  ]

  -- `NormalizedTarget.is_ip`
  unfoldable pub is_ip : NormalizedTarget → Bool
  is_ip t = is_some (ip_address t.host)

  unfoldable pub host_allowed : NormalizedTarget → EngagementScope Network → Bool
  unfolding is_ip
  host_allowed t s =
      contains s.allowed_hostnames t.host
      || (not (is_ip t) && any (wildcard_matches t.host) s.allowed_wildcards)

  -- The chain of tests, up to the first that gives a reason to deny; `none` where none does.
  unfoldable pub deny_reason : NormalizedTarget → EngagementScope Network → Time → Option String
  deny_reason t s at =
      if not_started s.valid_from at
      then some "engagement_not_started"
      else if expired s.valid_until at
      then some "engagement_expired"
      else if not (contains s.allowed_schemes t.scheme)
      then some "scheme_not_allowed"
      else if not (contains s.allowed_ports t.port)
      then some "port_not_allowed"
      else if contains s.denied_hostnames t.host
      then some "hostname_denied"
      else if any (wildcard_matches t.host) s.denied_wildcards
      then some "wildcard_denied"
      else if in_networks t.host s.denied_networks
      then some "network_denied"
      else if any (path_matches t.path) s.denied_paths
      then some "path_denied"
      else if not (host_allowed t s) && not (in_networks t.host s.allowed_networks)
      then some "host_not_allowed"
      else if not (any (path_matches t.path) s.allowed_paths)
      then some "path_not_allowed"
      else none

  abbrev decision_of : NormalizedTarget → Option String → ScopeDecision
  decision_of t none = record {
    allowed = true;
    reason = "scope_allowed";
    target = t;
    requires_dns_recheck = not (is_ip t);
  }
  decision_of t (some reason) = record {
    allowed = false;
    reason = reason;
    target = t;
    requires_dns_recheck = not (is_ip t);
  }

  -- `evaluate_scope` on a target that is normalized already.
  unfoldable pub evaluate_scope : NormalizedTarget → EngagementScope Network → Time → ScopeDecision
  evaluate_scope t s at = decision_of t (deny_reason t s at)

  -- `evaluate_scope` on a text, which `normalize_target` reads first.
  unfoldable pub evaluate_scope_text :
      (String → Raises NormalizedTarget)
      → String
      → EngagementScope Network
      → Time
      → Raises ScopeDecision
  evaluate_scope_text normalize_target text s at = do
    t ← normalize_target text
    ok (evaluate_scope t s at)
