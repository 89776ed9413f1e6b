-- ===== src/Policy/Scope/Described.antt =====
-- The conditions under which `evaluate_scope` of policy/scope.py lets a target in, told of the scope's rules
-- themselves.
use mathlib.Core.List.{Mem, mem-cons_self, mem-cons_of_mem}
use vuln_proof_claw.Common.{
  ℕ, Bool, true, false, ◌≡◌, ◌≤◌, ◌<◌, ◌↔◌, ◌⊎◌, inl, inr, refl, sym, ◌∙◌, subst, Option, none,
  some, List, [], ◌∷◌, ◌++◌, String, arith, any, contains, nat_eq, string_eq, ◌==◌, Eq, codes, drop,
  Option-cases, Bool-cases,
}
use vuln_proof_claw.Domain.Errors.{Time}
use vuln_proof_claw.Policy.Scope.{
  IpLibrary, NormalizedTarget, EngagementScope, wildcard_matches, path_matches, not_started,
  expired, in_networks, is_ip, host_allowed, evaluate_scope,
}
use vuln_proof_claw.Policy.Scope.Allowed.{Passes, evaluate_scope-Passes}
use vuln_proof_claw.Policy.Scope.Matching.{IsUnder, path_matches-IsUnder, wildcard_matches-strict}
use vuln_proof_claw.Policy.Scope.Narrower.{any_of_mem, contains-any}

module _ {A : Type 0} (p : A → Bool) where
  -- Something in the list passes the test.
  abbrev Some : List A → Type 0
  Some xs = (x : A) × Mem x xs × (p x ≡ true)

  any-Some : (xs : List A) → any p xs ≡ true → Some xs
  any-Some [] h = cc
  any-Some (x ∷ xs) h = elim (Bool-cases (p x)) [
    | inl here ↦ (x, mem-cons_self, here)
    | inr there ↦
        let (y, member, passed) = any-Some xs (rw there at h) in
        (y, mem-cons_of_mem x member, passed)
  ]

  Some-any : (xs : List A) → Some xs → any p xs ≡ true
  Some-any xs (x, member, passed) = any_of_mem p x xs member passed

contains-Mem : {A : Type 0} ⦃e : Eq A⦄ (xs : List A) (a : A) → (contains xs a ≡ true) ↔ Mem a xs
contains-Mem ⦃e⦄ xs a = (
  λ h.
      let (x, member, same) = any-Some (λ x. a == x) xs (sym (contains-any xs a) ∙ h) in
      subst (λ y. Mem y xs) (sym ((e.beq_iff a x).0 same)) member,
  λ member. contains-any xs a ∙ Some-any (λ x. a == x) xs (a, member, (e.beq_iff a a).1 refl),
)

-- A test that fails, told by what it means that it holds.
fails : {P : Type 0} (b : Bool) → (b ≡ true) ↔ P → (b ≡ false) ↔ (¬ P)
fails b iff = (
  λ h p. cc (h, iff.1 p),
  λ no_proof. elim (Bool-cases b) [ inl holds ↦ absurd (no_proof (iff.0 holds)) | inr h ↦ h ],
)

-- The host is some text, a dot and the base, the text of the rule behind its first two characters.
abbrev pub IsSubdomain : String → String → Type 0
IsSubdomain host rule = (front : List ℕ) × (codes host ≡ front ++ b'.' ∷ drop 2 (codes rule))

module _ (ip : IpLibrary) where
  open ip use {Address, Network, ip_address, within}

  -- The host is an address in one of the networks.
  abbrev pub IsWithin : String → List Network → Type 0
  IsWithin host networks =
      (address : Address) × (network : Network) × (ip_address host ≡ some address)
      × Mem network networks
      × (within address network ≡ true)

  -- The time lies in the window, the scheme and the port are among the scope's; no denied hostname is the
  -- host, it is below no denied wildcard and in no denied network, and the path is under no denied prefix;
  -- the host is an allowed hostname, or is no address and below an allowed wildcard, or is an address in
  -- an allowed network; and the path is under an allowed prefix.
  pub record InScope (t : NormalizedTarget) (s : EngagementScope Network) (at : Time) : Type 0 where
    pub started : (from : Time) → s.valid_from ≡ some from → from ≤ at
    pub unexpired : (until : Time) → s.valid_until ≡ some until → at < until
    pub scheme : Mem t.scheme s.allowed_schemes
    pub port : Mem t.port s.allowed_ports
    pub host_undenied : ¬ Mem t.host s.denied_hostnames
    pub wildcard_undenied :
        (rule : String) → Mem rule s.denied_wildcards → ¬ IsSubdomain t.host rule
    pub network_undenied : ¬ IsWithin t.host s.denied_networks
    pub path_undenied : (prefix : String) → Mem prefix s.denied_paths → ¬ IsUnder t.path prefix
    pub reachable :
        Mem t.host s.allowed_hostnames
        ⊎ (((ip_address t.host ≡ none)
              × (rule : String) × Mem rule s.allowed_wildcards
              × IsSubdomain t.host rule)
            ⊎ IsWithin t.host s.allowed_networks)
    pub path : (prefix : String) × Mem prefix s.allowed_paths × IsUnder t.path prefix

  in_networks-IsWithin :
      (host : String) (networks : List Network)
      → (in_networks ip host networks ≡ true) ↔ IsWithin host networks
  unfolding in_networks
  in_networks-IsWithin host networks = (
    λ h. elim (Option-cases (ip_address host)) [
      | inl no_address ↦ cc (rw (no_address, in_networks) at h)
      | inr (address, found) ↦
          let (network, member, inside) =
            any-Some (within address) networks (rw (found, in_networks) at h) in
          (address, network, found, member, inside)
    ],
    λ (address, network, found, member, inside).
        rw (found, in_networks) (Some-any (within address) networks (network, member, inside)),
  )

  wildcard_found :
      (host : String) (rules : List String)
      → (any (wildcard_matches host) rules ≡ true)
        ↔ ((rule : String) × Mem rule rules × IsSubdomain host rule)
  wildcard_found host rules = (
    λ h.
        let (rule, member, matched) = any-Some (wildcard_matches host) rules h in
        let (front, e) = (wildcard_matches-strict host rule).0.0 matched in
        (rule, member, (front, e)),
    λ (rule, member, found).
        Some-any (wildcard_matches host) rules
          (rule, member, (wildcard_matches-strict host rule).0.1 found),
  )

  prefix_found :
      (path : String) (prefixes : List String)
      → (any (path_matches path) prefixes ≡ true)
        ↔ ((prefix : String) × Mem prefix prefixes × IsUnder path prefix)
  prefix_found path prefixes = (
    λ h.
        let (prefix, member, matched) = any-Some (path_matches path) prefixes h in
        (prefix, member, (path_matches-IsUnder path prefix).0 matched),
    λ (prefix, member, under).
        Some-any (path_matches path) prefixes
          (prefix, member, (path_matches-IsUnder path prefix).1 under),
  )

  not_started-from :
      (from : Option Time) (at : Time)
      → (not_started from at ≡ false) ↔ ((t : Time) → from ≡ some t → t ≤ at)
  not_started-from none at = (λ h t e. cc, λ h. refl)
  not_started-from (some t) at = (
    λ h u e. let same : t ≡ u = cc e in omega (arith, same, the_le h),
    λ h. ground (arith, h t refl),
  )
    where
      the_le : not_started (some t) at ≡ false → t ≤ at
      the_le h = ground arith

  expired-until :
      (until : Option Time) (at : Time)
      → (expired until at ≡ false) ↔ ((t : Time) → until ≡ some t → at < t)
  expired-until none at = (λ h t e. cc, λ h. refl)
  expired-until (some t) at = (
    λ h u e. let same : t ≡ u = cc e in omega (arith, same, the_lt h),
    λ h. ground (arith, h t refl),
  )
    where
      the_lt : expired (some t) at ≡ false → at < t
      the_lt h = ground arith

  host_allowed-reached :
      (t : NormalizedTarget) (s : EngagementScope Network)
      → ((host_allowed ip t s ≡ true) ⊎ (in_networks ip t.host s.allowed_networks ≡ true)) ↔ (
          Mem t.host s.allowed_hostnames
          ⊎ (((ip_address t.host ≡ none)
                × (rule : String) × Mem rule s.allowed_wildcards
                × IsSubdomain t.host rule)
              ⊎ IsWithin t.host s.allowed_networks))
  unfolding host_allowed is_ip
  host_allowed-reached t s = (
    λ h. elim h [
      | inr inside ↦ inr (inr ((in_networks-IsWithin t.host s.allowed_networks).0 inside))
      | inl allowed ↦ elim (Bool-cases (contains s.allowed_hostnames t.host)) [
        | inl named ↦ inl ((contains-Mem s.allowed_hostnames t.host).0 named)
        | inr unnamed ↦
            let (rule, member, below) =
              (wildcard_found t.host s.allowed_wildcards).0 (ground (arith, allowed)) in
            inr (inl (ground (arith, allowed), rule, member, below))
      ]
    ],
    λ h. elim h [
      | inl member ↦
          let named = (contains-Mem s.allowed_hostnames t.host).1 member in
          inl (ground (arith, named))
      | inr (inl (no_address, rule, member, below)) ↦
          let matched = (wildcard_found t.host s.allowed_wildcards).1 (rule, member, below) in
          inl (ground (arith, no_address, matched))
      | inr (inr inside) ↦ inr ((in_networks-IsWithin t.host s.allowed_networks).1 inside)
    ],
  )

  Passes-InScope :
      (t : NormalizedTarget) (s : EngagementScope Network) (at : Time)
      → Passes ip t s at
      → InScope t s at
  Passes-InScope t s at p = record {
    started = (not_started-from s.valid_from at).0 p.started;
    unexpired = (expired-until s.valid_until at).0 p.unexpired;
    scheme = (contains-Mem s.allowed_schemes t.scheme).0 p.scheme;
    port = (contains-Mem s.allowed_ports t.port).0 p.port;
    host_undenied = (fails _ (contains-Mem s.denied_hostnames t.host)).0 p.host_undenied;
    wildcard_undenied = λ rule member below.
        (fails _ (wildcard_found t.host s.denied_wildcards)).0 p.wildcard_undenied
          (rule, member, below);
    network_undenied =
        (fails _ (in_networks-IsWithin t.host s.denied_networks)).0 p.network_undenied;
    path_undenied = λ prefix member under.
        (fails _ (prefix_found t.path s.denied_paths)).0 p.path_undenied (prefix, member, under);
    reachable = (host_allowed-reached t s).0 p.reachable;
    path = (prefix_found t.path s.allowed_paths).0 p.path;
  }

  InScope-Passes :
      (t : NormalizedTarget) (s : EngagementScope Network) (at : Time)
      → InScope t s at
      → Passes ip t s at
  InScope-Passes t s at i = record {
    started = (not_started-from s.valid_from at).1 i.started;
    unexpired = (expired-until s.valid_until at).1 i.unexpired;
    scheme = (contains-Mem s.allowed_schemes t.scheme).1 i.scheme;
    port = (contains-Mem s.allowed_ports t.port).1 i.port;
    host_undenied = (fails _ (contains-Mem s.denied_hostnames t.host)).1 i.host_undenied;
    wildcard_undenied =
        (fails _ (wildcard_found t.host s.denied_wildcards)).1
          λ (rule, member, below). i.wildcard_undenied rule member below;
    network_undenied =
        (fails _ (in_networks-IsWithin t.host s.denied_networks)).1 i.network_undenied;
    path_undenied =
        (fails _ (prefix_found t.path s.denied_paths)).1
          λ (prefix, member, under). i.path_undenied prefix member under;
    reachable = (host_allowed-reached t s).1 i.reachable;
    path = (prefix_found t.path s.allowed_paths).1 i.path;
  }

  -- A target is allowed exactly under these conditions. The time is not before the scope's start and is
  -- before its end. The scheme and the port are in the scope's lists. The host is no denied hostname, below
  -- no denied wildcard and no address in a denied network, and the path is under no denied prefix. The host
  -- is an allowed hostname, or is no address and below an allowed wildcard, or is an address in an allowed
  -- network. The path is under an allowed prefix.
  pub evaluate_scope-InScope :
      (t : NormalizedTarget) (s : EngagementScope Network) (at : Time)
      → ((evaluate_scope ip t s at).allowed ≡ true) ↔ InScope t s at
  evaluate_scope-InScope t s at =
      let told = (evaluate_scope-Passes ip t s at).0 in
      (λ h. Passes-InScope t s at (told.0 h), λ i. told.1 (InScope-Passes t s at i))
