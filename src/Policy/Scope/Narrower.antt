-- ===== src/Policy/Scope/Narrower.antt =====
-- A scope compared with one that it narrows.
use mathlib.Core.Logic.Or
use mathlib.Core.List.{Mem, Subset, mem-cons, mem-cons_self, mem-cons_of_mem, not-mem-nil}
use vuln_proof_claw.Common.{
  Bool, true, false, ◌≡◌, refl, ◌⊎◌, inl, inr, List, [], ◌∷◌, arith, any, contains, ◌==◌, nat_eq,
  string_eq, Eq, String, Bool-cases, ap, Option-cases,
}
use vuln_proof_claw.Domain.Errors.{Time}
use vuln_proof_claw.Policy.Scope.{
  IpLibrary, NormalizedTarget, EngagementScope, wildcard_matches, path_matches, not_started,
  expired, in_networks, host_allowed, evaluate_scope,
}
use vuln_proof_claw.Policy.Scope.Allowed.{Passes, evaluate_scope-Passes}

Bool-set : IsSet Bool
Bool-set = hlevel

module _ {ℓ} {A : Type ℓ} where
  pub any_of_mem : (p : A → Bool) (x : A) (xs : List A) → Mem x xs → p x ≡ true → any p xs ≡ true
  any_of_mem p x [] i h = absurd (not-mem-nil i)
  any_of_mem p x (y ∷ ys) i h =
      Or.elim (Bool-set _ _) (mem-cons.0 i) (λ e. ground (arith, ap p e))
        (λ k. ground (arith, any_of_mem p x ys k h))

  any_mono : (p : A → Bool) (xs ys : List A) → Subset xs ys → any p xs ≡ true → any p ys ≡ true
  any_mono p [] ys sub h = cc
  any_mono p (x ∷ xs) ys sub h = elim (Bool-cases (p x)) [
    | inl here ↦ any_of_mem p x ys (sub x mem-cons_self) here
    | inr there ↦ any_mono p xs ys (λ z i. sub z (mem-cons_of_mem x i)) (rw there at h)
  ]

  any_anti : (p : A → Bool) (xs ys : List A) → Subset xs ys → any p ys ≡ false → any p xs ≡ false
  any_anti p xs ys sub h = ground (arith, any_mono p xs ys sub)

  pub contains-any : ⦃e : Eq A⦄ (xs : List A) (a : A) → contains xs a ≡ any (λ x. a == x) xs
  contains-any [] a = refl
  contains-any (x ∷ xs) a = ground (arith, contains-any xs a)

  contains_mono :
      ⦃e : Eq A⦄ (a : A) (xs ys : List A)
      → Subset xs ys
      → contains xs a ≡ true
      → contains ys a ≡ true
  contains_mono a xs ys sub h =
      rw (contains-any ys a) (any_mono (λ x. a == x) xs ys sub (rw (contains-any xs a) at h))

  contains_anti :
      ⦃e : Eq A⦄ (a : A) (xs ys : List A)
      → Subset xs ys
      → contains ys a ≡ false
      → contains xs a ≡ false
  contains_anti a xs ys sub h = ground (arith, contains_mono a xs ys sub)

module _ (ip : IpLibrary) where
  open ip use {Network, ip_address, within}

  -- Each list of allow rules is contained in the other scope's, each list of deny rules contains the
  -- other scope's, and the time window lies within the other's.
  pub record Narrower (s r : EngagementScope Network) : Type 0 where
    pub hostnames : Subset s.allowed_hostnames r.allowed_hostnames
    pub wildcards : Subset s.allowed_wildcards r.allowed_wildcards
    pub networks : Subset s.allowed_networks r.allowed_networks
    pub ports : Subset s.allowed_ports r.allowed_ports
    pub schemes : Subset s.allowed_schemes r.allowed_schemes
    pub paths : Subset s.allowed_paths r.allowed_paths
    pub no_hostnames : Subset r.denied_hostnames s.denied_hostnames
    pub no_wildcards : Subset r.denied_wildcards s.denied_wildcards
    pub no_networks : Subset r.denied_networks s.denied_networks
    pub no_paths : Subset r.denied_paths s.denied_paths
    pub starts :
        (at : Time) → (not_started r.valid_from at ≡ false) ⊎ (not_started s.valid_from at ≡ true)
    pub ends : (at : Time) → (expired r.valid_until at ≡ false) ⊎ (expired s.valid_until at ≡ true)

  in_networks_mono :
      (host : String) (xs ys : List Network)
      → Subset xs ys
      → in_networks ip host xs ≡ true
      → in_networks ip host ys ≡ true
  unfolding in_networks
  in_networks_mono host xs ys sub h = elim (Option-cases (ip_address host)) [
    | inl no_address ↦ ground arith
    | inr (address, e) ↦
        rw (e, in_networks) (any_mono (within address) xs ys sub (rw (e, in_networks) at h))
  ]

  host_allowed_mono :
      (t : NormalizedTarget) {s r : EngagementScope Network}
      → Narrower s r
      → host_allowed ip t s ≡ true
      → host_allowed ip t r ≡ true
  unfolding host_allowed
  host_allowed_mono t {s} {r} n h = ground (
    arith,
    contains_mono t.host s.allowed_hostnames r.allowed_hostnames n.hostnames,
    any_mono (wildcard_matches t.host) s.allowed_wildcards r.allowed_wildcards n.wildcards,
  )

  Passes-mono :
      (t : NormalizedTarget) (at : Time) {s r : EngagementScope Network}
      → Narrower s r
      → Passes ip t s at
      → Passes ip t r at
  Passes-mono t at {s} {r} n h = record {
    started = ground (arith, n.starts at, h.started);
    unexpired = ground (arith, n.ends at, h.unexpired);
    scheme = contains_mono t.scheme s.allowed_schemes r.allowed_schemes n.schemes h.scheme;
    port = contains_mono t.port s.allowed_ports r.allowed_ports n.ports h.port;
    host_undenied =
        contains_anti t.host r.denied_hostnames s.denied_hostnames n.no_hostnames h.host_undenied;
    wildcard_undenied =
        any_anti (wildcard_matches t.host) r.denied_wildcards s.denied_wildcards n.no_wildcards
          h.wildcard_undenied;
    network_undenied = ground (
      arith,
      in_networks_mono t.host r.denied_networks s.denied_networks n.no_networks,
      h.network_undenied,
    );
    path_undenied =
        any_anti (path_matches t.path) r.denied_paths s.denied_paths n.no_paths h.path_undenied;
    reachable = elim h.reachable [
      | inl by_host ↦ inl (host_allowed_mono t n by_host)
      | inr by_network ↦
          inr (in_networks_mono t.host s.allowed_networks r.allowed_networks n.networks by_network)
    ];
    path = any_mono (path_matches t.path) s.allowed_paths r.allowed_paths n.paths h.path;
  }

  -- A target that a scope allows is allowed by every scope of which it is a narrowing: a deny rule
  -- added, an allow rule removed or a shorter time window never lets a target in.
  pub evaluate_scope_mono :
      (t : NormalizedTarget) (at : Time) {s r : EngagementScope Network}
      → Narrower s r
      → (evaluate_scope ip t s at).allowed ≡ true
      → (evaluate_scope ip t r at).allowed ≡ true
  evaluate_scope_mono t at {s} {r} n h =
      (evaluate_scope-Passes ip t r at).0.1
        (Passes-mono t at n ((evaluate_scope-Passes ip t s at).0.0 h))
