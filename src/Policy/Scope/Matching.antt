-- ===== src/Policy/Scope/Matching.antt =====
-- What a path prefix and a wildcard rule match.
use vuln_proof_claw.Common.{
  ℕ, true, ◌≡◌, ◌↔◌, ◌⊎◌, inl, inr, List, [], ◌∷◌, ◌++◌, arith, codes, drop, starts_with,
  starts_with-split, starts_with-append, ends_with-split, ends_with-append, ◌==◌, string_eq, eq_iff,
  Bool-cases, String, length, length-append, ap, ◌∙◌,
}
use mathlib.Core.List.{append_assoc}
use vuln_proof_claw.Policy.Scope.{path_matches, wildcard_matches}

-- A path lies under a prefix: the prefix is the root or the path itself, or the path goes on behind
-- the prefix with a slash, so that `/admin` does not cover `/administrator`.
abbrev pub IsUnder : String → String → Type 0
IsUnder path prefix =
    (prefix ≡ "/")
    ⊎ ((prefix ≡ path) ⊎ ((rest : List ℕ) × (codes path ≡ codes prefix ++ b'/' ∷ rest)))

under_prefix :
    (path prefix : String)
    → starts_with (codes prefix ++ b'/' ∷ []) (codes path) ≡ true
    → (rest : List ℕ) × (codes path ≡ codes prefix ++ b'/' ∷ rest)
under_prefix path prefix h =
    let (rest, e) = starts_with-split (codes prefix ++ b'/' ∷ []) (codes path) h in
    (rest, rw append_assoc at e)

starts_under :
    (path prefix : String) (rest : List ℕ)
    → codes path ≡ codes prefix ++ b'/' ∷ rest
    → starts_with (codes prefix ++ b'/' ∷ []) (codes path) ≡ true
starts_under path prefix rest e =
    rw (e, ← append_assoc (codes prefix) (b'/' ∷ []) rest)
      (starts_with-append (codes prefix ++ b'/' ∷ []) rest)

-- A path matches a prefix exactly if the prefix is the root or the path itself, or the path goes
-- on behind the prefix with a slash.
pub path_matches-IsUnder :
    (path prefix : String) → (path_matches path prefix ≡ true) ↔ IsUnder path prefix
unfolding path_matches
path_matches-IsUnder path prefix = (
  λ h. elim (Bool-cases (prefix == "/")) [
    | inl root ↦ inl ((eq_iff prefix "/").0 root)
    | inr deeper ↦ elim (Bool-cases (prefix == path)) [
      | inl same ↦ inr (inl ((eq_iff prefix path).0 same))
      | inr other ↦ inr (inr (under_prefix path prefix (rw (deeper, other) at h)))
    ]
  ],
  λ h. elim h [
    | inl root ↦ rw ((eq_iff prefix "/").1 root)
    | inr (inl same) ↦ ground (arith, eq_iff prefix path)
    | inr (inr (rest, e)) ↦ ground (arith, starts_under path prefix rest e)
  ],
)

-- A rule `*.base` matches a host exactly if the host is some text, a dot and the base; so it never
-- matches the base itself.
pub wildcard_matches-strict :
    (host rule : String)
    → ((wildcard_matches host rule ≡ true)
        ↔ ((front : List ℕ) × (codes host ≡ front ++ b'.' ∷ drop 2 (codes rule))))
      × ¬ ((wildcard_matches host rule ≡ true) × (codes host ≡ drop 2 (codes rule)))
unfolding wildcard_matches
wildcard_matches-strict host rule =
    let base : List ℕ = drop 2 (codes rule) in
    (
      (
        ends_with-split (b'.' ∷ base) (codes host),
        λ (front, e). rw e (ends_with-append (b'.' ∷ base) front),
      ),
      λ (h, apex).
          let (front, e) = ends_with-split (b'.' ∷ base) (codes host) h in
          let longer = ap length e ∙ length-append front (b'.' ∷ base) in
          omega (arith, ap length apex, longer),
    )
