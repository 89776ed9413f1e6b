-- ===== src/Policy/Risk/Known.antt =====
-- Which action types run without an approval, and what an unknown one is taken for.
use vuln_proof_claw.Common.{
  ℕ, Bool, true, false, ◌≡◌, refl, List, [], ◌∷◌, all, ◌≢◌, ◌||◌, not, subst, codes_beq_iff,
  and_left, and_right, Bool-cases, inl, inr, codes, codes_beq, String, arith, refl,
}
use vuln_proof_claw.Common.Unicode.{Unicode}
use vuln_proof_claw.Common.Results.{ok, >>=-eq-ok}
use vuln_proof_claw.Domain.Enums.{RiskLevel, requires_approval}
use vuln_proof_claw.Policy.Risk.{
  normalize_action_type, classify_risk, is_named, get_risk, risk_of_name, is_word,
  action_risk_levels,
}

-- The action types that probe without changing anything.
abbrev pub automatic_actions : List String
automatic_actions =
    "public_page_read" ∷ "robots_read" ∷ "passive_fingerprint" ∷ "passive_discovery"
    ∷ "active_safe_api_read" ∷ "directory_enumeration" ∷ "port_scan" ∷ "active_api_probe" ∷ []

-- A test that passes for every listed name passes for a name that is one of them.
named_all :
    (p : List ℕ → Bool) (names : List String) (name : List ℕ)
    → all (λ n. p (codes n)) names ≡ true
    → is_named names name ≡ true
    → p name ≡ true
named_all p [] name h m = cc
named_all p (n ∷ names) name h m = elim (Bool-cases (codes_beq (codes n) name)) [
  | inl here ↦ rw (← (codes_beq_iff (codes n) name).0 here) (and_left _ _ h)
  | inr there ↦ named_all p names name (and_right _ _ h) (rw there at m)
]

-- So does one that passes for each key of the table, at the level that the table gives.
get_risk-all :
    (p : List ℕ → RiskLevel → Bool) (d : List (String × RiskLevel)) (name : List ℕ)
    (other : RiskLevel)
    → all (λ (e : String × RiskLevel). p (codes e.0) e.1) d ≡ true
    → p name other ≡ true
    → p name (get_risk d name other) ≡ true
get_risk-all p [] name other h m = m
get_risk-all p ((n, l) ∷ d) name other h m = elim (Bool-cases (codes_beq (codes n) name)) [
  | inl here ↦
      rw here (subst (λ x. p x l ≡ true) ((codes_beq_iff (codes n) name).0 here) (and_left _ _ h))
  | inr there ↦ rw there (get_risk-all p d name other (and_right _ _ h) m)
]

-- The normal form of an action type is one of the eight names.
unfoldable pub is_automatic : List ℕ → Bool
is_automatic name = is_named automatic_actions name

listed_or_approved : List ℕ → RiskLevel → Bool
listed_or_approved name level = is_named automatic_actions name || requires_approval level

or_true : (b : Bool) → (b || true) ≡ true
or_true true = refl
or_true false = refl

l2_listed : (name : List ℕ) → listed_or_approved name RiskLevel.l2 ≡ true
unfolding listed_or_approved requires_approval
l2_listed name = or_true (is_named automatic_actions name)

table_listed :
    all (λ (e : String × RiskLevel). listed_or_approved (codes e.0) e.1) action_risk_levels ≡ true
unfolding listed_or_approved requires_approval
table_listed = refl

unlisted_approved :
    (name : List ℕ) → is_automatic name ≡ false → requires_approval (risk_of_name name) ≡ true
unfolding is_automatic listed_or_approved risk_of_name
unlisted_approved name h = rw h at (
    get_risk-all listed_or_approved action_risk_levels name RiskLevel.l2 table_listed
      (l2_listed name))

names_unapproved :
    all (λ n. not (requires_approval (risk_of_name (codes n)))) automatic_actions ≡ true
unfolding requires_approval risk_of_name
names_unapproved = refl

listed_unapproved :
    (name : List ℕ) → is_automatic name ≡ true → not (requires_approval (risk_of_name name)) ≡ true
unfolding is_automatic
listed_unapproved name =
    named_all (λ n. not (requires_approval (risk_of_name n))) automatic_actions name
      names_unapproved

requires_approval-is_automatic :
    (name : List ℕ) → requires_approval (risk_of_name name) ≡ not (is_automatic name)
requires_approval-is_automatic name = ground (arith, unlisted_approved name, listed_unapproved name)

module _ (unicode : Unicode) where
  normalized-word :
      (value : String) {name : List ℕ}
      → normalize_action_type unicode value ≡ ok name
      → (name ≢ []) × (all (is_word unicode) name ≡ true)
  unfolding normalize_action_type
  normalized-word value h = ground arith

  -- An action type that is accepted has a normal form of at least one character, all of them
  -- alphanumeric or underscores; and it runs without an approval exactly if that form is one of the
  -- eight names of `automatic_actions`, so any unknown one needs an approval.
  pub classify_risk-automatic :
      (action_type : String) {level : RiskLevel}
      → classify_risk unicode action_type ≡ ok level
      → (name : List ℕ) × (normalize_action_type unicode action_type ≡ ok name)
        × (name ≢ [])
        × (all (is_word unicode) name ≡ true)
        × (requires_approval level ≡ not (is_automatic name))
  unfolding classify_risk
  classify_risk-automatic action_type h =
      let (name, e, l) = >>=-eq-ok (normalize_action_type unicode action_type) _ h in
      let (some_name, words) = normalized-word action_type e in
      (name, e, some_name, words, ground (arith, requires_approval-is_automatic name))
