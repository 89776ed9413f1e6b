-- ===== src/Policy/Scope/Rules/Normal.antt =====
-- What a scope's rules are once `EngagementScope.create` of policy/scope.py has taken them.
use Prim.Native.String.{◌++◌ as str_append}
use text.Mathlib.TextBridge.{of_list}
use vuln_proof_claw.Common.{
  ℕ, Bool, true, false, not, ◌&&◌, ◌≡◌, ◌≤◌, ◌⊎◌, inl, inr, Option, none, some, [], ◌∷◌, String,
  any, is_some, leb, ltb, contains, string_eq, length, chars, codes, is_code, is_empty, arith,
  subst, Option-cases, eq_iff, ◌==◌, starts_with, Bool-cases,
}
use vuln_proof_claw.Common.Results.{ok_inj, ok, >>=-eq-ok}
use vuln_proof_claw.Domain.Errors.{refuse_if-eq-ok}
use vuln_proof_claw.Policy.Scope.Rules.{
  RuleLibrary, normalize_port, normalize_scheme, normalize_hostname, normalize_name,
  normalize_wildcard, wildcard_of_base, is_bad_label, split_dots, public_suffixes, strip_text,
  rstrip,
}

pub normalize_port-in_range :
    (value : ℕ) {port : ℕ} → normalize_port value ≡ ok port → (1 ≤ port) × (port ≤ 65535)
unfolding normalize_port
normalize_port-in_range value h =
    let (inside, e) =
      refuse_if-eq-ok (not (leb 1 value && leb value 65535)) "port must be between 1 and 65535" _
        h in
    (ground arith, ground arith)

pub normalize_port-same : (value : ℕ) {port : ℕ} → normalize_port value ≡ ok port → value ≡ port
unfolding normalize_port
normalize_port-same value h =
    let (inside, e) =
      refuse_if-eq-ok (not (leb 1 value && leb value 65535)) "port must be between 1 and 65535" _
        h in
    ok_inj e

module _ {Network : Type 0} (library : RuleLibrary Network) where
  open library use {ip_text, ip_network, encode_idna, lower}

  -- A text of at most 253 characters, with only good labels between its dots.
  abbrev pub is_name : String → Bool
  is_name text =
      leb (length (chars text)) 253 && not (any (is_bad_label library) (split_dots (chars text)))

  -- What `ip_address` prints, or a name.
  abbrev pub IsHostname : String → Type 0
  IsHostname text = ((raw : String) × (ip_text raw ≡ some text)) ⊎ (is_name text ≡ true)

  normalize_name-is_name :
      (encoded : Option String) {host : String}
      → normalize_name library encoded ≡ ok host
      → is_name host ≡ true
  unfolding normalize_name
  normalize_name-is_name none h = cc
  normalize_name-is_name (some encoded) {host} h =
      let (short, h1) =
        refuse_if-eq-ok (ltb 253 (length (chars (lower encoded)))) "hostname exceeds 253 characters"
          _ h in
      let (good, h2) =
        refuse_if-eq-ok (any (is_bad_label library) (split_dots (chars (lower encoded))))
          "hostname contains an invalid label" _ h1 in
      let given : lower encoded ≡ host = ground arith in
      subst (λ text. is_name text ≡ true) given (ground arith)

  pub normalize_hostname-IsHostname :
      (value : String) {host : String}
      → normalize_hostname library value ≡ ok host
      → IsHostname host
  unfolding normalize_hostname
  normalize_hostname-IsHostname value {host} h =
      let candidate = of_list (rstrip (is_code b'.') (chars (strip_text value))) in
      let (_, h1) = refuse_if-eq-ok (is_empty (chars candidate)) "hostname must not be empty" _ h in
      elim (Option-cases (ip_text candidate)) [
        | inl no_address ↦
            inr (normalize_name-is_name (encode_idna candidate) (rw no_address at h1))
        | inr (text, printed) ↦
            let given : text ≡ host = ground (arith, rw printed at h1) in
            inl (candidate, subst (λ t. ip_text candidate ≡ some t) given printed)
      ]

  -- `*.` and a hostname of at least two labels that is neither an address nor a public suffix.
  pub record IsWildcard (rule : String) : Type 0 where
    pub base : String
    pub hostname : IsHostname base
    pub no_address : ip_text base ≡ none
    pub labels : 2 ≤ length (split_dots (chars base))
    pub registrable : contains public_suffixes base ≡ false
    pub spelled : rule ≡ str_append "*." base

  wildcard_of_base-IsWildcard :
      (base : String) {rule : String}
      → IsHostname base
      → wildcard_of_base library base ≡ ok rule
      → IsWildcard rule
  unfolding wildcard_of_base
  wildcard_of_base-IsWildcard base {rule} hostname h =
      let (_, h1) =
        refuse_if-eq-ok (any (is_code b'*') (chars base))
          "wildcard rule supports exactly one leading label" _ h in
      let (no_ip, h2) =
        refuse_if-eq-ok (is_some (ip_text base)) "wildcard rule must not use an IP literal" _ h1 in
      let (long, h3) =
        refuse_if-eq-ok (ltb (length (split_dots (chars base))) 2)
          "wildcard base must be a registrable domain" _ h2 in
      let (private_base, h4) =
        refuse_if-eq-ok (contains public_suffixes base) "wildcard base must not be a public suffix"
          _ h3 in
      record {
        base = base;
        hostname = hostname;
        no_address = ground arith;
        labels = ground arith;
        registrable = private_base;
        spelled = ground arith;
      }

  pub normalize_wildcard-IsWildcard :
      (value : String) {rule : String}
      → normalize_wildcard library value ≡ ok rule
      → IsWildcard rule
  unfolding normalize_wildcard
  normalize_wildcard-IsWildcard value h =
      let candidate = lower (strip_text value) in
      let (_, h1) =
        refuse_if-eq-ok (not (starts_with (codes "*.") (codes candidate)))
          "wildcard rule must start with '*.'" _ h in
      let (base, named, h2) = >>=-eq-ok (normalize_hostname library _) _ h1 in
      wildcard_of_base-IsWildcard base (normalize_hostname-IsHostname _ named) h2

  abbrev pub IsScheme : String → Type 0
  IsScheme scheme = (scheme ≡ "http") ⊎ (scheme ≡ "https")

  pub normalize_scheme-IsScheme :
      (value : String) {scheme : String}
      → normalize_scheme library value ≡ ok scheme
      → IsScheme scheme
  unfolding normalize_scheme
  normalize_scheme-IsScheme value {scheme} h =
      let found = lower (strip_text value) in
      let (known, h1) =
        refuse_if-eq-ok (not (contains ("http" ∷ "https" ∷ []) found))
          "only http and https schemes are supported" _ h in
      let given : found ≡ scheme = ground arith in
      subst IsScheme given (elim (Bool-cases (found == "http")) [
        | inl e ↦ inl ((eq_iff found "http").0 e)
        | inr e ↦ inr ((eq_iff found "https").0 (ground arith))
      ])
