-- ===== src/Policy/Scope/Rules.antt =====
-- The rules of a scope, from policy/scope.py: `normalize_hostname`, `normalize_wildcard`,
-- `normalize_network`, `normalize_port`, `normalize_scheme` and `EngagementScope.create`.
pub mod Normal
pub mod Authority
pub mod Delegated
pub mod Created
pub mod Each
use Prim.Native.Char.{Char, code}
use Prim.Native.String.{◌++◌ as str_append}
use text.Mathlib.TextBridge.{of_list}
use mathlib.Core.List.{reverse}
use vuln_proof_claw.Common.{
  ℕ, Bool, true, false, not, ◌&&◌, ◌||◌, Option, none, some, List, [], ◌∷◌, String, any, all,
  is_empty, is_some, leb, ltb, nat_beq, is_space, contains, string_eq, length, drop, if◌then◌else◌,
  chars, is_code, codes, starts_with,
}
use vuln_proof_claw.Common.Results.{Result, ok, err, ◌>>=◌, ◌>>◌}
use vuln_proof_claw.Domain.Errors.{Time, Raises, domain_validation, refuse_if}
use vuln_proof_claw.Policy.Scope.{EngagementScope}
use vuln_proof_claw.Policy.Scope.Paths.{push, normalize_path}

-- What the rules ask of `ipaddress`, of the codec `idna` and of `str`.
pub record RuleLibrary (Network : Type 0) : Type 0 where
  -- `str(ip_address(text))`, or `none` where it raises ValueError
  pub ip_text : String → Option String
  -- `ip_network(text, strict=False)`, or `none` where it raises ValueError
  pub ip_network : String → Option Network
  -- `text.encode("idna").decode("ascii")`, or `none` where it raises UnicodeError
  pub encode_idna : String → Option String
  -- `text.lower()`
  pub lower : String → String
  -- `character.isalnum()`
  pub is_alnum : Char → Bool

drop_while : (Char → Bool) → List Char → List Char
drop_while p [] = []
drop_while p (c ∷ cs) = if p c then drop_while p cs else c ∷ cs

-- `rstrip` of the characters that pass a test
unfoldable pub rstrip : (Char → Bool) → List Char → List Char
unfolding drop_while
rstrip p cs = reverse (drop_while p (reverse cs))

-- `value.strip()`
unfoldable pub strip_text : String → String
unfolding rstrip is_space
strip_text value =
    of_list (rstrip (λ c. is_space (code c)) (drop_while (λ c. is_space (code c)) (chars value)))

-- `text.split(".")`
abbrev pub split_dots : List Char → List (List Char)
split_dots [] = [] ∷ []
split_dots (c ∷ cs) = let rest = split_dots cs in if is_code b'.' c then [] ∷ rest else push c rest

abbrev pub last_is_hyphen : List Char → Bool
last_is_hyphen [] = false
last_is_hyphen (c ∷ []) = is_code b'-' c
last_is_hyphen (c ∷ d ∷ cs) = last_is_hyphen (d ∷ cs)

abbrev pub first_is_hyphen : List Char → Bool
first_is_hyphen [] = false
first_is_hyphen (c ∷ cs) = is_code b'-' c

-- `_PUBLIC_SUFFIXES`
abbrev pub public_suffixes : List String
public_suffixes =
    "ac.uk" ∷ "co.at" ∷ "co.il" ∷ "co.in" ∷ "co.jp" ∷ "co.kr" ∷ "co.nz" ∷ "co.uk" ∷ "co.za"
    ∷ "com.ar" ∷ "com.au" ∷ "com.br" ∷ "com.cn" ∷ "com.hk" ∷ "com.mx" ∷ "com.my" ∷ "com.ph"
    ∷ "com.pl" ∷ "com.sg" ∷ "com.tr" ∷ "com.tw" ∷ "com.ua" ∷ "com.vn" ∷ "edu.au" ∷ "edu.cn"
    ∷ "edu.tw" ∷ "gov.au" ∷ "gov.br" ∷ "gov.cn" ∷ "gov.tw" ∷ "gov.uk" ∷ "ne.jp" ∷ "net.au"
    ∷ "net.cn" ∷ "net.tw" ∷ "or.jp" ∷ "org.au" ∷ "org.cn" ∷ "org.tw" ∷ "org.uk" ∷ []

-- `normalize_port`; a negative number, which there is none of here, is refused as zero is.
unfoldable pub normalize_port : ℕ → Raises ℕ
normalize_port value = do
  refuse_if (not (leb 1 value && leb value 65535)) "port must be between 1 and 65535"
  ok value

-- `[normalize(item) for item in items]`, which raises what the first item that is refused raises.
abbrev pub normalize_each : {A B : Type 0} → (A → Raises B) → List A → Raises (List B)
normalize_each normalize [] = ok []
normalize_each normalize (x ∷ xs) = do
  y ← normalize x
  ys ← normalize_each normalize xs
  ok (y ∷ ys)

-- `valid_from is not None and valid_until is not None and valid_until <= valid_from`
abbrev pub is_reversed : Option Time → Option Time → Bool
is_reversed (some start) (some end) = leb end start
is_reversed _ _ = false

-- The arguments of `EngagementScope.create`.
pub record ScopeRules : Type 0 where
  pub allowed_hostnames : List String
  pub allowed_cidrs : List String
  pub allowed_ports : List ℕ
  pub allowed_schemes : List String
  pub allowed_paths : List String
  pub denied_hostnames : List String
  pub denied_cidrs : List String
  pub denied_paths : List String
  pub allowed_wildcards : List String
  pub denied_wildcards : List String
  pub valid_from : Option Time
  pub valid_until : Option Time

module _ {Network : Type 0} (library : RuleLibrary Network) where
  open library use {ip_text, ip_network, encode_idna, lower, is_alnum}

  abbrev pub is_bad_label : List Char → Bool
  is_bad_label label =
      is_empty label
      || ltb 63 (length label)
      || first_is_hyphen label
      || last_is_hyphen label
      || not (all (λ c. is_alnum c || is_code b'-' c) label)

  -- What `normalize_hostname` does with a text that is no address, from its encoding on.
  unfoldable pub normalize_name : Option String → Raises String
  normalize_name none = err (domain_validation "hostname is not valid IDNA")
  normalize_name (some encoded) = do
    let normalized = lower encoded
    refuse_if (ltb 253 (length (chars normalized))) "hostname exceeds 253 characters"
    refuse_if (any is_bad_label (split_dots (chars normalized)))
        "hostname contains an invalid label"
    ok normalized

  unfoldable pub normalize_hostname : String → Raises String
  unfolding strip_text normalize_name
  normalize_hostname value = do
    let candidate = of_list (rstrip (is_code b'.') (chars (strip_text value)))
    refuse_if (is_empty (chars candidate)) "hostname must not be empty"
    elim (ip_text candidate) [
      | some address ↦ ok address
      | none ↦ normalize_name (encode_idna candidate)
    ]

  -- What `normalize_wildcard` does with the normal form of the text behind `*.`.
  unfoldable pub wildcard_of_base : String → Raises String
  wildcard_of_base base = do
    refuse_if (any (is_code b'*') (chars base)) "wildcard rule supports exactly one leading label"
    refuse_if (is_some (ip_text base)) "wildcard rule must not use an IP literal"
    refuse_if (ltb (length (split_dots (chars base))) 2)
        "wildcard base must be a registrable domain"
    refuse_if (contains public_suffixes base) "wildcard base must not be a public suffix"
    ok (str_append "*." base)

  unfoldable pub normalize_wildcard : String → Raises String
  unfolding strip_text wildcard_of_base
  normalize_wildcard value = do
    let candidate = lower (strip_text value)
    refuse_if (not (starts_with (codes "*.") (codes candidate)))
        "wildcard rule must start with '*.'"
    base ← normalize_hostname (of_list (drop_two (chars candidate)))
    wildcard_of_base base
    where
      drop_two : List Char → List Char
      drop_two (c ∷ d ∷ cs) = cs
      drop_two _ = []

  abbrev pub or_refuse_network : Option Network → Raises Network
  or_refuse_network none = err (domain_validation "CIDR is invalid")
  or_refuse_network (some network) = ok network

  unfoldable pub normalize_network : String → Raises Network
  unfolding strip_text
  normalize_network value = or_refuse_network (ip_network (strip_text value))

  unfoldable pub normalize_scheme : String → Raises String
  unfolding strip_text
  normalize_scheme value = do
    let scheme = lower (strip_text value)
    refuse_if (not (contains ("http" ∷ "https" ∷ []) scheme))
        "only http and https schemes are supported"
    ok scheme

  -- `EngagementScope.create`
  unfoldable pub create : ScopeRules → Raises (EngagementScope Network)
  unfolding normalize_hostname normalize_network normalize_port normalize_scheme normalize_wildcard
  create rules = do
    refuse_if (is_reversed rules.valid_from rules.valid_until)
        "valid_until must be later than valid_from"
    allowed_hostnames ← normalize_each normalize_hostname rules.allowed_hostnames
    allowed_networks ← normalize_each normalize_network rules.allowed_cidrs
    allowed_ports ← normalize_each normalize_port rules.allowed_ports
    allowed_schemes ← normalize_each normalize_scheme rules.allowed_schemes
    allowed_paths ← normalize_each normalize_path rules.allowed_paths
    denied_hostnames ← normalize_each normalize_hostname rules.denied_hostnames
    denied_networks ← normalize_each normalize_network rules.denied_cidrs
    denied_paths ← normalize_each normalize_path rules.denied_paths
    allowed_wildcards ← normalize_each normalize_wildcard rules.allowed_wildcards
    denied_wildcards ← normalize_each normalize_wildcard rules.denied_wildcards
    ok (record {
      allowed_hostnames = allowed_hostnames;
      allowed_networks = allowed_networks;
      allowed_ports = allowed_ports;
      allowed_schemes = allowed_schemes;
      allowed_paths = allowed_paths;
      denied_hostnames = denied_hostnames;
      denied_networks = denied_networks;
      denied_paths = denied_paths;
      allowed_wildcards = allowed_wildcards;
      denied_wildcards = denied_wildcards;
      valid_from = rules.valid_from;
      valid_until = rules.valid_until;
    })
