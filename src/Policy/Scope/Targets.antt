-- ===== src/Policy/Scope/Targets.antt =====
-- `normalize_target` of policy/scope.py, with what it uses of Python's `urlsplit` and of the
-- properties of its result, as the patch releases of Python 3.12 have them.
pub mod Known
use Prim.Native.Char.{Char, code}
use text.Mathlib.TextBridge.{of_list}
use vuln_proof_claw.Common.{
  ℕ, ◌+◌, ◌-◌, ◌*◌, Bool, true, false, not, ◌&&◌, ◌||◌, Option, none, some, List, [], ◌∷◌, ◌++◌,
  String, any, all, is_empty, leb, nat_beq, in_range, if◌then◌else◌, chars, is_code, or_else, ◌==◌,
  string_eq,
}
use vuln_proof_claw.Common.Results.{Result, ok, err, ◌>>=◌, ◌>>◌}
use vuln_proof_claw.Domain.Errors.{Raises, domain_validation, refuse_if}
use vuln_proof_claw.Policy.Scope.{NormalizedTarget}
use vuln_proof_claw.Policy.Scope.Paths.{is_control, is_hex_digit, normalize_path}
use vuln_proof_claw.Policy.Scope.Rules.{
  RuleLibrary, normalize_hostname, normalize_port, normalize_scheme,
}

-- What `urlsplit` asks of `ipaddress` and of `unicodedata`.
pub record UrlLibrary : Type 0 where
  -- `ip_address(text)` gives an IPv6Address
  pub is_ipv6 : String → Bool
  -- the text is not ASCII, its normal form NFKC is another one, and one of `/?#@:` stands in that
  pub hides_delimiter : String → Bool

-- `text.partition(mark)[0]`
abbrev pub text_before : ℕ → List Char → List Char
text_before mark [] = []
text_before mark (c ∷ cs) =
    let front = text_before mark cs in if is_code mark c then [] else c ∷ front

-- `text.partition(mark)[2]`, or `none` where the mark is missing
abbrev pub text_after : ℕ → List Char → Option (List Char)
text_after mark [] = none
text_after mark (c ∷ cs) = let rest = text_after mark cs in if is_code mark c then some cs else rest

-- `text.rpartition(mark)[2]`
abbrev pub after_last : ℕ → List Char → List Char
after_last mark [] = []
after_last mark (c ∷ cs) =
    let rest = after_last mark cs in
    if any (is_code mark) (c ∷ cs) then if any (is_code mark) cs then rest else cs else c ∷ cs

abbrev pub without : (Char → Bool) → List Char → List Char
without p [] = []
without p (c ∷ cs) = let rest = without p cs in if p c then rest else c ∷ rest

-- `url.lstrip(_WHATWG_C0_CONTROL_OR_SPACE)`
abbrev pub strip_controls : List Char → List Char
strip_controls [] = []
strip_controls (c ∷ cs) = let rest = strip_controls cs in if leb (code c) 0x20 then rest else c ∷ cs

-- `_UNSAFE_URL_BYTES_TO_REMOVE`
abbrev pub is_unsafe : Char → Bool
is_unsafe c = is_code 9 c || is_code 10 c || is_code 13 c

abbrev pub is_letter : Char → Bool
is_letter c = in_range b'a' b'z' (code c) || in_range b'A' b'Z' (code c)

abbrev pub is_digit_char : Char → Bool
is_digit_char c = in_range b'0' b'9' (code c)

abbrev pub is_scheme_char : Char → Bool
is_scheme_char c =
    is_letter c || is_digit_char c || is_code b'+' c || is_code b'-' c || is_code b'.' c

abbrev pub starts_with_letter : List Char → Bool
starts_with_letter [] = false
starts_with_letter (c ∷ cs) = is_letter c

-- The scheme before its lower case, and what follows it.
unfoldable pub split_scheme : List Char → List Char × List Char
split_scheme url =
    let front = text_before b':' url in
    elim (text_after b':' url) [
      | none ↦ ([], url)
      | some rest ↦
          if starts_with_letter url && all is_scheme_char front then (front, rest) else ([], url)
    ]

-- `_splitnetloc(url, 2)`: up to the first slash, question mark or hash, and what follows from there.
abbrev pub is_delimiter : Char → Bool
is_delimiter c = is_code b'/' c || is_code b'?' c || is_code b'#' c

abbrev pub until_delimiter : List Char → List Char
until_delimiter [] = []
until_delimiter (c ∷ cs) =
    let front = until_delimiter cs in if is_delimiter c then [] else c ∷ front

abbrev pub from_delimiter : List Char → List Char
from_delimiter [] = []
from_delimiter (c ∷ cs) = let rest = from_delimiter cs in if is_delimiter c then c ∷ cs else rest

unfoldable pub split_netloc : List Char → List Char × List Char
split_netloc (c ∷ d ∷ url) =
    if is_code b'/' c && is_code b'/' d
    then (until_delimiter url, from_delimiter url)
    else ([], c ∷ d ∷ url)
split_netloc url = ([], url)

-- `[a-fA-F0-9]+\..+` from its start, or from within its digits
abbrev pub is_future_tail : Bool → List Char → Bool
is_future_tail seen [] = false
is_future_tail seen (c ∷ cs) =
    let rest = is_future_tail true cs in
    if is_hex_digit c then rest else seen && is_code b'.' c && not (is_empty cs)

abbrev pub starts_with_code : ℕ → List Char → Bool
starts_with_code n [] = false
starts_with_code n (c ∷ cs) = is_code n c

-- The parts of `urlsplit`'s result that `normalize_target` reads.
pub record SplitUrl : Type 0 where
  pub scheme : List Char
  pub netloc : List Char
  pub path : List Char

-- `_hostinfo`; a port that is missing is empty.
unfoldable pub host_of : List Char → List Char
host_of netloc =
    let info = after_last b'@' netloc in
    elim (text_after b'[' info) [
      | none ↦ text_before b':' info
      | some bracketed ↦ text_before b']' bracketed
    ]

unfoldable pub port_of : List Char → List Char
port_of netloc =
    let info = after_last b'@' netloc in
    elim (text_after b'[' info) [
      | none ↦ or_else (text_after b':' info) []
      | some bracketed ↦ or_else (text_after b':' (or_else (text_after b']' bracketed) [])) []
    ]

-- `int(port)` of ASCII digits
abbrev pub decimal_value : ℕ → List Char → ℕ
decimal_value n [] = n
decimal_value n (c ∷ cs) = decimal_value (10 * n + (code c - b'0')) cs

-- `parsed.port or _DEFAULT_PORTS[scheme]`
unfoldable pub parsed_port : String → List Char → Raises ℕ
parsed_port scheme port =
    let default = if scheme == "http" then 80 else 443 in
    if is_empty port
    then ok default
    else if not (all is_digit_char port) || not (leb (decimal_value 0 port) 65535)
    then err (domain_validation "target port is invalid")
    else ok (if nat_beq (decimal_value 0 port) 0 then default else decimal_value 0 port)

module _ (url_library : UrlLibrary) where
  -- `_check_bracketed_host` passes
  abbrev pub is_bracketed_host : List Char → Bool
  is_bracketed_host [] = url_library.is_ipv6 ""
  is_bracketed_host (c ∷ cs) =
      if is_code b'v' c then is_future_tail false cs else url_library.is_ipv6 (of_list (c ∷ cs))

  -- `_check_bracketed_netloc` passes
  unfoldable pub is_bracketed_netloc : List Char → Bool
  is_bracketed_netloc netloc =
      let info = after_last b'@' netloc in
      elim (text_after b'[' info) [
        | none ↦ is_bracketed_host (text_before b':' info)
        | some bracketed ↦
            let port = or_else (text_after b']' bracketed) [] in
            is_empty (text_before b'[' info)
            && (is_empty port || starts_with_code b':' port)
            && is_bracketed_host (text_before b']' bracketed)
      ]

  -- The checks of `urlsplit` on the network location, which raise ValueError where they fail.
  unfoldable pub is_netloc : List Char → Bool
  unfolding is_bracketed_netloc
  is_netloc netloc =
      let opens = any (is_code b'[') netloc in
      let closes = any (is_code b']') netloc in
      (if opens && closes then is_bracketed_netloc netloc else not (opens || closes))
      && not (url_library.hides_delimiter (of_list netloc))

  -- `urlsplit`, or `none` where it raises ValueError.
  unfoldable pub urlsplit : String → Option SplitUrl
  unfolding split_scheme split_netloc is_netloc
  urlsplit value =
      let schemed = split_scheme (without is_unsafe (strip_controls (chars value))) in
      let located = split_netloc schemed.1 in
      if is_netloc located.0
      then some (record {
        scheme = schemed.0;
        netloc = located.0;
        path = text_before b'?' (text_before b'#' located.1);
      })
      else none

module _ {Network : Type 0} (library : RuleLibrary Network) where
  -- `parsed.hostname`: what stands behind a percent sign, the zone of an address, keeps its case.
  unfoldable pub hostname_of : List Char → List Char
  hostname_of host =
      chars (library.lower (of_list (text_before b'%' host)))
      ++ elim (text_after b'%' host) [ none ↦ [] | some zone ↦ chars "%" ++ zone ]

  unfoldable pub target_of : SplitUrl → Raises NormalizedTarget
  unfolding host_of port_of hostname_of parsed_port
  target_of parsed = do
    scheme ← normalize_scheme library (library.lower (of_list parsed.scheme))
    refuse_if (any (is_code b'@') parsed.netloc) "target must not contain embedded credentials"
    refuse_if (is_empty (host_of parsed.netloc)) "target must include a hostname"
    host ← normalize_hostname library (of_list (hostname_of (host_of parsed.netloc)))
    given ← parsed_port scheme (port_of parsed.netloc)
    port ← normalize_port given
    path ← normalize_path (of_list parsed.path)
    ok (record { scheme = scheme; host = host; port = port; path = path })

  -- `normalize_target`, or `none` where the ValueError of `urlsplit` passes through it.
  unfoldable pub normalize_target : UrlLibrary → String → Option (Raises NormalizedTarget)
  unfolding urlsplit target_of
  normalize_target url_library value =
      if any is_control (chars value)
      then some (err (domain_validation "target contains a control character"))
      else elim (urlsplit url_library value) [ none ↦ none | some parsed ↦ some (target_of parsed) ]
