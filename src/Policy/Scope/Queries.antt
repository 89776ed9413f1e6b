-- ===== src/Policy/Scope/Queries.antt =====
-- `normalize_query` of policy/scope.py, with what it uses of Python's `parse_qsl`, of `unquote` with
-- errors replaced, and of `urlencode`.
pub mod Sent
pub mod Again
pub mod Quoted
pub mod Utf8
use Prim.Native.Char.{Char, code}
use text.Mathlib.TextBridge.{of_list}
use mathlib.Core.List.{flat_map}
use vuln_proof_claw.Common.{
  ℕ, zero, suc, ◌+◌, ◌-◌, ◌*◌, ◌/◌, ◌%◌, Bool, true, false, not, ◌&&◌, ◌||◌, Option, none, some,
  List, [], ◌∷◌, ◌++◌, String, any, is_empty, map, leb, ltb, nat_beq, in_range, if◌then◌else◌,
  chars, is_code, to_char, or_else, length, drop,
}
use vuln_proof_claw.Common.Results.{Result, ok, err, ◌>>=◌, ◌>>◌}
use vuln_proof_claw.Domain.Errors.{Raises, refuse_if}
use vuln_proof_claw.Policy.Scope.Paths.{
  Token, octet, plain, percent_decode, has_bad_percent, is_control, push,
}
use vuln_proof_claw.Policy.Scope.Targets.{text_before, text_after, is_letter, is_digit_char}

-- The octets of one character that are still to come, the range of the next one, and the number so
-- far.
pub record Partial : Type 0 where
  pub needed : ℕ
  pub low : ℕ
  pub high : ℕ
  pub value : ℕ

abbrev pub complete : Partial
complete = record { needed = 0; low = 0x80; high = 0xbf; value = 0 }

abbrev pub partial : ℕ → ℕ → ℕ → ℕ → Partial
partial needed low high value = record { needed = needed; low = low; high = high; value = value }

-- The replacement character, where there is none.
abbrev pub or_replacement : Option Char → List Char
or_replacement none = chars "�"
or_replacement (some c) = c ∷ []

-- The first octet of a character: what it gives, and what is open after it.
unfoldable pub open_octet : ℕ → List Char × Partial
open_octet b =
    if leb b 0x7f
    then (or_replacement (to_char b), complete)
    else if in_range 0xc2 0xdf b
    then ([], partial 1 0x80 0xbf (b - 0xc0))
    else if nat_beq b 0xe0
    then ([], partial 2 0xa0 0xbf 0)
    else if nat_beq b 0xed
    then ([], partial 2 0x80 0x9f 0xd)
    else if in_range 0xe1 0xef b
    then ([], partial 2 0x80 0xbf (b - 0xe0))
    else if nat_beq b 0xf0
    then ([], partial 3 0x90 0xbf 0)
    else if in_range 0xf1 0xf3 b
    then ([], partial 3 0x80 0xbf (b - 0xf0))
    else if nat_beq b 0xf4
    then ([], partial 3 0x80 0x8f 4)
    else (chars "�", complete)

-- A further octet, where `left` more come after it. One that does not fit ends the character, which is
-- replaced, and begins another.
unfoldable pub further_octet : ℕ → Partial → ℕ → List Char × Partial
unfolding open_octet
further_octet left p b =
    let value = 64 * p.value + (b - 0x80) in
    if not (in_range p.low p.high b)
    then (chars "�" ++ (open_octet b).0, (open_octet b).1)
    else if nat_beq left 0
    then (or_replacement (to_char value), complete)
    else ([], partial left 0x80 0xbf value)

abbrev pub replaced_if_open : Partial → List Char
replaced_if_open p = if nat_beq p.needed 0 then [] else chars "�"

unfoldable pub replacing_step : Partial → Token → List Char × Partial
unfolding open_octet further_octet
replacing_step p (plain c) = (replaced_if_open p ++ c ∷ [], complete)
replacing_step p (octet b) = elim p.needed [
  | zero ↦ open_octet b
  | suc left ↦ further_octet left p b
]

-- `decode("utf-8", "replace")`
unfoldable pub decode_replacing : Partial → List Token → List Char
unfolding replacing_step
decode_replacing p [] = replaced_if_open p
decode_replacing p (t ∷ ts) = (replacing_step p t).0 ++ decode_replacing (replacing_step p t).1 ts

abbrev pub plus_to_space : List Char → List Char
plus_to_space [] = []
plus_to_space (c ∷ cs) = (if is_code b'+' c then chars " " else c ∷ []) ++ plus_to_space cs

-- `unquote(text.replace("+", " "), errors="replace")`
unfoldable pub unquote_plus : List Char → List Char
unfolding decode_replacing
unquote_plus cs = decode_replacing complete (percent_decode (plus_to_space cs))

-- `qs.split("&")`
abbrev pub split_pairs : List Char → List (List Char)
split_pairs [] = [] ∷ []
split_pairs (c ∷ cs) =
    let rest = split_pairs cs in if is_code b'&' c then [] ∷ rest else push c rest

-- The name and the value of one field, which need not have an equals sign.
unfoldable pub pair_of : List Char → List Char × List Char
unfolding unquote_plus
pair_of field =
    (unquote_plus (text_before b'=' field), unquote_plus (or_else (text_after b'=' field) []))

abbrev pub parse_fields : List (List Char) → List (List Char × List Char)
parse_fields [] = []
parse_fields (field ∷ fields) =
    let rest = parse_fields fields in if is_empty field then rest else pair_of field ∷ rest

-- `parse_qsl(qs, keep_blank_values=True)`
unfoldable pub parse_qsl : List Char → List (List Char × List Char)
unfolding pair_of
parse_qsl qs = parse_fields (split_pairs qs)

-- `_ALWAYS_SAFE`
abbrev pub is_always_safe : Char → Bool
is_always_safe c =
    is_letter c
    || is_digit_char c
    || is_code b'_' c
    || is_code b'.' c
    || is_code b'-' c
    || is_code b'~' c

-- `encode("utf-8")` of one character
unfoldable pub utf8 : ℕ → List ℕ
utf8 n =
    if leb n 0x7f
    then n ∷ []
    else if leb n 0x7ff
    then (0xc0 + n / 64) ∷ (0x80 + n % 64) ∷ []
    else if leb n 0xffff
    then (0xe0 + n / 4096) ∷ (0x80 + n / 64 % 64) ∷ (0x80 + n % 64) ∷ []
    else (0xf0 + n / 262144) ∷ (0x80 + n / 4096 % 64) ∷ (0x80 + n / 64 % 64) ∷ (0x80 + n % 64) ∷ []

abbrev pub head_of : List Char → List Char
head_of [] = []
head_of (c ∷ cs) = c ∷ []

abbrev pub drop_chars : ℕ → List Char → List Char
drop_chars zero cs = cs
drop_chars (suc n) [] = []
drop_chars (suc n) (c ∷ cs) = drop_chars n cs

-- A digit of `%02X`
unfoldable pub upper_hex_digit : ℕ → List Char
upper_hex_digit n = head_of (drop_chars n (chars "0123456789ABCDEF"))

unfoldable pub percent_octet : ℕ → List Char
unfolding upper_hex_digit
percent_octet b = chars "%" ++ (upper_hex_digit (b / 16) ++ upper_hex_digit (b % 16))

-- `quote_plus` of one character
unfoldable pub quote_char : Char → List Char
unfolding percent_octet utf8
quote_char c =
    if is_always_safe c
    then c ∷ []
    else if is_code b' ' c
    then chars "+"
    else flat_map percent_octet (utf8 (code c))

abbrev pub quote_plus : List Char → List Char
quote_plus cs = flat_map quote_char cs

unfoldable pub encode_pair : List Char × List Char → List Char
unfolding quote_char
encode_pair (name, value) = quote_plus name ++ (chars "=" ++ quote_plus value)

-- `urlencode(pairs)`
unfoldable pub urlencode : List (List Char × List Char) → List Char
unfolding encode_pair
urlencode [] = []
urlencode (pair ∷ []) = encode_pair pair
urlencode (pair ∷ next ∷ pairs) = encode_pair pair ++ (chars "&" ++ urlencode (next ∷ pairs))

unfoldable pub normalize_query : String → Raises String
unfolding parse_qsl urlencode
normalize_query value = if is_empty (chars value) then ok "" else do
  refuse_if (any is_control (chars value)) "query contains a control character"
  refuse_if (ltb 4096 (length (chars value))) "query exceeds the maximum length"
  refuse_if (has_bad_percent (chars value)) "query contains invalid percent encoding"
  refuse_if (is_empty (parse_qsl (chars value))) "query must contain at least one parameter"
  ok (of_list (urlencode (parse_qsl (chars value))))
