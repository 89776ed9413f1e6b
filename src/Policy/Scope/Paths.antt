-- ===== src/Policy/Scope/Paths.antt =====
-- `normalize_path` of policy/scope.py, with what it uses of `urllib.parse.unquote` and of
-- `posixpath.normpath`. A path is taken apart into characters.
pub mod Segments
pub mod Confined
pub mod Stable
pub mod Below
use Prim.Native.Char.{Char, code}
use text.Mathlib.TextBridge.{of_list}
use mathlib.Core.List.{reverse}
use vuln_proof_claw.Common.{
  ℕ, zero, suc, ◌+◌, ◌-◌, ◌*◌, Bool, true, false, not, ◌&&◌, ◌||◌, Option, none, some, List, [],
  ◌∷◌, ◌++◌, String, any, is_empty, leb, in_range, nat_beq, if◌then◌else◌, chars, chars_beq,
  is_code, to_char,
}
use vuln_proof_claw.Common.Results.{Result, ok, err, ◌>>=◌, ◌>>◌}
use vuln_proof_claw.Domain.Errors.{Raises, domain_validation, refuse_if}

abbrev pub is_hex_digit : Char → Bool
is_hex_digit c =
    in_range b'0' b'9' (code c) || in_range b'a' b'f' (code c) || in_range b'A' b'F' (code c)

abbrev pub hex_value : Char → ℕ
hex_value c =
    if leb (code c) b'9'
    then code c - b'0'
    else if leb (code c) b'F'
    then code c - 55
    else code c - 87

-- The text starts with `%[0-9A-Fa-f]{2}`.
abbrev pub octet_at : List Char → Bool
octet_at (c ∷ h ∷ l ∷ cs) = is_code b'%' c && is_hex_digit h && is_hex_digit l
octet_at _ = false

-- `_ENCODED_OCTET.search`
abbrev pub has_octet : List Char → Bool
has_octet [] = false
has_octet (c ∷ cs) = octet_at (c ∷ cs) || has_octet cs

-- `_INVALID_PERCENT.search`
abbrev pub has_bad_percent : List Char → Bool
has_bad_percent [] = false
has_bad_percent (c ∷ cs) = (is_code b'%' c && not (octet_at (c ∷ cs))) || has_bad_percent cs

-- What `unquote` decodes: the octet that a percent sign gives, and any other character.
pub data Token : Type 0 where
  octet : (n : ℕ) → Token
  plain : (c : Char) → Token

abbrev pub percent_decode : List Char → List Token
percent_decode (c ∷ h ∷ l ∷ cs) = elim (octet_at (c ∷ h ∷ l ∷ cs)) [
  | true ↦ octet (16 * hex_value h + hex_value l) ∷ percent_decode cs
  | false ↦ plain c ∷ percent_decode (h ∷ l ∷ cs)
]
percent_decode (c ∷ h ∷ []) = plain c ∷ plain h ∷ []
percent_decode (c ∷ []) = plain c ∷ []
percent_decode [] = []

-- The octets of one character that are still to come, the least number that may be encoded in so many,
-- and the number so far.
pub record Pending : Type 0 where
  pub needed : ℕ
  pub least : ℕ
  pub value : ℕ

pub data Decoded : Type 0 where
  emit : (c : Char) → Decoded
  more : Pending → Decoded
  malformed : Decoded

abbrev pub emitted : ℕ → ℕ → Decoded
emitted least n = elim (to_char n) [
  | none ↦ malformed
  | some c ↦ if leb least n then emit c else malformed
]

abbrev pub fresh : Pending
fresh = record { needed = 0; least = 0; value = 0 }

-- The first octet of a character.
unfoldable pub lead_octet : ℕ → Decoded
lead_octet b =
    if leb b 0x7f
    then emitted 0 b
    else if in_range 0xc0 0xdf b
    then more (record { needed = 1; least = 0x80; value = b - 0xc0 })
    else if in_range 0xe0 0xef b
    then more (record { needed = 2; least = 0x800; value = b - 0xe0 })
    else if in_range 0xf0 0xf7 b
    then more (record { needed = 3; least = 0x10000; value = b - 0xf0 })
    else malformed

-- A further octet, where `left` more come after it.
unfoldable pub continued : ℕ → Pending → ℕ → Decoded
continued left p b =
    let value = 64 * p.value + (b - 0x80) in
    if not (in_range 0x80 0xbf b)
    then malformed
    else if nat_beq left 0
    then emitted p.least value
    else more (record { needed = left; least = p.least; value = value })

unfoldable pub decode_step : Pending → Token → Decoded
unfolding lead_octet continued
decode_step p (plain c) = if nat_beq p.needed 0 then emit c else malformed
decode_step p (octet b) = elim p.needed [ zero ↦ lead_octet b | suc left ↦ continued left p b ]

abbrev pub after_char : Char → Option (List Char) → Option (List Char)
after_char c none = none
after_char c (some cs) = some (c ∷ cs)

-- `decode("utf-8", "strict")`, or `none` where it raises.
unfoldable pub decode : Pending → List Token → Option (List Char)
unfolding decode_step
decode p [] = if nat_beq p.needed 0 then some [] else none
decode p (t ∷ ts) = elim (decode_step p t) [
  | emit c ↦ after_char c (decode fresh ts)
  | more q ↦ decode q ts
  | malformed ↦ none
]

-- `unquote(…, errors="strict")`
unfoldable pub unquote : List Char → Option (List Char)
unfolding decode
unquote cs = decode fresh (percent_decode cs)

-- The loop: at most so many rounds, up to one that changes nothing.
unfoldable pub unquote_rounds : ℕ → List Char → Option (List Char)
unfolding unquote
unquote_rounds zero cs = some cs
unquote_rounds (suc n) cs = elim (unquote cs) [
  | none ↦ none
  | some decoded ↦ elim (chars_beq decoded cs) [ true ↦ some cs | false ↦ unquote_rounds n decoded ]
]

-- `candidate.lstrip("/")`
abbrev pub strip_slashes : List Char → List Char
strip_slashes [] = []
strip_slashes (c ∷ cs) = if is_code b'/' c then strip_slashes cs else c ∷ cs

abbrev pub push : Char → List (List Char) → List (List Char)
push c [] = (c ∷ []) ∷ []
push c (s ∷ ss) = (c ∷ s) ∷ ss

-- `path.split("/")`
abbrev pub split : List Char → List (List Char)
split [] = [] ∷ []
split (c ∷ cs) = let rest = split cs in if is_code b'/' c then [] ∷ rest else push c rest

-- `"/".join(comps)`
abbrev pub join : List (List Char) → List Char
join [] = []
join (s ∷ []) = s
join (s ∷ t ∷ ss) = s ++ (chars "/" ++ join (t ∷ ss))

abbrev pub pop : List (List Char) → List (List Char)
pop [] = []
pop (s ∷ ss) = ss

-- One round of the loop of `normpath` over the segments of a path that starts with one slash; the
-- segments that are kept stand with the last one first.
unfoldable pub keep_segment : List (List Char) → List Char → List (List Char)
keep_segment kept s =
    if is_empty s || chars_beq s (chars ".")
    then kept
    else if chars_beq s (chars "..")
    then pop kept
    else s ∷ kept

unfoldable pub keep_segments : List (List Char) → List (List Char) → List (List Char)
unfolding keep_segment
keep_segments kept [] = kept
keep_segments kept (s ∷ ss) = keep_segments (keep_segment kept s) ss

-- `posixpath.normpath` of a path that starts with one slash.
unfoldable pub normpath : List Char → List Char
unfolding keep_segments
normpath path = chars "/" ++ join (reverse (keep_segments [] (split path)))

-- `[\x00-\x1f\x7f]`
abbrev pub is_control : Char → Bool
is_control c = leb (code c) 0x1f || is_code 0x7f c

-- What may not stand in a decoded path.
abbrev pub is_barred : Char → Bool
is_barred c = is_control c || is_code b'\\' c

-- From the decoded text, or `none` where decoding raised.
unfoldable pub normalize_decoded : Option (List Char) → Raises String
unfolding normpath
normalize_decoded none = err (domain_validation "path contains invalid UTF-8 encoding")
normalize_decoded (some cs) = do
  refuse_if (has_octet cs) "path contains excessive nested encoding"
  refuse_if (any is_barred cs) "path contains a control character or backslash"
  ok (of_list (normpath (chars "/" ++ strip_slashes cs)))

unfoldable pub normalize_path : String → Raises String
unfolding unquote_rounds normalize_decoded
normalize_path value = do
  let candidate = if is_empty (chars value) then chars "/" else chars value
  refuse_if (has_bad_percent candidate) "path contains invalid percent encoding"
  normalize_decoded (unquote_rounds 5 candidate)
