-- ===== src/Policy/Scope/Queries/Again.antt =====
-- `normalize_query` of policy/scope.py on a query that it gave.
use Prim.Native.Char.{Char}
use vuln_proof_claw.Common.{
  inl, inr, subst, of_list-chars, and_left, and_right, Bool, true, false, ◌||◌, ◌≡◌, ◌≤◌, refl, ap,
  ◌∙◌, sym, List, [], ◌∷◌, ◌++◌, String, arith, chars, all, any, is_empty, length, some, or_else,
}
use text.Mathlib.TextBridge.{of_list}
use mathlib.Core.List.{append_assoc, append-nil}
use vuln_proof_claw.Common.Results.{ok}
use vuln_proof_claw.Policy.Scope.Paths.{is_control, has_bad_percent}
use vuln_proof_claw.Policy.Scope.Targets.{text_before, text_after}
use vuln_proof_claw.Policy.Scope.Queries.{
  quote_plus, encode_pair, urlencode, parse_qsl, parse_fields, pair_of, split_pairs,
  normalize_query, unquote_plus,
}
use vuln_proof_claw.Policy.Scope.Queries.Sent.{
  urlencode-some, urlencode-safe, is_quoted_char, is_field_char, is_query_char, quote_plus-quoted,
  encode_pair-field, encode_pair-some, normalize_query-IsSent, normalize_query-is_query_char,
  other_char,
}
use vuln_proof_claw.Policy.Scope.Queries.Quoted.{
  unquote_plus-quote_plus, has_bad_percent-quote_plus,
}

text_before-quoted :
    (cs ds : List Char)
    → all is_quoted_char cs ≡ true
    → text_before b'=' (cs ++ (chars "=" ++ ds)) ≡ cs
text_before-quoted [] ds h = refl
text_before-quoted (c ∷ cs) ds h =
    let other =
      other_char is_quoted_char "=" c refl
        (and_left (is_quoted_char c) (all is_quoted_char cs) h) in
    rw (other) (
      ap (λ xs. c ∷ xs)
        (text_before-quoted cs ds (and_right (is_quoted_char c) (all is_quoted_char cs) h)))

text_after-quoted :
    (cs ds : List Char)
    → all is_quoted_char cs ≡ true
    → text_after b'=' (cs ++ (chars "=" ++ ds)) ≡ some ds
text_after-quoted [] ds h = refl
text_after-quoted (c ∷ cs) ds h =
    let other =
      other_char is_quoted_char "=" c refl
        (and_left (is_quoted_char c) (all is_quoted_char cs) h) in
    rw (other) (text_after-quoted cs ds (and_right (is_quoted_char c) (all is_quoted_char cs) h))

split_pairs-field : (cs : List Char) → all is_field_char cs ≡ true → split_pairs cs ≡ cs ∷ []
split_pairs-field [] h = refl
split_pairs-field (c ∷ cs) h =
    let other =
      other_char is_field_char "&" c refl (and_left (is_field_char c) (all is_field_char cs) h) in
    let rest = split_pairs-field cs (and_right (is_field_char c) (all is_field_char cs) h) in
    rw (other, rest) refl

split_pairs-fields :
    (cs ds : List Char)
    → all is_field_char cs ≡ true
    → split_pairs (cs ++ (chars "&" ++ ds)) ≡ cs ∷ split_pairs ds
split_pairs-fields [] ds h = refl
split_pairs-fields (c ∷ cs) ds h =
    let other =
      other_char is_field_char "&" c refl (and_left (is_field_char c) (all is_field_char cs) h) in
    let rest = split_pairs-fields cs ds (and_right (is_field_char c) (all is_field_char cs) h) in
    rw (other, rest) refl

pair_of-encode_pair : (pair : List Char × List Char) → pair_of (encode_pair pair) ≡ pair
unfolding pair_of encode_pair
pair_of-encode_pair (name, value) =
    let front = text_before-quoted (quote_plus name) (quote_plus value) (quote_plus-quoted name) in
    let back = text_after-quoted (quote_plus name) (quote_plus value) (quote_plus-quoted name) in
    cc (
      front,
      back,
      ap unquote_plus front ∙ unquote_plus-quote_plus name,
      ap (λ t. unquote_plus (or_else t [])) back ∙ unquote_plus-quote_plus value,
    )

-- The pairs that are sent are read as those pairs.
parse_qsl-urlencode :
    (pair : List Char × List Char) (pairs : List (List Char × List Char))
    → parse_qsl (urlencode (pair ∷ pairs)) ≡ pair ∷ pairs
unfolding parse_qsl urlencode
parse_qsl-urlencode pair [] =
    ap parse_fields (split_pairs-field (encode_pair pair) (encode_pair-field pair))
    ∙ rw (encode_pair-some pair, pair_of-encode_pair pair) refl
parse_qsl-urlencode pair (next ∷ pairs) =
    let rest = parse_qsl-urlencode next pairs in
    ap parse_fields
      (split_pairs-fields (encode_pair pair) (urlencode (next ∷ pairs)) (encode_pair-field pair))
    ∙ rw (encode_pair-some pair, pair_of-encode_pair pair) (ap (λ ps. pair ∷ ps) rest)

good_pair :
    (pair : List Char × List Char) (ds : List Char)
    → has_bad_percent (encode_pair pair ++ ds) ≡ has_bad_percent ds
unfolding encode_pair
good_pair (name, value) ds =
    ap has_bad_percent (append_assoc (quote_plus name) (chars "=" ++ quote_plus value) ds)
    ∙ has_bad_percent-quote_plus name (chars "=" ++ (quote_plus value ++ ds))
    ∙ has_bad_percent-quote_plus value ds

good_pairs : (pairs : List (List Char × List Char)) → has_bad_percent (urlencode pairs) ≡ false
unfolding urlencode
good_pairs [] = refl
good_pairs (pair ∷ []) =
    ap has_bad_percent (sym (append-nil (encode_pair pair))) ∙ good_pair pair []
good_pairs (pair ∷ next ∷ pairs) =
    good_pair pair (chars "&" ++ urlencode (next ∷ pairs)) ∙ good_pairs (next ∷ pairs)

-- No character of a query is a control character.
query_char-printable : (c : Char) → is_query_char c ≡ true → is_control c ≡ false
query_char-printable c h = ground arith

query-printable : (cs : List Char) → all is_query_char cs ≡ true → any is_control cs ≡ false
query-printable [] h = refl
query-printable (c ∷ cs) h =
    let here = query_char-printable c (and_left (is_query_char c) (all is_query_char cs) h) in
    let rest = query-printable cs (and_right (is_query_char c) (all is_query_char cs) h) in
    cc (here, rest, ap (λ (b : Bool). b || any is_control cs) here)

urlencode-normalize_query :
    (query : String) (pairs : List (List Char × List Char))
    → is_empty pairs ≡ false
    → chars query ≡ urlencode pairs
    → length (chars query) ≤ 4096
    → normalize_query query ≡ ok query
unfolding normalize_query
urlencode-normalize_query query [] some_pair spelled short = cc
urlencode-normalize_query query (pair ∷ pairs) some_pair spelled short =
    let same = ap parse_qsl spelled ∙ parse_qsl-urlencode pair pairs in
    let given : of_list (urlencode (parse_qsl (chars query))) ≡ query =
      ap (λ ps. of_list (urlencode ps)) same ∙ ap of_list (sym spelled) ∙ of_list-chars query in
    ground (
      arith,
      ap is_empty spelled ∙ urlencode-some (pair ∷ pairs) refl,
      ap (any is_control) spelled
          ∙ query-printable (urlencode (pair ∷ pairs)) (urlencode-safe (pair ∷ pairs)),
      ap has_bad_percent spelled ∙ good_pairs (pair ∷ pairs),
      ap is_empty same,
      given,
    )

read_again :
    (pairs : List (List Char × List Char))
    → is_empty pairs ≡ false
    → parse_qsl (urlencode pairs) ≡ pairs
read_again [] some_pair = cc
read_again (pair ∷ pairs) some_pair = parse_qsl-urlencode pair pairs

-- A query that is accepted names the parameters that the value names, in their order, as `parse_qsl`
-- reads them. It is sent as letters, digits and the characters `_.-~%+=&` alone, so that no control
-- character, space, hash or slash of the value gets into a request line, and it is empty only if the
-- value is.
pub normalize_query-parse_qsl :
    (value : String) {query : String}
    → normalize_query value ≡ ok query
    → (parse_qsl (chars query) ≡ parse_qsl (chars value))
      × (all is_query_char (chars query) ≡ true)
      × (is_empty (chars query) ≡ is_empty (chars value))
normalize_query-parse_qsl value h =
    let (safe, alike) = normalize_query-is_query_char value h in
    elim (normalize_query-IsSent value h) [
      | inl (nothing, none_sent) ↦ (ap parse_qsl (none_sent ∙ sym nothing), safe, alike)
      | inr (something, parsed, sent) ↦
          (ap parse_qsl sent ∙ read_again (parse_qsl (chars value)) parsed, safe, alike)
    ]

-- A query of at most 4096 characters that `normalize_query` gave is its own normal form.
pub normalize_query-normalize_query :
    (value : String) {query : String}
    → normalize_query value ≡ ok query
    → length (chars query) ≤ 4096
    → normalize_query query ≡ ok query
unfolding normalize_query
normalize_query-normalize_query value {query} h short = elim (normalize_query-IsSent value h) [
  | inl (nothing, none_sent) ↦
      let empty_query : "" ≡ query = ap of_list (sym none_sent) ∙ of_list-chars query in
      subst (λ q. normalize_query q ≡ ok q) empty_query refl
  | inr (something, parsed, sent) ↦
      urlencode-normalize_query query (parse_qsl (chars value)) parsed sent short
]
