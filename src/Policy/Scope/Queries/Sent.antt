-- ===== src/Policy/Scope/Queries/Sent.antt =====
-- The queries that `normalize_query` of policy/scope.py gives.
use Prim.Native.Char.{Char, code}
use text.Mathlib.TextEquality.{Char-path}
use mathlib.Core.List.{flat_map}
use vuln_proof_claw.Common.{
  ◌⊎◌, and_left, and_right, nat_beq_iff, ℕ, zero, suc, Bool, true, false, ◌||◌, ◌≡◌, refl, ap, ◌∙◌,
  sym, List, [], ◌∷◌, ◌++◌, String, all, any, is_empty, if_split, arith, chars, chars-of_list,
  is_code, length, ltb, Bool-cases, inl, inr, ◌/◌, ◌%◌,
}
use vuln_proof_claw.Common.Results.{ok, ok_inj}
use vuln_proof_claw.Domain.Errors.{refuse_if-eq-ok}
use vuln_proof_claw.Policy.Scope.Paths.{is_control, has_bad_percent}
use vuln_proof_claw.Policy.Scope.Queries.{
  is_always_safe, head_of, drop_chars, upper_hex_digit, percent_octet, quote_char, quote_plus,
  encode_pair, urlencode, parse_qsl, normalize_query, utf8,
}

-- A letter, a digit, or one of `_.-~%+`.
abbrev pub is_quoted_char : Char → Bool
is_quoted_char c = is_always_safe c || is_code b'%' c || is_code b'+' c

abbrev pub is_field_char : Char → Bool
is_field_char c = is_quoted_char c || is_code b'=' c

-- A letter, a digit, or one of `_.-~%+=&`.
abbrev pub is_query_char : Char → Bool
is_query_char c = is_field_char c || is_code b'&' c

all-append {ℓ} :
    {A : Type ℓ} (p : A → Bool) (xs ys : List A)
    → all p xs ≡ true
    → all p ys ≡ true
    → all p (xs ++ ys) ≡ true
all-append p [] ys h k = k
all-append p (x ∷ xs) ys h k = ground (arith, all-append p xs ys (ground arith) k)

all-flat_map {ℓ κ} :
    {A : Type ℓ} {B : Type κ} (p : B → Bool) (f : A → List B)
    → ((x : A) → all p (f x) ≡ true)
    → (xs : List A) → all p (flat_map f xs) ≡ true
unfolding flat_map
all-flat_map p f h [] = refl
all-flat_map p f h (x ∷ xs) = all-append p (f x) (flat_map f xs) (h x) (all-flat_map p f h xs)

all-drop_chars :
    (p : Char → Bool) (n : ℕ) (cs : List Char) → all p cs ≡ true → all p (drop_chars n cs) ≡ true
all-drop_chars p zero cs h = h
all-drop_chars p (suc n) [] h = refl
all-drop_chars p (suc n) (c ∷ cs) h = all-drop_chars p n cs (ground arith)

all-head_of : (p : Char → Bool) (cs : List Char) → all p cs ≡ true → all p (head_of cs) ≡ true
all-head_of p [] h = refl
all-head_of p (c ∷ cs) h = ground arith

upper_hex_digit-safe : (n : ℕ) → all is_quoted_char (upper_hex_digit n) ≡ true
unfolding upper_hex_digit
upper_hex_digit-safe n =
    all-head_of is_quoted_char (drop_chars n (chars "0123456789ABCDEF"))
      (all-drop_chars is_quoted_char n (chars "0123456789ABCDEF") refl)

percent_octet-safe : (b : ℕ) → all is_quoted_char (percent_octet b) ≡ true
unfolding percent_octet
percent_octet-safe b =
    all-append is_quoted_char (chars "%") (upper_hex_digit (b / 16) ++ upper_hex_digit (b % 16))
      refl
      (all-append is_quoted_char (upper_hex_digit (b / 16)) (upper_hex_digit (b % 16))
        (upper_hex_digit-safe (b / 16)) (upper_hex_digit-safe (b % 16)))

quote_char-quoted : (c : Char) → all is_quoted_char (quote_char c) ≡ true
unfolding quote_char
quote_char-quoted c =
    if_split (λ cs. all is_quoted_char cs ≡ true) (is_always_safe c) _ _
      (λ safe. ground (arith, safe))
      (λ _.
        if_split (λ cs. all is_quoted_char cs ≡ true) (is_code b' ' c) _ _ (λ _. refl)
          (λ _. all-flat_map is_quoted_char percent_octet percent_octet-safe (utf8 (code c))))

pub quote_plus-quoted : (cs : List Char) → all is_quoted_char (quote_plus cs) ≡ true
quote_plus-quoted cs = all-flat_map is_quoted_char quote_char quote_char-quoted cs

all_mono {ℓ} :
    {A : Type ℓ} (p q : A → Bool)
    → ((a : A) → p a ≡ true → q a ≡ true)
    → (xs : List A) → all p xs ≡ true
    → all q xs ≡ true
all_mono p q f [] h = refl
all_mono p q f (x ∷ xs) h =
    let here = f x (and_left (p x) (all p xs) h) in
    let rest = all_mono p q f xs (and_right (p x) (all p xs) h) in ground (arith, here, rest)

or_left : (a b : Bool) → a ≡ true → (a || b) ≡ true
or_left true b h = refl
or_left false b h = cc

quoted-field : (cs : List Char) → all is_quoted_char cs ≡ true → all is_field_char cs ≡ true
quoted-field =
    all_mono is_quoted_char is_field_char (λ c h. or_left (is_quoted_char c) (is_code b'=' c) h)

-- A character that fails a test that another passes is another character.
pub other_char :
    (p : Char → Bool) (d c : Char) → p d ≡ false → p c ≡ true → is_code (code d) c ≡ false
other_char p d c h k = elim (Bool-cases (is_code (code d) c)) [
  | inl same ↦ cc (ap p (Char-path c d ((nat_beq_iff (code c) (code d)).0 same)), h, k)
  | inr other ↦ other
]

pub encode_pair-field : (pair : List Char × List Char) → all is_field_char (encode_pair pair) ≡ true
unfolding encode_pair
encode_pair-field (name, value) =
    all-append is_field_char (quote_plus name) (chars "=" ++ quote_plus value)
      (quoted-field (quote_plus name) (quote_plus-quoted name))
      (quoted-field (quote_plus value) (quote_plus-quoted value))

field-query : (cs : List Char) → all is_field_char cs ≡ true → all is_query_char cs ≡ true
field-query =
    all_mono is_field_char is_query_char (λ c h. or_left (is_field_char c) (is_code b'&' c) h)

pub encode_pair-some : (pair : List Char × List Char) → is_empty (encode_pair pair) ≡ false
unfolding encode_pair
encode_pair-some (name, value) = some_first (quote_plus name) (quote_plus value)
  where
    some_first : (xs ys : List Char) → is_empty (xs ++ (chars "=" ++ ys)) ≡ false
    some_first [] ys = refl
    some_first (x ∷ xs) ys = refl

encode_pair-safe : (pair : List Char × List Char) → all is_query_char (encode_pair pair) ≡ true
encode_pair-safe pair = field-query (encode_pair pair) (encode_pair-field pair)

pub urlencode-safe :
    (pairs : List (List Char × List Char)) → all is_query_char (urlencode pairs) ≡ true
unfolding urlencode
urlencode-safe [] = refl
urlencode-safe (pair ∷ []) = encode_pair-safe pair
urlencode-safe (pair ∷ next ∷ pairs) =
    all-append is_query_char (encode_pair pair) (chars "&" ++ urlencode (next ∷ pairs))
      (encode_pair-safe pair)
      (all-append is_query_char (chars "&") (urlencode (next ∷ pairs)) refl
        (urlencode-safe (next ∷ pairs)))

pub urlencode-some :
    (pairs : List (List Char × List Char))
    → is_empty pairs ≡ false
    → is_empty (urlencode pairs) ≡ false
unfolding urlencode
urlencode-some [] h = cc
urlencode-some (pair ∷ []) h = (encode_pair-some pair)
urlencode-some (pair ∷ next ∷ pairs) h =
    append_some (encode_pair pair) (chars "&" ++ urlencode (next ∷ pairs)) (encode_pair-some pair)
  where
    append_some : (xs ys : List Char) → is_empty xs ≡ false → is_empty (xs ++ ys) ≡ false
    append_some [] ys h = cc
    append_some (x ∷ xs) ys h = refl

-- What an accepted value is sent as.
abbrev pub IsSent : String → String → Type 0
IsSent value query =
    ((chars value ≡ []) × (chars query ≡ []))
    ⊎ ((is_empty (chars value) ≡ false)
        × (is_empty (parse_qsl (chars value)) ≡ false)
        × (chars query ≡ urlencode (parse_qsl (chars value))))

pub normalize_query-IsSent :
    (value : String) {query : String} → normalize_query value ≡ ok query → IsSent value query
unfolding normalize_query
normalize_query-IsSent value {query} h = elim (Bool-cases (is_empty (chars value))) [
  | inl nothing ↦
      inl (empty_is_nil (chars value) nothing, ap chars (sym (ok_inj (rw nothing at h))))
  | inr something ↦
      let pairs = parse_qsl (chars value) in
      let (_, h1) =
        refuse_if-eq-ok (any is_control (chars value)) "query contains a control character" _
          (rw something at h) in
      let (_, h2) =
        refuse_if-eq-ok (ltb 4096 (length (chars value))) "query exceeds the maximum length" _ h1 in
      let (_, h3) =
        refuse_if-eq-ok (has_bad_percent (chars value)) "query contains invalid percent encoding" _
          h2 in
      let (parsed, h4) =
        refuse_if-eq-ok (is_empty pairs) "query must contain at least one parameter" _ h3 in
      inr (something, parsed, ap chars (sym (ok_inj h4)) ∙ chars-of_list (urlencode pairs))
]
  where
    empty_is_nil : (cs : List Char) → is_empty cs ≡ true → cs ≡ []
    empty_is_nil [] h = refl
    empty_is_nil (c ∷ cs) h = cc

pub normalize_query-is_query_char :
    (value : String) {query : String}
    → normalize_query value ≡ ok query
    → (all is_query_char (chars query) ≡ true) × (is_empty (chars query) ≡ is_empty (chars value))
normalize_query-is_query_char value h = elim (normalize_query-IsSent value h) [
  | inl (nothing, none_sent) ↦
      (ap (all is_query_char) none_sent, ap is_empty none_sent ∙ sym (ap is_empty nothing))
  | inr (something, parsed, sent) ↦ (
    ap (all is_query_char) sent ∙ urlencode-safe (parse_qsl (chars value)),
    ap is_empty sent ∙ urlencode-some (parse_qsl (chars value)) parsed ∙ sym something,
  )
]
