-- ===== src/Policy/Scope/Queries/Quoted.antt =====
-- What `quote_plus` writes for `normalize_query` of policy/scope.py, read again by `parse_qsl`.
use Prim.Native.Char.{Char, code}
use mathlib.Core.List.{flat_map, append_assoc}
use vuln_proof_claw.Common.{
  ℕ, zero, suc, ◌+◌, ◌*◌, ◌/◌, ◌%◌, ◌<◌, Bool, true, false, ◌&&◌, not, ◌≡◌, refl, ap, ◌∙◌, List, [],
  ◌∷◌, ◌++◌, arith, chars, is_code, all, ltb, map, nat_beq, if◌then◌else◌, if_split, Bool-cases,
  inl, inr, nat_beq_iff, chars_beq_iff,
}
use vuln_proof_claw.Policy.Scope.Queries.Sent.{other_char}
use vuln_proof_claw.Policy.Scope.Paths.{
  has_bad_percent, octet, plain, percent_decode, hex_value, is_hex_digit,
}
use vuln_proof_claw.Policy.Scope.Queries.{
  is_always_safe, upper_hex_digit, percent_octet, quote_char, quote_plus, utf8, plus_to_space,
  decode_replacing, replacing_step, complete, unquote_plus,
}
use vuln_proof_claw.Policy.Scope.Queries.Utf8.{utf8-decode_replacing, utf8-octets}

-- One digit, which stands for the number.
abbrev is_digit_of : ℕ → List Char → Bool
is_digit_of n (c ∷ []) = is_hex_digit c && nat_beq (hex_value c) n && not (is_code b'+' c)
is_digit_of n _ = false

abbrev all_below : (ℕ → Bool) → ℕ → Bool
all_below p zero = true
all_below p (suc k) = p k && all_below p k

all_below-lt : (p : ℕ → Bool) (k n : ℕ) → all_below p k ≡ true → n < k → p n ≡ true
all_below-lt p zero n h below = absurd (omega (arith, below))
all_below-lt p (suc k) n h below = elim (Bool-cases (nat_beq n k)) [
  | inl same ↦ ap p ((nat_beq_iff n k).0 same) ∙ ground arith
  | inr other ↦ all_below-lt p k n (ground arith) (ground arith)
]

upper_hex_digit-is_digit_of : (n : ℕ) → n < 16 → is_digit_of n (upper_hex_digit n) ≡ true
unfolding upper_hex_digit
upper_hex_digit-is_digit_of n h = all_below-lt (λ k. is_digit_of k (upper_hex_digit k)) 16 n refl h

read_digits :
    (b : ℕ) (hs ls cs : List Char)
    → is_digit_of (b / 16) hs ≡ true
    → is_digit_of (b % 16) ls ≡ true
    → percent_decode (plus_to_space (chars "%" ++ (hs ++ ls) ++ cs))
      ≡ octet b ∷ percent_decode (plus_to_space cs)
read_digits b (h ∷ []) (l ∷ []) cs high low =
    let value : 16 * hex_value h + hex_value l ≡ b = ground arith in ground (arith, value)
read_digits b [] ls cs high low = cc
read_digits b (h ∷ g ∷ hs) ls cs high low = cc
read_digits b (h ∷ []) [] cs high low = cc
read_digits b (h ∷ []) (l ∷ g ∷ ls) cs high low = cc

-- An octet that is quoted is read as that octet.
percent_decode-percent_octet :
    (b : ℕ) (cs : List Char)
    → ltb b 256 ≡ true
    → percent_decode (plus_to_space (percent_octet b ++ cs))
      ≡ octet b ∷ percent_decode (plus_to_space cs)
unfolding percent_octet
percent_decode-percent_octet b cs h =
    read_digits b (upper_hex_digit (b / 16)) (upper_hex_digit (b % 16)) cs
      (upper_hex_digit-is_digit_of (b / 16) (ground arith))
      (upper_hex_digit-is_digit_of (b % 16) (ground arith))

read_octets :
    (bs : List ℕ) (cs : List Char)
    → all (λ b. ltb b 256) bs ≡ true
    → percent_decode (plus_to_space (flat_map percent_octet bs ++ cs))
      ≡ map octet bs ++ percent_decode (plus_to_space cs)
unfolding flat_map
read_octets [] cs h = refl
read_octets (b ∷ bs) cs h =
    ap (λ ds. percent_decode (plus_to_space ds))
      (append_assoc (percent_octet b) (flat_map percent_octet bs) cs)
    ∙ percent_decode-percent_octet b (flat_map percent_octet bs ++ cs) (ground arith)
    ∙ ap (λ ts. octet b ∷ ts) (read_octets bs cs (ground arith))

read_plain :
    (c : Char) (cs : List Char)
    → is_code b'%' c ≡ false
    → percent_decode (c ∷ cs) ≡ plain c ∷ percent_decode cs
read_plain c [] h = refl
read_plain c (d ∷ []) h = refl
read_plain c (d ∷ e ∷ cs) h = ground (arith, h)

read_as :
    (c d : Char) (cs : List Char)
    → plus_to_space (c ∷ cs) ≡ d ∷ plus_to_space cs
    → is_code b'%' d ≡ false
    → decode_replacing complete (percent_decode (plus_to_space (c ∷ cs)))
      ≡ d ∷ decode_replacing complete (percent_decode (plus_to_space cs))
unfolding decode_replacing replacing_step
read_as c d cs spelled h =
    ap (λ ds. decode_replacing complete (percent_decode ds)) spelled
    ∙ ap (decode_replacing complete) (read_plain d (plus_to_space cs) h)

-- The text that is read where a character was quoted.
read_char :
    (c : Char) (cs : List Char)
    → decode_replacing complete (percent_decode (plus_to_space (quote_char c ++ cs)))
      ≡ c ∷ decode_replacing complete (percent_decode (plus_to_space cs))
unfolding quote_char decode_replacing replacing_step
read_char c cs =
    let read = λ (ds : List Char). decode_replacing complete (percent_decode (plus_to_space ds)) in
    if_split (λ ds. read (ds ++ cs) ≡ c ∷ read cs) (is_always_safe c) _ _
      (λ safe.
        let no_plus : is_code b'+' c ≡ false = ground arith in
        read_as c c cs
          (ap (λ (x : Bool). (if x then chars " " else c ∷ []) ++ plus_to_space cs) no_plus)
          (ground arith))
      λ unsafe.
        if_split (λ ds. read (ds ++ cs) ≡ c ∷ read cs) (is_code b' ' c) _ _
          (λ space.
            ap (λ ds. decode_replacing complete (percent_decode (ds ++ plus_to_space cs)))
              ((chars_beq_iff (chars " ") (c ∷ [])).0 (ground arith))
            ∙ ap (decode_replacing complete) (read_plain c (plus_to_space cs) (ground arith)))
          (λ other.
            ap (decode_replacing complete) (read_octets (utf8 (code c)) cs (utf8-octets c))
            ∙ utf8-decode_replacing c (percent_decode (plus_to_space cs)))

-- A text that is quoted is read as that text.
pub unquote_plus-quote_plus : (cs : List Char) → unquote_plus (quote_plus cs) ≡ cs
unfolding unquote_plus flat_map decode_replacing
unquote_plus-quote_plus [] = refl
unquote_plus-quote_plus (c ∷ cs) =
    read_char c (quote_plus cs) ∙ ap (λ ds. c ∷ ds) (unquote_plus-quote_plus cs)

good_digits :
    (hs ls cs : List Char) (m n : ℕ)
    → is_digit_of m hs ≡ true
    → is_digit_of n ls ≡ true
    → has_bad_percent (chars "%" ++ (hs ++ ls) ++ cs) ≡ has_bad_percent cs
good_digits (h ∷ []) (l ∷ []) cs m n high low = ground arith
good_digits [] ls cs m n high low = cc
good_digits (h ∷ g ∷ hs) ls cs m n high low = cc
good_digits (h ∷ []) [] cs m n high low = cc
good_digits (h ∷ []) (l ∷ g ∷ ls) cs m n high low = cc

good_octets :
    (bs : List ℕ) (cs : List Char)
    → all (λ b. ltb b 256) bs ≡ true
    → has_bad_percent (flat_map percent_octet bs ++ cs) ≡ has_bad_percent cs
unfolding flat_map percent_octet
good_octets [] cs h = refl
good_octets (b ∷ bs) cs h =
    ap has_bad_percent (append_assoc (percent_octet b) (flat_map percent_octet bs) cs)
    ∙ good_digits (upper_hex_digit (b / 16)) (upper_hex_digit (b % 16))
        (flat_map percent_octet bs ++ cs) (b / 16) (b % 16)
        (upper_hex_digit-is_digit_of (b / 16) (ground arith))
        (upper_hex_digit-is_digit_of (b % 16) (ground arith))
    ∙ good_octets bs cs (ground arith)

good_plain :
    (c : Char) (cs : List Char)
    → is_code b'%' c ≡ false
    → has_bad_percent (c ∷ cs) ≡ has_bad_percent cs
good_plain c cs h = rw h refl

good_char : (c : Char) (cs : List Char) → has_bad_percent (quote_char c ++ cs) ≡ has_bad_percent cs
unfolding quote_char
good_char c cs =
    if_split (λ ds. has_bad_percent (ds ++ cs) ≡ has_bad_percent cs) (is_always_safe c) _ _
      (λ safe. good_plain c cs (other_char is_always_safe "%" c refl safe))
      λ unsafe.
        if_split (λ ds. has_bad_percent (ds ++ cs) ≡ has_bad_percent cs) (is_code b' ' c) _ _
          (λ space. refl) (λ other. good_octets (utf8 (code c)) cs (utf8-octets c))

-- Every percent sign that is written has its two digits.
pub has_bad_percent-quote_plus :
    (cs ds : List Char) → has_bad_percent (quote_plus cs ++ ds) ≡ has_bad_percent ds
unfolding flat_map
has_bad_percent-quote_plus [] ds = refl
has_bad_percent-quote_plus (c ∷ cs) ds =
    ap has_bad_percent (append_assoc (quote_char c) (quote_plus cs) ds)
    ∙ good_char c (quote_plus cs ++ ds)
    ∙ has_bad_percent-quote_plus cs ds
