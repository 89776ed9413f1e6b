-- ===== src/Policy/Scope/Queries/Utf8.antt =====
-- The octets that `urlencode` gives for a character are read as that character by `parse_qsl`; about
-- `normalize_query` of policy/scope.py.
use Prim.Native.Char.{Char, code}
use vuln_proof_claw.Common.{
  ℕ, ◌+◌, ◌-◌, ◌*◌, ◌/◌, ◌%◌, ◌≤◌, ◌<◌, ◌⊎◌, true, ◌≡◌, List, ◌∷◌, ◌++◌, arith, to_char,
  to_char-code, code-scalar, some, leb, if_split, map, all, ltb,
}
use vuln_proof_claw.Policy.Scope.Paths.{Token, octet}
use vuln_proof_claw.Policy.Scope.Queries.{
  utf8, decode_replacing, replacing_step, complete, open_octet, further_octet,
}

-- From the number of a character that is sent in one octet.
one_octet :
    (n : ℕ) (c : Char) (ts : List Token)
    → to_char n ≡ some c
    → n ≤ 0x7f
    → decode_replacing complete (octet n ∷ ts) ≡ c ∷ decode_replacing complete ts
unfolding decode_replacing replacing_step open_octet
one_octet n c ts h small = ground (arith, h)

two_octets :
    (n : ℕ) (c : Char) (ts : List Token)
    → to_char n ≡ some c
    → 0x7f < n
    → n ≤ 0x7ff
    → decode_replacing complete (octet (0xc0 + n / 64) ∷ octet (0x80 + n % 64) ∷ ts)
      ≡ c ∷ decode_replacing complete ts
unfolding decode_replacing replacing_step open_octet further_octet
two_octets n c ts h low high =
    let value : 64 * (0xc0 + n / 64 - 0xc0) + (0x80 + n % 64 - 0x80) ≡ n = omega arith in
    ground (arith, h, value)

three_octets :
    (n : ℕ) (c : Char) (ts : List Token)
    → to_char n ≡ some c
    → 0x7ff < n
    → n ≤ 0xffff
    → (n < 55296) ⊎ ((57343 < n) × (n < 1114112))
    → decode_replacing complete
        (octet (0xe0 + n / 4096) ∷ octet (0x80 + n / 64 % 64) ∷ octet (0x80 + n % 64) ∷ ts)
      ≡ c ∷ decode_replacing complete ts
unfolding decode_replacing replacing_step open_octet further_octet
three_octets n c ts h low high scalar =
    let value : 64 * (64 * (0xe0 + n / 4096 - 0xe0) + (0x80 + n / 64 % 64 - 0x80))
          + (0x80 + n % 64 - 0x80)
        ≡ n =
      omega arith in
    ground (arith, h, value)

four_octets :
    (n : ℕ) (c : Char) (ts : List Token)
    → to_char n ≡ some c
    → 0xffff < n
    → n < 1114112
    → decode_replacing complete (
        octet (0xf0 + n / 262144)
        ∷ octet (0x80 + n / 4096 % 64)
        ∷ octet (0x80 + n / 64 % 64)
        ∷ octet (0x80 + n % 64)
        ∷ ts)
      ≡ c ∷ decode_replacing complete ts
unfolding decode_replacing replacing_step open_octet further_octet
four_octets n c ts h low high =
    let value : 64
            * (64 * (64 * (0xf0 + n / 262144 - 0xf0) + (0x80 + n / 4096 % 64 - 0x80))
                + (0x80 + n / 64 % 64 - 0x80))
          + (0x80 + n % 64 - 0x80)
        ≡ n =
      omega arith in
    ground (arith, h, value)

-- The octets of a character are read as that character.
pub utf8-decode_replacing :
    (c : Char) (ts : List Token)
    → decode_replacing complete (map octet (utf8 (code c)) ++ ts) ≡ c ∷ decode_replacing complete ts
unfolding utf8
utf8-decode_replacing c ts =
    let P = λ (bs : List ℕ).
      decode_replacing complete (map octet bs ++ ts) ≡ c ∷ decode_replacing complete ts in
    let n = code c in
    let h = to_char-code c in
    if_split P (leb n 0x7f) _ _ (λ one. one_octet n c ts h (ground arith))
      λ more_than_one.
        if_split P (leb n 0x7ff) _ _ (λ two. two_octets n c ts h (ground arith) (ground arith))
          λ more_than_two.
            if_split P (leb n 0xffff) _ _
              (λ three. three_octets n c ts h (ground arith) (ground arith) (code-scalar c))
              (λ four. four_octets n c ts h (ground arith) (ground (arith, code-scalar c)))

pub utf8-octets : (c : Char) → all (λ b. ltb b 256) (utf8 (code c)) ≡ true
unfolding utf8
utf8-octets c = ground (arith, code-scalar c)
