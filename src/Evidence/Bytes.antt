-- ===== src/Evidence/Bytes.antt =====
-- Python's byte strings in the framing of a digest: fixed-width integers and hexadecimal text.
use vuln_proof_claw.Common.{
  ℕ, zero, suc, ◌+◌, ◌-◌, ◌*◌, ◌/◌, ◌%◌, ◌<◌, Bool, true, false, ◌||◌, ◌≡◌, refl, Option, none,
  some, List, [], ◌∷◌, ◌++◌, arith, length, length-append, in_range, nat_beq, String, codes, is_hex,
  all, if◌then◌else◌, leb, and_left, and_right, ap, ◌∙◌, sym,
}
use Prim.Native.Char.{code}
use text.Mathlib.TextEquality.{Char-path}

-- `n.to_bytes(width, "big")`, for a number that fits.
abbrev pub to_bytes : ℕ → ℕ → List ℕ
to_bytes zero n = []
to_bytes (suc width) n = to_bytes width (n / 256) ++ n % 256 ∷ []

-- `b"".join(parts)`
abbrev pub join : List (List ℕ) → List ℕ
join [] = []
join (part ∷ parts) = part ++ join parts

-- The whitespace that `bytes.fromhex` skips between bytes.
abbrev is_ascii_space : ℕ → Bool
is_ascii_space c = in_range 9 13 c || nat_beq c 32

abbrev hex_digit : ℕ → Option ℕ
hex_digit c =
    if in_range b'0' b'9' c
    then some (c - 48)
    else if in_range b'a' b'f' c
    then some (c - 87)
    else if in_range b'A' b'F' c
    then some (c - 55)
    else none

abbrev hex_pair : Option ℕ → Option ℕ → Option (List ℕ) → Option (List ℕ)
hex_pair (some h) (some l) (some bs) = some ((h * 16 + l) ∷ bs)
hex_pair (some h) (some l) none = none
hex_pair (some h) none rest = none
hex_pair none l rest = none

-- `bytes.fromhex(text)`; `none` is its `ValueError`.
unfoldable pub from_hex : List ℕ → Option (List ℕ)
from_hex [] = some []
from_hex (c ∷ []) = if is_ascii_space c then some [] else none
from_hex (c ∷ d ∷ cs) = elim (is_ascii_space c) [
  | true ↦ from_hex (d ∷ cs)
  | false ↦ hex_pair (hex_digit c) (hex_digit d) (from_hex cs)
]

-- Lists that begin with parts of one length.
pub append-split {ℓ} :
    {A : Type ℓ} (xs ys : List A) {us vs : List A}
    → length xs ≡ length ys
    → xs ++ us ≡ ys ++ vs
    → (xs ≡ ys) × (us ≡ vs)
append-split [] [] n h = (refl, h)
append-split [] (y ∷ ys) n h = absurd (omega (arith, n))
append-split (x ∷ xs) [] n h = absurd (omega (arith, n))
append-split (x ∷ xs) (y ∷ ys) {us = us} {vs = vs} n h =
    let (same, rest) = append-split xs ys {us = us} {vs = vs} (omega (arith, n)) (cc h) in
    (cc (h, same), rest)

pub length-to_bytes : (width n : ℕ) → length (to_bytes width n) ≡ width
length-to_bytes zero n = refl
length-to_bytes (suc width) n = omega (
  arith,
  length-append (to_bytes width (n / 256)) (n % 256 ∷ []),
  length-to_bytes width (n / 256),
)

-- The first number that does not fit into so many bytes.
abbrev pub limit : ℕ → ℕ
limit zero = 1
limit (suc width) = 256 * limit width

-- A number that fits is determined by its bytes.
pub to_bytes_inj :
    (width n m : ℕ)
    → n < limit width
    → m < limit width
    → to_bytes width n ≡ to_bytes width m
    → n ≡ m
to_bytes_inj zero n m hn hm h = omega (arith, hn, hm)
to_bytes_inj (suc width) n m hn hm h =
    let (high, low) =
      append-split (to_bytes width (n / 256)) (to_bytes width (m / 256))
        (length-to_bytes width (n / 256) ∙ sym (length-to_bytes width (m / 256))) h in
    let same =
      to_bytes_inj width (n / 256) (m / 256) (omega (arith, hn)) (omega (arith, hm)) high in
    let last : n % 256 ≡ m % 256 = cc low in omega (arith, same, last)

pub codes_inj : (s t : String) → codes s ≡ codes t → s ≡ t
codes_inj String.[] String.[] h = refl
codes_inj String.[] (String.◌∷◌ d t) h = cc
codes_inj (String.◌∷◌ c s) String.[] h = cc
codes_inj (String.◌∷◌ c s) (String.◌∷◌ d t) h =
    let first : code c ≡ code d = cc h in
    let rest : codes s ≡ codes t = cc h in
    λ i. String.◌∷◌ (Char-path c d first i) (codes_inj s t rest i)

-- What a hexadecimal digit in lower case stands for.
abbrev value : ℕ → ℕ
value c = if leb c 57 then c - 48 else c - 87

hex_digit-value :
    (c : ℕ)
    → is_hex c ≡ true
    → (is_ascii_space c ≡ false) × (hex_digit c ≡ some (value c)) × (value c < 16)
hex_digit-value c h = (ground arith, ground arith, ground arith)

value_inj : (c d : ℕ) → is_hex c ≡ true → is_hex d ≡ true → value c ≡ value d → c ≡ d
value_inj c d hc hd h = ground arith

hex_pair-some :
    (h l : ℕ) (rest : Option (List ℕ)) {bs : List ℕ}
    → hex_pair (some h) (some l) rest ≡ some bs
    → (tail : List ℕ) × (rest ≡ some tail) × (bs ≡ (h * 16 + l) ∷ tail)
hex_pair-some h l (some tail) e = (tail, refl, cc e)
hex_pair-some h l none e = cc

-- Two digits and a rest in lower case.
from_hex-pair :
    (c d : ℕ) (cs : List ℕ) {bs : List ℕ}
    → all is_hex (c ∷ d ∷ cs) ≡ true
    → from_hex (c ∷ d ∷ cs) ≡ some bs
    → (tail : List ℕ) × (from_hex cs ≡ some tail) × (bs ≡ (value c * 16 + value d) ∷ tail)
unfolding from_hex
from_hex-pair c d cs h e =
    let hc = hex_digit-value c (and_left (is_hex c) _ h) in
    let hd = hex_digit-value d (and_left (is_hex d) _ (and_right (is_hex c) _ h)) in
    let step : from_hex (c ∷ d ∷ cs) ≡ hex_pair (some (value c)) (some (value d)) (from_hex cs) =
      ground (arith, hc, hd) in
    hex_pair-some (value c) (value d) (from_hex cs) (sym step ∙ e)

from_hex-empty : from_hex [] ≡ some []
unfolding from_hex
from_hex-empty = refl

from_hex-odd : (c : ℕ) → all is_hex (c ∷ []) ≡ true → from_hex (c ∷ []) ≡ none
unfolding from_hex
from_hex-odd c h = rw (hex_digit-value c (and_left (is_hex c) true h)).0

-- Bytes are written in only one way in lower case.
pub from_hex_inj :
    (cs ds : List ℕ) {bs : List ℕ}
    → all is_hex cs ≡ true
    → all is_hex ds ≡ true
    → from_hex cs ≡ some bs
    → from_hex ds ≡ some bs
    → cs ≡ ds
from_hex_inj [] [] hc hd e f = refl
from_hex_inj [] (d ∷ []) hc hd e f = cc (f, from_hex-odd d hd)
from_hex_inj [] (d ∷ d' ∷ ds) hc hd e f =
    let (tail, _, made) = from_hex-pair d d' ds hd f in cc (from_hex-empty, e, made)
from_hex_inj (c ∷ []) ds hc hd e f = cc (e, from_hex-odd c hc)
from_hex_inj (c ∷ c' ∷ cs) [] hc hd e f =
    let (tail, _, made) = from_hex-pair c c' cs hc e in cc (from_hex-empty, f, made)
from_hex_inj (c ∷ c' ∷ cs) (d ∷ []) hc hd e f = cc (f, from_hex-odd d hd)
from_hex_inj (c ∷ c' ∷ cs) (d ∷ d' ∷ ds) hc hd e f =
    let (tail, more, made) = from_hex-pair c c' cs hc e in
    let (tail', more', made') = from_hex-pair d d' ds hd f in
    let bytes : value c * 16 + value c' ≡ value d * 16 + value d' = cc (made, made') in
    let hc' = and_left (is_hex c') _ (and_right (is_hex c) _ hc) in
    let hd' = and_left (is_hex d') _ (and_right (is_hex d) _ hd) in
    let c'<16 = (hex_digit-value c' hc').2 in
    let d'<16 = (hex_digit-value d' hd').2 in
    let first =
      value_inj c d (and_left (is_hex c) _ hc) (and_left (is_hex d) _ hd)
        (omega (arith, bytes, c'<16, d'<16)) in
    let second = value_inj c' d' hc' hd' (omega (arith, bytes, c'<16, d'<16)) in
    let same : tail ≡ tail' = cc (made, made') in
    let rest =
      from_hex_inj cs ds (and_right (is_hex c') _ (and_right (is_hex c) _ hc))
        (and_right (is_hex d') _ (and_right (is_hex d) _ hd)) more (more' ∙ ap some (sym same)) in
    cc (first, second, rest)

-- Each byte is written in two digits.
pub length-from_hex :
    (cs : List ℕ) {bs : List ℕ}
    → all is_hex cs ≡ true
    → from_hex cs ≡ some bs
    → length cs ≡ 2 * length bs
length-from_hex [] {bs = bs} h e =
    let nothing : bs ≡ [] = cc (from_hex-empty, e) in
    let measured : length bs ≡ 0 = ap length nothing in omega (arith, measured)
length-from_hex (c ∷ []) h e = cc (e, from_hex-odd c h)
length-from_hex (c ∷ d ∷ cs) {bs = bs} h e =
    let (tail, more, made) = from_hex-pair c d cs h e in
    let rest = length-from_hex cs (and_right (is_hex d) _ (and_right (is_hex c) _ h)) more in
    let measured : length bs ≡ suc (length tail) = ap length made in omega (arith, rest, measured)
