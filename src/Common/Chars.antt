-- ===== src/Common/Chars.antt =====
-- Texts as lists of characters, for code that takes them apart and builds new ones.
use Prim.Native.Nat.{ℕ, compare, Ordering, ◌<◌}
use Prim.Native.Char.{Char, char, code, IsLt, IsScalar}
use Prim.Native.String.{String}
use text.Mathlib.TextBridge.{of_list}
use text.Mathlib.TextEquality.{Char-path, IsScalar-prop}
use mathlib.Core.Path.{◌≡◌, refl, ap}
use mathlib.Core.Logic.{◌↔◌, ◌⊎◌, inl, inr}
use mathlib.Core.Bool.{Bool, true, false, ◌&&◌}
use mathlib.Core.Option.{Option, none, some}
use mathlib.Core.List.{List, [], ◌∷◌, map}
use native.Mathlib.Omega.{arith}
use vuln_proof_claw.Common.Tests.{ltb, ltb→lt, nat_beq, nat_beq_iff}
use vuln_proof_claw.Common.Texts.{codes}

abbrev pub chars : String → List Char
chars String.[] = []
chars (String.◌∷◌ c s) = c ∷ chars s

pub chars-of_list : (cs : List Char) → chars (of_list cs) ≡ cs
chars-of_list [] = refl
chars-of_list (c ∷ cs) = ap (λ ds. c ∷ ds) (chars-of_list cs)

pub of_list-chars : (s : String) → of_list (chars s) ≡ s
of_list-chars String.[] = refl
of_list-chars (String.◌∷◌ c s) = ap (λ t. String.◌∷◌ c t) (of_list-chars s)

pub codes-chars : (s : String) → codes s ≡ map code (chars s)
codes-chars String.[] = refl
codes-chars (String.◌∷◌ c s) = ap (λ ds. code c ∷ ds) (codes-chars s)

-- The character has this code point.
abbrev pub is_code : ℕ → Char → Bool
is_code n c = nat_beq (code c) n

abbrev pub chars_beq : List Char → List Char → Bool
chars_beq [] [] = true
chars_beq (c ∷ cs) (d ∷ ds) = nat_beq (code c) (code d) && chars_beq cs ds
chars_beq _ _ = false

pub chars_beq_iff : (cs ds : List Char) → (chars_beq cs ds ≡ true) ↔ (cs ≡ ds)
chars_beq_iff [] [] = (λ _. refl, λ _. refl)
chars_beq_iff [] (d ∷ ds) = (λ h. cc, λ h. cc)
chars_beq_iff (c ∷ cs) [] = (λ h. cc, λ h. cc)
chars_beq_iff (c ∷ cs) (d ∷ ds) = (
  λ h. cc (Char-path c d (ground arith), (chars_beq_iff cs ds).0 (ground arith)),
  λ h. ground (arith, (nat_beq_iff (code c) (code d)).1 (cc), (chars_beq_iff cs ds).1 (cc)),
)

-- `IsScalar` by its three comparisons; its own helpers are private.
abbrev IsBetween : Ordering → Ordering → Type 0
IsBetween Ordering.lt o = IsLt o
IsBetween Ordering.eq _ = ⊥
IsBetween Ordering.gt _ = ⊥

abbrev IsBelowOr : Ordering → Ordering → Ordering → Type 0
IsBelowOr Ordering.lt _ _ = Unit
IsBelowOr Ordering.eq o p = IsBetween o p
IsBelowOr Ordering.gt o p = IsBetween o p

IsLt-dec : (o : Ordering) → Dec (IsLt o)
IsLt-dec Ordering.lt = yes tt
IsLt-dec Ordering.eq = no (λ x. x)
IsLt-dec Ordering.gt = no (λ x. x)

IsBetween-dec : (o p : Ordering) → Dec (IsBetween o p)
unfolding IsLt-dec
IsBetween-dec Ordering.lt p = IsLt-dec p
IsBetween-dec Ordering.eq p = no (λ x. x)
IsBetween-dec Ordering.gt p = no (λ x. x)

IsBelowOr-dec : (o p q : Ordering) → Dec (IsBelowOr o p q)
unfolding IsBetween-dec
IsBelowOr-dec Ordering.lt p q = yes tt
IsBelowOr-dec Ordering.eq p q = IsBetween-dec p q
IsBelowOr-dec Ordering.gt p q = IsBetween-dec p q

unfoldable IsScalar-dec : (n : ℕ) → Dec (IsScalar n)
unfolding IsBelowOr-dec
IsScalar-dec n = IsBelowOr-dec (compare n 55296) (compare 57343 n) (compare n 1114112)

-- `chr(n)`, of a number that is a Unicode scalar value
unfoldable pub to_char : ℕ → Option Char
unfolding IsScalar-dec
to_char n = elim (IsScalar-dec n) [ yes p ↦ some (char n p) | no _ ↦ none ]

pub to_char-code : (c : Char) → to_char (code c) ≡ some c
unfolding to_char
to_char-code (char n p) =
    elim (IsScalar-dec n)
      as (λ d. elim d [ yes q ↦ some (char n q) | no _ ↦ none ] ≡ some (char n p)) [
        | yes q ↦ ap (λ x. some (char n x)) (IsScalar-prop n q p)
        | no m ↦ absurd (m p)
      ]

IsLt-lt : (o : Ordering) → IsLt o → o ≡ Ordering.lt
IsLt-lt Ordering.lt h = refl
IsLt-lt Ordering.eq h = elim h [ ]
IsLt-lt Ordering.gt h = elim h [ ]

IsBetween-lt : (o p : Ordering) → IsBetween o p → (o ≡ Ordering.lt) × (p ≡ Ordering.lt)
IsBetween-lt Ordering.lt p h = (refl, IsLt-lt p h)
IsBetween-lt Ordering.eq p h = elim h [ ]
IsBetween-lt Ordering.gt p h = elim h [ ]

IsBelowOr-lt :
    (o p q : Ordering)
    → IsBelowOr o p q
    → (o ≡ Ordering.lt) ⊎ ((p ≡ Ordering.lt) × (q ≡ Ordering.lt))
IsBelowOr-lt Ordering.lt p q h = inl refl
IsBelowOr-lt Ordering.eq p q h = inr (IsBetween-lt p q h)
IsBelowOr-lt Ordering.gt p q h = inr (IsBetween-lt p q h)

lt_of_compare : (a b : ℕ) → compare a b ≡ Ordering.lt → a < b
lt_of_compare a b h = ltb→lt a b (rw (h, ltb) refl)

-- A character is no surrogate and below 0x110000.
pub code-scalar : (c : Char) → (code c < 55296) ⊎ ((57343 < code c) × (code c < 1114112))
code-scalar (char n p) =
    elim (IsBelowOr-lt (compare n 55296) (compare 57343 n) (compare n 1114112) p) [
      | inl low ↦ inl (lt_of_compare n 55296 low)
      | inr (above, below) ↦ inr (lt_of_compare 57343 n above, lt_of_compare n 1114112 below)
    ]
