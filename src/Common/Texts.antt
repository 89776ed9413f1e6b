-- ===== src/Common/Texts.antt =====
-- Texts as Python's `str` methods see them, by code points.
use Prim.Native.Nat.{ℕ, zero, suc}
use native.Mathlib.Omega.{arith}
use mathlib.Core.Logic.{◌↔◌, inl, inr}
use Prim.Native.Char.{code}
use Prim.Native.String.{String}
use mathlib.Core.Path.{◌≡◌, refl, ap}
use mathlib.Core.Bool.{Bool, true, false, ◌&&◌, ◌||◌}
use mathlib.Core.List.{List, [], ◌∷◌, ◌++◌}
use vuln_proof_claw.Common.Tests.{leb, nat_beq, Bool-cases}
use vuln_proof_claw.Common.Lists.{length, all, is_empty}

-- The code points of a text. `String` has its own `[]` and `∷`.
abbrev pub codes : String → List ℕ
codes String.[] = []
codes (String.◌∷◌ c s) = code c ∷ codes s

abbrev pub in_range : ℕ → ℕ → ℕ → Bool
in_range lo hi c = leb lo c && leb c hi

-- `str.isspace` of one character: what `strip` removes and `\s` matches.
unfoldable pub is_space : ℕ → Bool
is_space c =
    in_range 9 13 c
    || in_range 28 32 c
    || nat_beq c 133
    || nat_beq c 160
    || nat_beq c 0x1680
    || in_range 0x2000 0x200a c
    || in_range 0x2028 0x2029 c
    || nat_beq c 0x202f
    || nat_beq c 0x205f
    || nat_beq c 0x3000

-- `not value.strip()`
unfoldable pub is_blank : String → Bool
unfolding is_space
is_blank s = all is_space (codes s)

-- `re.fullmatch("[a-f0-9]{64}", value)`
abbrev pub is_hex : ℕ → Bool
is_hex c = in_range b'a' b'f' c || in_range b'0' b'9' c

unfoldable pub is_sha256 : String → Bool
is_sha256 s = nat_beq (length (codes s)) 64 && all is_hex (codes s)

-- Equality of texts that are held as code points.
abbrev pub codes_beq : List ℕ → List ℕ → Bool
codes_beq [] [] = true
codes_beq (c ∷ cs) (d ∷ ds) = nat_beq c d && codes_beq cs ds
codes_beq _ _ = false

pub codes_beq_iff : (cs ds : List ℕ) → (codes_beq cs ds ≡ true) ↔ (cs ≡ ds)
codes_beq_iff [] [] = (λ _. refl, λ _. refl)
codes_beq_iff [] (d ∷ ds) = (λ h. cc, λ h. cc)
codes_beq_iff (c ∷ cs) [] = (λ h. cc, λ h. cc)
codes_beq_iff (c ∷ cs) (d ∷ ds) =
    (λ h. ground (arith, (codes_beq_iff cs ds).0), λ h. ground (arith, (codes_beq_iff cs ds).1))

-- `xs.startswith(prefix)`
abbrev pub starts_with : List ℕ → List ℕ → Bool
starts_with [] cs = true
starts_with (p ∷ ps) [] = false
starts_with (p ∷ ps) (c ∷ cs) = nat_beq p c && starts_with ps cs

-- `xs.endswith(suffix)`
abbrev pub ends_with : List ℕ → List ℕ → Bool
ends_with suffix [] = is_empty suffix
ends_with suffix (c ∷ cs) = codes_beq (c ∷ cs) suffix || ends_with suffix cs

abbrev pub drop : ℕ → List ℕ → List ℕ
drop zero cs = cs
drop (suc n) [] = []
drop (suc n) (c ∷ cs) = drop n cs

pub starts_with-append : (ps cs : List ℕ) → starts_with ps (ps ++ cs) ≡ true
starts_with-append [] cs = refl
starts_with-append (p ∷ ps) cs = ground (arith, starts_with-append ps cs)

-- A text that starts with a prefix is the prefix and a rest.
pub starts_with-split :
    (ps cs : List ℕ) → starts_with ps cs ≡ true → (rest : List ℕ) × (cs ≡ ps ++ rest)
starts_with-split [] cs h = (cs, refl)
starts_with-split (p ∷ ps) [] h = cc
starts_with-split (p ∷ ps) (c ∷ cs) h =
    let (rest, e) = starts_with-split ps cs (ground arith) in (rest, ground arith)

pub ends_with-append : (suffix cs : List ℕ) → ends_with suffix (cs ++ suffix) ≡ true
ends_with-append [] [] = refl
ends_with-append (s ∷ ss) [] = ground (arith, codes_beq_iff ss ss)
ends_with-append suffix (c ∷ cs) = ground (arith, ends_with-append suffix cs)

pub ends_with-split :
    (suffix cs : List ℕ) → ends_with suffix cs ≡ true → (front : List ℕ) × (cs ≡ front ++ suffix)
ends_with-split [] [] h = ([], refl)
ends_with-split (s ∷ ss) [] h = cc
ends_with-split suffix (c ∷ cs) h = elim (Bool-cases (codes_beq (c ∷ cs) suffix)) [
  | inl all_of_it ↦ ([], (codes_beq_iff (c ∷ cs) suffix).0 all_of_it)
  | inr less ↦
      let (front, e) = ends_with-split suffix cs (ground arith) in
      (c ∷ front, ap (λ (ds : List ℕ). c ∷ ds) e)
]
