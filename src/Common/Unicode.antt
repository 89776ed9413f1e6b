-- ===== src/Common/Unicode.antt =====
-- What Python's `str` asks of the Unicode character database, which is data of the interpreter.
use vuln_proof_claw.Common.Texts.{in_range}
use Prim.Native.Nat.{ℕ, ◌+◌}
use mathlib.Core.Bool.{Bool, ◌||◌}
use mathlib.Core.List.{List, [], ◌∷◌}
use vuln_proof_claw.Common.Tests.{if◌then◌else◌}

pub record Unicode : Type 0 where
  pub is_digit : ℕ → Bool
  pub is_alnum : ℕ → Bool
  -- A character's lower case may be several characters.
  pub lower : ℕ → List ℕ

-- The database restricted to ASCII.
abbrev pub ascii : Unicode
ascii = record {
  is_digit = λ c. in_range b'0' b'9' c;
  is_alnum = λ c. in_range b'0' b'9' c || in_range b'a' b'z' c || in_range b'A' b'Z' c;
  lower = λ c. (if in_range b'A' b'Z' c then c + 32 else c) ∷ [];
}
