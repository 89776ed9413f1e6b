-- ===== src/Domain/Errors.antt =====
-- domain/errors.py: the errors that domain code raises, and the checks of domain/models.py that
-- every value object shares.
use Prim.Native.String.{◌++◌ as str_append}
use vuln_proof_claw.Common.{true, false, refl, ◌≡◌, Bool, String, is_blank, is_sha256, not, ℕ}
use vuln_proof_claw.Common.Results.{ok, ◌>>◌, Result, raise_if}
use vuln_proof_claw.Domain.Enums.{ActionState}

pub data Error : Type 0 where
  domain_validation : (message : String) → Error
  invalid_action_transition : (current target : ActionState) → Error
  approval_required : Error
  invalid_approval : Error

-- An aware datetime, as the microseconds since 0001-01-01T00:00Z.
abbrev pub Time : Type 0
Time = ℕ

-- A domain call that may raise.
abbrev pub Raises : Type 0 → Type 0
Raises A = Result Error A

-- `_require_text(value, field_name)`
unfoldable pub require_text : String → String → Raises (Unit {0})
unfolding is_blank
require_text value field_name =
    raise_if (is_blank value) (domain_validation (str_append field_name " must not be empty"))

-- `_require_sha256(value, field_name)`
unfoldable pub require_sha256 : String → String → Raises (Unit {0})
unfolding is_sha256
require_sha256 value field_name =
    raise_if (not (is_sha256 value))
      (domain_validation (str_append field_name " must be a lowercase SHA-256 digest"))

-- `if test: raise DomainValidationError(message)`
abbrev pub refuse_if : Bool → String → Raises (Unit {0})
refuse_if test message = raise_if test (domain_validation message)

-- Where what follows a check has returned, the check was passed.
pub refuse_if-eq-ok :
    {B : Type 0} (test : Bool) (message : String) (rest : Raises B) {b : B}
    → (refuse_if test message >> rest) ≡ ok b
    → (test ≡ false) × (rest ≡ ok b)
refuse_if-eq-ok true message rest h = cc
refuse_if-eq-ok false message rest h = (refl, h)
