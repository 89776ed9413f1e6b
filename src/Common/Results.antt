-- ===== src/Common/Results.antt =====
-- What a call that may raise gives back, with the error's class and text.
use mathlib.Core.Path.{◌≡◌, refl}
use mathlib.Core.Logic.{◌⊎◌, inl, inr}
use mathlib.Core.Bool.{Bool, true, false}

-- `D` names the exceptions of one module; every module's own type stands here.
pub data Result {ℓ κ} (D : Type ℓ) (A : Type κ) : Type (ℓ ⊔ κ) where
  ok : A → Result D A
  err : D → Result D A

module _ {D : Type 0} where
  -- `if test: raise e`
  abbrev pub raise_if : Bool → D → Result D (Unit {0})
  raise_if test e = elim test [ true ↦ err e | false ↦ ok tt ]

  -- What follows a call that returned; an exception is passed on.
  infixl 5 ◌>>=◌ ◌>>◌
  abbrev pub ◌>>=◌ : {A B : Type 0} → Result D A → (A → Result D B) → Result D B
  err exception >>= after = err exception
  ok value >>= after = after value

  -- Where a call and what follows it have returned, each of them has.
  pub >>=-eq-ok :
      {A B : Type 0} (call : Result D A) (after : A → Result D B) {b : B}
      → (call >>= after) ≡ ok b
      → (a : A) × (call ≡ ok a) × (after a ≡ ok b)
  >>=-eq-ok (err exception) after h = cc
  >>=-eq-ok (ok value) after h = (value, refl, h)

  abbrev pub ◌>>◌ : {B : Type 0} → Result D (Unit {0}) → Result D B → Result D B
  check >> rest = check >>= λ _. rest

pub ok_inj : {D A : Type 0} {a b : A} → ◌≡◌ {A = Result D A} (ok a) (ok b) → a ≡ b
ok_inj h = cc h

pub result_cases :
    {D A : Type 0} (m : Result D A) → ((a : A) × (m ≡ ok a)) ⊎ ((e : D) × (m ≡ err e))
result_cases (ok a) = inl (a, refl)
result_cases (err e) = inr (e, refl)
