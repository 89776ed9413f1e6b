-- ===== src/Policy/Scope/Rules/Each.antt =====
-- What `normalize_each` keeps of the items, in both directions.
use mathlib.Core.List.{Mem, mem-cons, mem-cons_self, mem-cons_of_mem, not-mem-nil}
use mathlib.Core.Logic.Or
use vuln_proof_claw.Common.{
  Bool, true, false, ◌||◌, ◌≡◌, subst, ap, sym, ◌∙◌, inl, inr, List, [], ◌∷◌, any, arith,
  Bool-cases,
}
use vuln_proof_claw.Common.Results.{ok, >>=-eq-ok}
use vuln_proof_claw.Domain.Errors.{Raises}
use vuln_proof_claw.Policy.Scope.Rules.{normalize_each}

Bool-set : IsSet Bool
Bool-set = hlevel

module _ {A B : Type 0} (normalize : A → Raises B) (p : B → Bool) where
  -- What passes a test after the normalization comes from an item.
  pub any-normalize_each :
      (xs : List A) {ys : List B}
      → normalize_each normalize xs ≡ ok ys
      → any p ys ≡ true
      → (x : A) × Mem x xs × (y : B) × (normalize x ≡ ok y) × (p y ≡ true)
  any-normalize_each [] {ys} e h =
      let none_made : [] ≡ ys = ground arith in cc (ap (any p) none_made, h)
  any-normalize_each (x ∷ xs) {ys} e h =
      let (y, first, e1) = >>=-eq-ok (normalize x) _ e in
      let (rest, others, e2) = >>=-eq-ok (normalize_each normalize xs) _ e1 in
      let made : (y ∷ rest) ≡ ys = ground arith in
      let found : (p y || any p rest) ≡ true = ap (any p) made ∙ h in
      elim (Bool-cases (p y)) [
        | inl here ↦ (x, mem-cons_self, y, first, here)
        | inr there ↦
            let (z, member, w, given, passed) = any-normalize_each xs others (rw there at found) in
            (z, mem-cons_of_mem x member, w, given, passed)
      ]

  -- Where nothing passes a test after the normalization, no item's normal form does.
  pub any-normalize_each-false :
      (xs : List A) {ys : List B}
      → normalize_each normalize xs ≡ ok ys
      → any p ys ≡ false
      → {x : A} {y : B} → Mem x xs
      → normalize x ≡ ok y
      → p y ≡ false
  any-normalize_each-false [] e h member given = absurd (not-mem-nil member)
  any-normalize_each-false (x ∷ xs) {ys} e h {x = z} {y = w} member given =
      let (y, first, e1) = >>=-eq-ok (normalize x) _ e in
      let (rest, others, e2) = >>=-eq-ok (normalize_each normalize xs) _ e1 in
      let made : (y ∷ rest) ≡ ys = ground arith in
      let missed : (p y || any p rest) ≡ false = ap (any p) made ∙ h in
      Or.elim (Bool-set _ _) (mem-cons.0 member)
        (λ same.
          let alike : ok y ≡ ok w = sym first ∙ ap normalize (sym same) ∙ given in
          let equal : y ≡ w = ground arith in subst (λ v. p v ≡ false) equal (ground arith))
        (λ later. any-normalize_each-false xs others (ground arith) later given)
