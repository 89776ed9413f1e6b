-- ===== src/Execution/Authorization/Spending.antt =====
-- The rows of the approvals before and after the start of an execution.
use vuln_proof_claw.Common.{
  ℕ, suc, ◌+◌, ◌≤◌, ◌<◌, ◌≡◌, ◌≢◌, refl, Option, none, some, arith, lookup, insert, lookup-insert,
  string_eq, eq_iff, String, ◌==◌, if◌then◌else◌, ap, ◌∙◌, sym, subst, Bool-cases, inl, inr,
}
use vuln_proof_claw.Domain.Errors.{Time}
use vuln_proof_claw.Domain.Models.{Action, Approval}
use vuln_proof_claw.Policy.Approval.Use.{authorizes-Covers}
use vuln_proof_claw.Persistence.{Stored, Database}
use vuln_proof_claw.Execution.Authorization.Begin.{Consumed}
use vuln_proof_claw.Execution.Authorization.Recheck.{IsNamed}

-- A row stands under its own identifier.
abbrev pub IsKeyed : String → Option (Stored Approval) → Type 0
IsKeyed k none = Unit
IsKeyed k (some row) = row.entity.id ≡ k

module _ {Network : Type 0} where
  -- Every approval of the database stands under its own identifier.
  abbrev pub HasKeys : Database Network → Type 0
  HasKeys db = (k : String) → IsKeyed k (lookup k db.approvals)

  -- The rows of the approvals after an execution has begun: the one that was named, if any, was in
  -- force and not used up, and has one execution more consumed.
  abbrev pub Spent : Option String → Database Network → Database Network → Type 0
  Spent none db db' = db'.approvals ≡ db.approvals
  Spent (some id) db db' =
      (row : Stored Approval) × (s : Stored Approval) × (lookup id db.approvals ≡ some row)
      × (row.entity.consumed_executions < row.entity.permitted_executions)
      × (s.entity
          ≡ record (row.entity) { consumed_executions = row.entity.consumed_executions + 1 })
      × (db'.approvals ≡ insert id s db.approvals)

  Consumed-Spent :
      (id : String) (row : Stored Approval) (a : Action) (at : Time)
      (db middle db' : Database Network)
      → lookup id db.approvals ≡ some row
      → row.entity.id ≡ id
      → middle.approvals ≡ db.approvals
      → Consumed (some row) a at middle db'
      → Spent (some id) db db'
  Consumed-Spent id row a at db middle db' found keyed same
        (row2, s, found2, _, authorized, entity, after) =
      let there : lookup id db.approvals ≡ some row2 =
        ap (lookup id) (sym same)
        ∙ subst (λ k. lookup k middle.approvals ≡ some row2) keyed found2 in
      let same_row : row2 ≡ row = cc (there, found) in
      let covers = (authorizes-Covers row.entity a at).0 authorized in
      (
        row,
        s,
        found,
        covers.unused,
        entity
            ∙ ap
                (λ (r : Stored Approval). record (r.entity) {
                  consumed_executions = row.entity.consumed_executions + 1;
                })
                same_row,
        ap (λ (d : Database Network). d.approvals) after
            ∙ ap (λ k. insert k s middle.approvals) keyed
            ∙ ap (insert id s) same,
      )

  pub named-Spent :
      (named : Option String) (approval : Option (Stored Approval)) (a : Action) (at : Time)
      (db middle db' : Database Network)
      → HasKeys db
      → IsNamed named approval db
      → middle.approvals ≡ db.approvals
      → Consumed approval a at middle db'
      → Spent named db db'
  named-Spent none approval a at db middle db' keys absent same consumed =
      ap (λ (d : Database Network). d.approvals)
        (subst (λ p. Consumed p a at middle db') absent consumed)
      ∙ same
  named-Spent (some id) approval a at db middle db' keys (row, found, given) same consumed =
      Consumed-Spent id row a at db middle db' found (subst (IsKeyed id) found (keys id)) same
        (subst (λ p. Consumed p a at middle db') given consumed)

  pub Spent-HasKeys :
      (named : Option String) (db db' : Database Network)
      → HasKeys db
      → Spent named db db'
      → HasKeys db'
  Spent-HasKeys none db db' keys same =
      λ k. subst (λ rows. IsKeyed k (lookup k rows)) (sym same) (keys k)
  Spent-HasKeys (some id) db db' keys (row, s, found, _, entity, after) = λ k.
      let keyed : row.entity.id ≡ id = subst (IsKeyed id) found (keys id) in
      subst (IsKeyed k) (sym (ap (lookup k) after ∙ lookup-insert id k s db.approvals))
        (elim (Bool-cases (id == k)) [
          | inl same ↦
              subst (λ b. IsKeyed k (if b then some s else lookup k db.approvals)) (sym same)
                (ap (λ (p : Approval). p.id) entity ∙ keyed ∙ (eq_iff id k).0 same)
          | inr other ↦
              subst (λ b. IsKeyed k (if b then some s else lookup k db.approvals)) (sym other)
                (keys k)
        ])

  -- The row of an approval, with what it has consumed and what it permits.
  abbrev pub Holds : String → ℕ → ℕ → Database Network → Type 0
  Holds k consumed permitted db =
      (row : Stored Approval) × (lookup k db.approvals ≡ some row)
      × (row.entity.consumed_executions ≡ consumed)
      × (row.entity.permitted_executions ≡ permitted)
      × (consumed ≤ permitted)

  pub Spent-Holds :
      (k : String) (c p : ℕ) (db db' : Database Network)
      → Spent (some k) db db'
      → Holds k c p db
      → Holds k (suc c) p db'
  Spent-Holds k c p db db' (row, s, found, unused, entity, after)
        (row', found', consumed, permitted, le) =
      let same : row ≡ row' = cc (found, found') in
      let consumed' : row.entity.consumed_executions ≡ c =
        ap (λ (r : Stored Approval). r.entity.consumed_executions) same ∙ consumed in
      let permitted' : row.entity.permitted_executions ≡ p =
        ap (λ (r : Stored Approval). r.entity.permitted_executions) same ∙ permitted in
      let counted : s.entity.consumed_executions ≡ row.entity.consumed_executions + 1 =
        ap (λ (x : Approval). x.consumed_executions) entity in
      (
        s,
        ap (lookup k) after
            ∙ lookup-insert k k s db.approvals
            ∙ ap (λ b. if b then some s else lookup k db.approvals) ((eq_iff k k).1 refl),
        omega (arith, counted, consumed'),
        ap (λ (x : Approval). x.permitted_executions) entity ∙ permitted',
        omega (arith, unused, consumed', permitted'),
      )

  pub other-Holds :
      (named : Option String) (k : String) (c p : ℕ) (db db' : Database Network)
      → named ≢ some k
      → Spent named db db'
      → Holds k c p db
      → Holds k c p db'
  other-Holds none k c p db db' other same (row, found, c', p', le) =
      (row, ap (lookup k) same ∙ found, c', p', le)
  other-Holds (some id) k c p db db' other (_, s, _, _, _, after) (row, found, c', p', le) =
      elim (Bool-cases (id == k)) [
        | inl same ↦ absurd (other (ap some ((eq_iff id k).0 same)))
        | inr apart ↦ (
          row,
          ap (lookup k) after
              ∙ lookup-insert id k s db.approvals
              ∙ ap (λ b. if b then some s else lookup k db.approvals) apart
              ∙ found,
          c',
          p',
          le,
        )
      ]
