-- ===== src/Execution/Registry/InFlight.antt =====
-- What `list_in_flight` of persistence/repositories.py lists.
use vuln_proof_claw.Common.{
  true, false, ◌≡◌, refl, ap, ◌∙◌, sym, some, List, [], ◌∷◌, String, ◌==◌, ◌||◌, contains, lookup,
  if◌then◌else◌, if_split, string_eq, eq_iff, arith, inl, inr, Bool-cases, All, IsUnique,
  eq_false_sym, map, sort_by, insert_by, All-sort_by,
}
use vuln_proof_claw.Common.Results.{ok}
use vuln_proof_claw.Persistence.{Stored}
use vuln_proof_claw.Execution.Registry.{
  WorkerExecution, Rows, validate_execution, is_in_flight, rows_in_flight, execution_leb,
  list_in_flight,
}

abbrev pub ids : List (Stored WorkerExecution) → List String
ids = map (λ (row : Stored WorkerExecution). row.entity.id)

-- The row is there, and passes its constructor's checks.
abbrev pub IsThere : Rows → Stored WorkerExecution → Type 0
IsThere rows row =
    (lookup row.entity.id rows ≡ some row) × (validate_execution row.entity ≡ ok row.entity)

abbrev pub keys : Rows → List String
keys = map (λ (x : String × Stored WorkerExecution). x.0)

-- Every row stands under its execution's identifier, once, and passes its constructor's checks.
abbrev pub RowsFit : Rows → Type 0
RowsFit rows =
    All
      (λ (x : String × Stored WorkerExecution).
        (x.1.entity.id ≡ x.0) × (validate_execution x.1.entity ≡ ok x.1.entity))
      rows
    × IsUnique (keys rows)

contains-insert_by :
    (a : Stored WorkerExecution) (xs : List (Stored WorkerExecution)) (k : String)
    → contains (ids (insert_by execution_leb a xs)) k ≡ (k == a.entity.id || contains (ids xs) k)
unfolding insert_by
contains-insert_by a [] k = refl
contains-insert_by a (x ∷ xs) k =
    if_split
      (λ (ys : List (Stored WorkerExecution)).
        contains (ids ys) k ≡ (k == a.entity.id || (k == x.entity.id || contains (ids xs) k)))
      (execution_leb a x) _ _ (λ _. refl) (λ _. ground (arith, contains-insert_by a xs k))

contains-sort_by :
    (xs : List (Stored WorkerExecution)) (k : String)
    → contains (ids (sort_by execution_leb xs)) k ≡ contains (ids xs) k
unfolding sort_by
contains-sort_by [] k = refl
contains-sort_by (x ∷ xs) k =
    contains-insert_by x (sort_by execution_leb xs) k
    ∙ ap (λ b. k == x.entity.id || b) (contains-sort_by xs k)

insert_by-IsUnique :
    (a : Stored WorkerExecution) (xs : List (Stored WorkerExecution))
    → contains (ids xs) a.entity.id ≡ false
    → IsUnique (ids xs)
    → IsUnique (ids (insert_by execution_leb a xs))
unfolding insert_by
insert_by-IsUnique a [] fresh unique = (refl, tt)
insert_by-IsUnique a (x ∷ xs) fresh unique =
    if_split (λ (ys : List (Stored WorkerExecution)). IsUnique (ids ys)) (execution_leb a x) _ _
      (λ _. (fresh, unique))
      (λ _.
        let apart : (a.entity.id == x.entity.id) ≡ false = ground arith in
        let rest : contains (ids xs) a.entity.id ≡ false = ground arith in
        (
          contains-insert_by a xs x.entity.id
              ∙ ap (λ b. b || contains (ids xs) x.entity.id)
                  (eq_false_sym a.entity.id x.entity.id apart)
              ∙ unique.0,
          insert_by-IsUnique a xs rest unique.1,
        ))

sort_by-IsUnique :
    (xs : List (Stored WorkerExecution))
    → IsUnique (ids xs)
    → IsUnique (ids (sort_by execution_leb xs))
unfolding sort_by
sort_by-IsUnique [] unique = tt
sort_by-IsUnique (x ∷ xs) unique =
    insert_by-IsUnique x (sort_by execution_leb xs) (contains-sort_by xs x.entity.id ∙ unique.0)
      (sort_by-IsUnique xs unique.1)

-- What is under no key is not listed.
rows_in_flight-fresh :
    (rows : Rows) (k : String)
    → RowsFit rows
    → contains (keys rows) k ≡ false
    → contains (ids (rows_in_flight rows)) k ≡ false
rows_in_flight-fresh [] k fit fresh = refl
rows_in_flight-fresh ((id, row) ∷ rows) k fit fresh =
    let apart : (k == id) ≡ false = ground arith in
    let rest = rows_in_flight-fresh rows k (fit.0.1, fit.1.1) (ground arith) in
    if_split (λ (ys : List (Stored WorkerExecution)). contains (ids ys) k ≡ false)
      (is_in_flight row.entity.state) _ _
      (λ _.
        ap (λ b. b || contains (ids (rows_in_flight rows)) k) (ap (λ i. k == i) fit.0.0.0 ∙ apart)
        ∙ rest)
      (λ _. rest)

rows_in_flight-IsUnique : (rows : Rows) → RowsFit rows → IsUnique (ids (rows_in_flight rows))
rows_in_flight-IsUnique [] fit = tt
rows_in_flight-IsUnique ((id, row) ∷ rows) fit =
    let rest = rows_in_flight-IsUnique rows (fit.0.1, fit.1.1) in
    if_split (λ (ys : List (Stored WorkerExecution)). IsUnique (ids ys))
      (is_in_flight row.entity.state) _ _
      (λ _. (
        ap (contains (ids (rows_in_flight rows))) fit.0.0.0
            ∙ rows_in_flight-fresh rows id (fit.0.1, fit.1.1) fit.1.0,
        rest,
      ))
      (λ _. rest)

lookup-contains :
    (k : String) (rows : Rows) {row : Stored WorkerExecution}
    → lookup k rows ≡ some row
    → contains (keys rows) k ≡ true
lookup-contains k [] found = cc
lookup-contains k ((j, x) ∷ rows) {row} found = elim (Bool-cases (j == k)) [
  | inl here ↦ ap (λ b. b || contains (keys rows) k) ((eq_iff k j).1 (sym ((eq_iff j k).0 here)))
  | inr other ↦
      let rest : lookup k rows ≡ some row = rw other at found in
      let later = lookup-contains k rows rest in
      ap (λ b. b || contains (keys rows) k) (eq_false_sym j k other) ∙ later
]

-- A row of the rest is found past the first.
IsThere-later :
    (id : String) (row : Stored WorkerExecution) (rows : Rows) (xs : List (Stored WorkerExecution))
    → contains (keys rows) id ≡ false
    → All (IsThere rows) xs
    → All (IsThere ((id, row) ∷ rows)) xs
IsThere-later id row rows [] fresh there = tt
IsThere-later id row rows (x ∷ xs) fresh there = (
  (
    if_split (λ o. o ≡ some x) (id == x.entity.id) _ _
        (λ same. cc (
          lookup-contains x.entity.id rows there.0.0,
          fresh,
          ap (contains (keys rows)) ((eq_iff id x.entity.id).0 same),
        ))
        (λ _. there.0.0),
    there.0.1,
  ),
  IsThere-later id row rows xs fresh there.1,
)

rows_in_flight-IsThere : (rows : Rows) → RowsFit rows → All (IsThere rows) (rows_in_flight rows)
rows_in_flight-IsThere [] fit = tt
rows_in_flight-IsThere ((id, row) ∷ rows) fit =
    let rest =
      IsThere-later id row rows (rows_in_flight rows) fit.1.0
        (rows_in_flight-IsThere rows (fit.0.1, fit.1.1)) in
    if_split (All (IsThere ((id, row) ∷ rows))) (is_in_flight row.entity.state) _ _
      (λ _. (
        (
          ap (λ b. if b then some row else lookup row.entity.id rows)
              ((eq_iff id row.entity.id).1 (sym fit.0.0.0)),
          fit.0.0.1,
        ),
        rest,
      ))
      (λ _. rest)

rows_in_flight-contains :
    (k : String) (row : Stored WorkerExecution) (rows : Rows)
    → RowsFit rows
    → lookup k rows ≡ some row
    → is_in_flight row.entity.state ≡ true
    → contains (ids (rows_in_flight rows)) k ≡ true
rows_in_flight-contains k row [] fit found flying = cc
rows_in_flight-contains k row ((id, x) ∷ rows) fit found flying = elim (Bool-cases (id == k)) [
  | inl here ↦
      let found' : some x ≡ some row = rw here at found in
      let same : x ≡ row = cc found' in
      let listed : is_in_flight x.entity.state ≡ true =
        ap (λ (y : Stored WorkerExecution). is_in_flight y.entity.state) same ∙ flying in
      ap (λ b. contains (ids (if b then x ∷ rows_in_flight rows else rows_in_flight rows)) k) listed
      ∙ ap (λ b. b || contains (ids (rows_in_flight rows)) k)
          ((eq_iff k x.entity.id).1 (sym (fit.0.0.0 ∙ (eq_iff id k).0 here)))
  | inr other ↦
      let found' : lookup k rows ≡ some row = rw other at found in
      let later = rows_in_flight-contains k row rows (fit.0.1, fit.1.1) found' flying in
      if_split (λ (ys : List (Stored WorkerExecution)). contains (ids ys) k ≡ true)
        (is_in_flight x.entity.state) _ _ (λ _. ground (arith, later)) (λ _. later)
]

pub list_in_flight-IsThere : (rows : Rows) → RowsFit rows → All (IsThere rows) (list_in_flight rows)
unfolding list_in_flight
list_in_flight-IsThere rows fit =
    All-sort_by execution_leb (IsThere rows) (rows_in_flight rows) (rows_in_flight-IsThere rows fit)

pub list_in_flight-IsUnique : (rows : Rows) → RowsFit rows → IsUnique (ids (list_in_flight rows))
unfolding list_in_flight
list_in_flight-IsUnique rows fit =
    sort_by-IsUnique (rows_in_flight rows) (rows_in_flight-IsUnique rows fit)

pub list_in_flight-contains :
    (k : String) (row : Stored WorkerExecution) (rows : Rows)
    → RowsFit rows
    → lookup k rows ≡ some row
    → is_in_flight row.entity.state ≡ true
    → contains (ids (list_in_flight rows)) k ≡ true
unfolding list_in_flight
list_in_flight-contains k row rows fit found flying =
    contains-sort_by (rows_in_flight rows) k ∙ rows_in_flight-contains k row rows fit found flying
