-- ===== src/Domain/Plan/Order.antt =====
-- The execution order of a plan.
use mathlib.Core.List.Perm
use mathlib.Core.List.{Perm}
use vuln_proof_claw.Common.{
  ℕ, ◌≤◌, true, false, ◌≡◌, List, [], ◌∷◌, arith, All, Bool-cases, inl, inr,
}
use vuln_proof_claw.Domain.Models.{Task}
use vuln_proof_claw.Domain.Plan.{key_leb, insert_task, ordered}

-- Every task has a sequence number that is at most that of each later one.
abbrev pub InSequence : List Task → Type 0
InSequence [] = Unit
InSequence (t ∷ ts) = All (λ (u : Task). t.sequence ≤ u.sequence) ts × InSequence ts

insert_task-perm : (t : Task) (ts : List Task) → Perm (insert_task t ts) (t ∷ ts)
unfolding insert_task
insert_task-perm t [] = Perm.refl (t ∷ [])
insert_task-perm t (u ∷ us) = elim (Bool-cases (key_leb t u)) [
  | inl le ↦ rw le (Perm.refl (t ∷ u ∷ us))
  | inr gt ↦ rw gt (Perm.trans (Perm.cons u (insert_task-perm t us)) (Perm.swap t u us))
]

ordered-Perm : (ts : List Task) → Perm (ordered ts) ts
unfolding ordered
ordered-Perm [] = Perm.refl []
ordered-Perm (t ∷ ts) = Perm.trans (insert_task-perm t (ordered ts)) (Perm.cons t (ordered-Perm ts))

key_leb-sequence : (a b : Task) → key_leb a b ≡ true → a.sequence ≤ b.sequence
unfolding key_leb
key_leb-sequence a b h = ground arith

key_leb-not : (a b : Task) → key_leb a b ≡ false → b.sequence ≤ a.sequence
unfolding key_leb
key_leb-not a b h = ground arith

All-le_trans :
    (m n : ℕ) (ts : List Task)
    → m ≤ n
    → All (λ (u : Task). n ≤ u.sequence) ts
    → All (λ (u : Task). m ≤ u.sequence) ts
All-le_trans m n [] h all = tt
All-le_trans m n (t ∷ ts) h all = (omega arith, All-le_trans m n ts h all.1)

All-insert_task :
    (m : ℕ) (t : Task) (ts : List Task)
    → m ≤ t.sequence
    → All (λ (u : Task). m ≤ u.sequence) ts
    → All (λ (u : Task). m ≤ u.sequence) (insert_task t ts)
unfolding insert_task
All-insert_task m t [] h all = (h, tt)
All-insert_task m t (u ∷ us) h all = elim (Bool-cases (key_leb t u)) [
  | inl le ↦ rw le (h, all)
  | inr gt ↦ rw gt (all.0, All-insert_task m t us h all.1)
]

insert_task-InSequence : (t : Task) (ts : List Task) → InSequence ts → InSequence (insert_task t ts)
unfolding insert_task
insert_task-InSequence t [] s = (tt, tt)
insert_task-InSequence t (u ∷ us) s = elim (Bool-cases (key_leb t u)) [
  | inl le ↦
      let first = key_leb-sequence t u le in
      rw le ((first, All-le_trans t.sequence u.sequence us first s.0), s)
  | inr gt ↦
      rw gt
        (All-insert_task u.sequence t us (key_leb-not t u gt) s.0, insert_task-InSequence t us s.1)
]

ordered-InSequence : (ts : List Task) → InSequence (ordered ts)
unfolding ordered
ordered-InSequence [] = tt
ordered-InSequence (t ∷ ts) = insert_task-InSequence t (ordered ts) (ordered-InSequence ts)

-- The execution order holds the given tasks, each as often as it was given, and no task stands
-- behind one of a higher sequence number.
pub ordered_lem : (ts : List Task) → Perm (ordered ts) ts × InSequence (ordered ts)
ordered_lem ts = (ordered-Perm ts, ordered-InSequence ts)
