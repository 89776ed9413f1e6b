-- ===== src/Domain/Plan/Resume.antt =====
-- Where a fresh worker goes on.
use mathlib.Core.List.Perm
use mathlib.Core.List.{Mem, mem-cons_self, mem-cons_of_mem, mem-cons, not-mem-nil}
use mathlib.Core.Logic.Or
use native.Mathlib.Bridge.{le_prop}
use native.Mathlib.Nat.{le_refl}
use vuln_proof_claw.Common.{
  ℕ, ◌≤◌, ◌<◌, true, ◌≡◌, refl, List, [], ◌∷◌, arith, All, Bool-cases, inl, inr, some, ◌&&◌,
  is_some, not, ap, ◌∙◌,
}
use vuln_proof_claw.Domain.Enums.{resumable, task_terminal, TaskState}
use vuln_proof_claw.Domain.Models.{Task}
use vuln_proof_claw.Domain.Plan.{first_resumable, insert_task, ordered, resume_point, is_complete}
use vuln_proof_claw.Domain.Plan.Order.{InSequence, ordered_lem}

-- The step at which a plan is taken up: it is one of the plan's, it can be resumed, and no step
-- that can be resumed has a lower sequence number.
record IsResumePoint (tasks : List Task) (t : Task) : Type 0 where
  pub planned : Mem t tasks
  pub resumes : resumable t.state ≡ true
  pub first : (u : Task) → ¬ (Mem u tasks × (resumable u.state ≡ true) × (u.sequence < t.sequence))

record IsFirst (tasks : List Task) (t : Task) : Type 0 where
  planned : Mem t tasks
  resumes : resumable t.state ≡ true
  first : (u : Task) → Mem u tasks → resumable u.state ≡ true → t.sequence ≤ u.sequence

All-Mem :
    (m : ℕ) (ts : List Task) (u : Task)
    → All (λ (v : Task). m ≤ v.sequence) ts
    → Mem u ts
    → m ≤ u.sequence
All-Mem m [] u h i = absurd (not-mem-nil i)
All-Mem m (t ∷ ts) u h i = Or.elim le_prop (mem-cons.0 i) (λ e. rw e h.0) (All-Mem m ts u h.1)

first_is_least :
    (x : Task) (ts : List Task) (u : Task)
    → All (λ (v : Task). x.sequence ≤ v.sequence) ts
    → Mem u (x ∷ ts)
    → x.sequence ≤ u.sequence
first_is_least x ts u h = All-Mem x.sequence (x ∷ ts) u (le_refl x.sequence, h)

first_resumable-some :
    (ts : List Task) {t : Task} → InSequence ts → first_resumable ts ≡ some t → IsFirst ts t
unfolding first_resumable
first_resumable-some [] s h = cc
first_resumable-some (x ∷ ts) {t} s h = elim (Bool-cases (resumable x.state)) [
  | inl yes_here ↦
      let same : x ≡ t = ground arith in
      rw (← same) (record {
        planned = mem-cons_self;
        resumes = yes_here;
        first = λ u i r. first_is_least x ts u s.0 i;
      })
  | inr not_here ↦
      let later = first_resumable-some ts {t = t} s.1 (ground arith) in
      record {
        planned = mem-cons_of_mem x later.planned;
        resumes = later.resumes;
        first = λ u i r.
            Or.elim le_prop (mem-cons.0 i) (λ e. cc (ap (λ (v : Task). resumable v.state) e))
              (λ k. later.first u k r);
      }
]

-- `resumable` and `terminal` are complements.
resumable-terminal : (s : TaskState) → task_terminal s ≡ not (resumable s)
unfolding resumable task_terminal
resumable-terminal s = ground arith

is_complete-insert_task :
    (t : Task) (ts : List Task)
    → is_complete (insert_task t ts) ≡ (task_terminal t.state && is_complete ts)
unfolding is_complete insert_task
is_complete-insert_task t [] = refl
is_complete-insert_task t (u ∷ us) = ground (arith, is_complete-insert_task t us)

is_complete-ordered : (ts : List Task) → is_complete (ordered ts) ≡ is_complete ts
unfolding ordered is_complete
is_complete-ordered [] = refl
is_complete-ordered (t ∷ ts) = cc (is_complete-insert_task t (ordered ts), is_complete-ordered ts)

first_resumable-none : (ts : List Task) → is_some (first_resumable ts) ≡ not (is_complete ts)
unfolding first_resumable is_complete
first_resumable-none [] = refl
first_resumable-none (t ∷ ts) = ground (arith, first_resumable-none ts, resumable-terminal t.state)

-- Where `resume_point` names a step, the plan has it, it can be resumed, and no step that can be
-- resumed has a lower sequence number.
resume_point-IsResumePoint :
    (tasks : List Task) {t : Task} → resume_point tasks ≡ some t → IsResumePoint tasks t
unfolding resume_point
resume_point-IsResumePoint tasks {t} h =
    let (perm, in_sequence) = ordered_lem tasks in
    let p = first_resumable-some (ordered tasks) {t = t} in_sequence h in
    record {
      planned = Perm.subset perm t p.planned;
      resumes = p.resumes;
      first =
          λ u (i, r, lower). omega (arith, p.first u (Perm.subset (Perm.symm perm) u i) r, lower);
    }

-- `resume_point` names a step exactly as long as the plan is not complete.
resume_point-is_complete :
    (tasks : List Task) → is_some (resume_point tasks) ≡ not (is_complete tasks)
unfolding resume_point
resume_point-is_complete tasks =
    first_resumable-none (ordered tasks) ∙ ap not (is_complete-ordered tasks)
