-- ===== src/Jobs/Final.antt =====
-- A row that is not pending keeps its status, its attempts and its error for good.
use mathlib.Core.List.{◌++◌}
use bots_infra_be.Common.{
  ℕ, ◌≡◌, sym, ◌∙◌, true, false, Option, none, some, [], ◌∷◌, All-split, subst, arith, ◌==◌, ==_iff,
  if◌then◌else◌, Bool-cases, inl, inr,
}
use bots_infra_be.Jobs.{Job, Queue, is_pending, is_due}
use bots_infra_be.Jobs.Handle.{Effects}
use bots_infra_be.Jobs.Worker.{work, work_at, Passes}
use bots_infra_be.Jobs.Claim.{Distinct}
use bots_infra_be.Jobs.Attempts.{outcome, outcome-id, work-cases, work-Distinct, Pass}

-- The row of an id.
unfoldable pub find : ℕ → Queue → Option Job
find i [] = none
find i (j ∷ q) = if j.id == i then some j else find i q

abbrev Pending : Option Job → Type 0
Pending none = Unit
Pending (some j) = is_pending j.status ≡ true

find-replace :
    (i : ℕ) (p r : Queue) (j k : Job)
    → k.id ≡ j.id
    → (j.id == i) ≡ false
    → find i (p ++ k ∷ r) ≡ find i (p ++ j ∷ r)
unfolding find
find-replace i [] r j k e ne = ground arith
find-replace i (x ∷ p) r j k e ne = ground (arith, find-replace i p r j k e ne)

find-placed : (p r : Queue) (j : Job) → Distinct (p ++ j ∷ r) → find j.id (p ++ j ∷ r) ≡ some j
unfolding find
find-placed [] r j d = ground arith
find-placed (x ∷ p) r j d =
    let (left, right) = All-split _ p (j ∷ r) d.0 in ground (arith, right.0, find-placed p r j d.1)

due-pending : (now : ℕ) (j : Job) → is_due now j ≡ true → is_pending j.status ≡ true
unfolding is_due
due-pending now j due = ground arith

-- A pass that claims the row of `i` finds it pending.
claimed_pending :
    (fx : Effects) (now : ℕ) (q : Queue) (i : ℕ) (j : Job) (pass : Pass fx now q)
    → Distinct q
    → find i q ≡ some j
    → pass.job.id ≡ i
    → is_pending j.status ≡ true
claimed_pending fx now q i j pass d h e =
    subst (λ o. Pending o) (sym found ∙ h) (due-pending now pass.job pass.due)
  where
    found : find i q ≡ some pass.job
    found =
        rw (pass.placed.split, ← e)
          (find-placed pass.placed.before pass.placed.after pass.job
            (subst Distinct pass.placed.split d))

work-find :
    (fx : Effects) (now : ℕ) (q : Queue) (i : ℕ) (j : Job)
    → Distinct q
    → find i q ≡ some j
    → is_pending j.status ≡ false
    → find i (work fx now q) ≡ some j
work-find fx now q i j d h idle = elim (work-cases fx now q d) [
  | inl (none_due, same) ↦ rw same h
  | inr pass ↦ elim (Bool-cases (pass.job.id == i)) [
    | inl same ↦ cc (claimed_pending fx now q i j pass d h ((==_iff pass.job.id i).0 same), idle)
    | inr other ↦ rw pass.result (
        find-replace i pass.placed.before pass.placed.after pass.job (outcome fx now pass.job)
          (outcome-id fx now pass.job) other
        ∙ subst (λ x. find i x ≡ some j) pass.placed.split h)
  ]
]

-- Once a row of a queue with distinct ids is running, done or failed for good, no pass of the worker
-- changes it again, whatever the handlers answer: neither its status nor its attempts nor its error.
pub work_at-find :
    (passes : Passes) (q : Queue) (i : ℕ) (j : Job)
    → Distinct q
    → find i q ≡ some j
    → is_pending j.status ≡ false
    → find i (work_at passes q) ≡ some j
unfolding work_at
work_at-find [] q i j d h idle = h
work_at-find ((now, fx) ∷ passes) q i j d h idle =
    work_at-find passes (work fx now q) i j (work-Distinct fx now q d)
      (work-find fx now q i j d h idle) idle
