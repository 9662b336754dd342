-- ===== src/Jobs/Attempts.antt =====
-- A job is attempted at most `max_attempts` times, and every pass that claims a row brings the queue
-- nearer to its end.
use mathlib.Core.List.{◌++◌}
use bots_infra_be.Common.{
  ℕ, suc, ◌+◌, ◌-◌, ◌≤◌, ◌<◌, ◌≡◌, ◌⊎◌, refl, subst, String, true, none, some, [], ◌∷◌, All,
  All-split, All-append, arith, if◌then◌else◌, Option-cases, inl, inr,
}
use bots_infra_be.Jobs.{
  Status, Job, Queue, is_pending, is_due, next_due, update_where, start, claim, max_attempts,
}
use bots_infra_be.Jobs.Handle.{Effects, Handled, settled, handle, handle_settles}
use bots_infra_be.Jobs.Worker.{resolve, work, work_at, claims_at, Passes}
use bots_infra_be.Jobs.Claim.{Distinct, Placed, next_due-Placed, claim-none, claim-some}

update_where-start :
    (i : ℕ) (f : Job → Job) (q : Queue)
    → update_where i f (update_where i start q) ≡ update_where i (λ j. f (start j)) q
unfolding update_where
update_where-start i f [] = refl
update_where-start i f (j ∷ q) = ground (arith, update_where-start i f q)

-- The row as a pass leaves it that claims it at `now`.
unfoldable pub outcome : Effects → ℕ → Job → Job
outcome fx now j = resolve now (start j) (handle fx (start j)) (start j)

-- A pass that claims a row, and the row.
pub record Pass (fx : Effects) (now : ℕ) (q : Queue) : Type 0 where
  pub job : Job
  pub placed : Placed q job
  pub due : is_due now job ≡ true
  pub claimed : next_due now q ≡ some job
  pub result : work fx now q ≡ placed.before ++ outcome fx now job ∷ placed.after

-- A pass either finds no due row and changes nothing, or changes the row that it claims alone.
pub work-cases :
    (fx : Effects) (now : ℕ) (q : Queue)
    → Distinct q
    → ((next_due now q ≡ none) × (work fx now q ≡ q)) ⊎ Pass fx now q
unfolding work outcome
work-cases fx now q d = elim (Option-cases (next_due now q)) [
  | inl none_due ↦
      inl (none_due, rw (claim-none now q none_due, work) (rw (claim-none now q none_due)))
  | inr (j, found) ↦
      let (placed, due) = next_due-Placed now q j d found in
      inr (record {
        job = j;
        placed = placed;
        due = due;
        claimed = found;
        result =
            rw (claim-some now q j found, work)
              (rw
                (
                  claim-some now q j found,
                  update_where-start j.id (resolve now (start j) (handle fx (start j))) q,
                )
                (placed.update (λ k. resolve now (start j) (handle fx (start j)) (start k))));
      })
]

-- `attempts` never passes the limit, and a row that may still be claimed has an attempt left.
pub record IsSound (j : Job) : Type 0 where
  pub within : j.attempts ≤ max_attempts
  pub left : is_pending j.status ≡ true → j.attempts < max_attempts

-- How many attempts a row may still have.
unfoldable pub weight : Job → ℕ
weight j = if is_pending j.status then max_attempts - j.attempts else 0

unfoldable pub total : Queue → ℕ
total [] = 0
total (j ∷ q) = weight j + total q

total-append : (p q : Queue) → total (p ++ q) ≡ total p + total q
unfolding total
total-append [] q = omega arith
total-append (j ∷ p) q = omega (arith, total-append p q)

pub weight-due : (now : ℕ) (j : Job) → IsSound j → is_due now j ≡ true → 1 ≤ weight j
unfolding weight is_due
weight-due now j sound due = ground (arith, sound.left)

resolved_facts :
    (now : ℕ) (j : Job) (h : Handled)
    → ((s : Status) (e : String) → h ≡ settled s e → (s ≡ Status.done) ⊎ (s ≡ Status.failed))
    → IsSound j
    → is_due now j ≡ true
    → IsSound (resolve now (start j) h (start j))
      × (suc (weight (resolve now (start j) h (start j))) ≤ weight j)
unfolding resolve weight is_due
resolved_facts now j (settled s e) ends sound due = ground (arith, ends s e refl, sound.left)
resolved_facts now j (Handled.raised e) ends sound due = ground (arith, sound.left)

-- What a pass makes of the row: sound again, and with an attempt less.
outcome_facts :
    (fx : Effects) (now : ℕ) (j : Job)
    → IsSound j
    → is_due now j ≡ true
    → IsSound (outcome fx now j) × (suc (weight (outcome fx now j)) ≤ weight j)
unfolding outcome
outcome_facts fx now j =
    resolved_facts now j (handle fx (start j)) (λ s e. handle_settles fx (start j) s e)

pub outcome-id : (fx : Effects) (now : ℕ) (j : Job) → (outcome fx now j).id ≡ j.id
unfolding outcome resolve
outcome-id fx now j = ground arith

-- Replacing a row by one of the same id keeps the ids distinct.
Distinct-replace :
    (p q : Queue) (j k : Job) → k.id ≡ j.id → Distinct (p ++ j ∷ q) → Distinct (p ++ k ∷ q)
Distinct-replace [] q j k e d = (rw e d.0, d.1)
Distinct-replace (x ∷ p) q j k e d =
    let (left, right) = All-split _ p (j ∷ q) d.0 in
    (All-append _ p (k ∷ q) left (rw e right.0, right.1), Distinct-replace p q j k e d.1)

pub work-Distinct : (fx : Effects) (now : ℕ) (q : Queue) → Distinct q → Distinct (work fx now q)
work-Distinct fx now q d = elim (work-cases fx now q d) [
  | inl (idle, same) ↦ rw same d
  | inr pass ↦ rw pass.result (
      Distinct-replace pass.placed.before pass.placed.after pass.job (outcome fx now pass.job)
        (outcome-id fx now pass.job) (subst Distinct pass.placed.split d))
]

paid_total :
    (p r : Queue) (j k : Job) (q : Queue) {q' : Queue}
    → q ≡ p ++ j ∷ r
    → q' ≡ p ++ k ∷ r
    → suc (weight k) ≤ weight j
    → 1 + total q' ≤ total q
unfolding total
paid_total p r j k q e e' paid =
    rw (e, e') (omega (arith, total-append p (j ∷ r), total-append p (k ∷ r)))

-- One pass keeps every row sound, and pays for its claim with the attempts that are left.
pub work_facts :
    (fx : Effects) (now : ℕ) (q : Queue)
    → Distinct q
    → All IsSound q
    → All IsSound (work fx now q)
      × ((elim (claim now q).0 [ none ↦ 0 | some j ↦ 1 ]) + total (work fx now q) ≤ total q)
work_facts fx now q d sound = elim (work-cases fx now q d) [
  | inl (idle, same) ↦ (rw same sound, rw (same, claim-none now q idle) (omega arith))
  | inr pass ↦
      let j = pass.job in
      let (left, right) =
        All-split _ pass.placed.before (j ∷ pass.placed.after)
          (subst (All IsSound) pass.placed.split sound) in
      let (row_sound, paid) = outcome_facts fx now j right.0 pass.due in
      (
        rw pass.result (All-append _ pass.placed.before _ left (row_sound, right.1)),
        rw (claim-some now q j pass.claimed) (
            paid_total pass.placed.before pass.placed.after j (outcome fx now j) q pass.placed.split
              pass.result paid),
      )
]

-- However the handlers answer at each pass and whenever the worker runs, no row passes the limit on attempts, and
-- the passes that claim a row are at most the attempts that the rows had left.
pub work_at_bounds :
    (passes : Passes) (q : Queue)
    → Distinct q
    → All IsSound q
    → All IsSound (work_at passes q) × (claims_at passes q + total (work_at passes q) ≤ total q)
unfolding work_at claims_at
work_at_bounds [] q d sound = (sound, omega arith)
work_at_bounds ((now, fx) ∷ passes) q d sound =
    let (sound', paid) = work_facts fx now q d sound in
    let (end_sound, rest) =
      work_at_bounds passes (work fx now q) (work-Distinct fx now q d) sound' in
    (end_sound, omega (arith, paid, rest))
