-- ===== src/Jobs/Claim.antt =====
-- `CLAIM` takes one row, the due row that has waited longest, and every update of a row by its id
-- leaves the other rows alone.
use mathlib.Core.List.{◌++◌}
use bots_infra_be.Common.{
  ℕ, ◌≤◌, ◌≡◌, ◌⊎◌, All-map, refl, ap, true, false, none, some, [], ◌∷◌, All, arith, ◌==◌, ==_refl,
  All-split, subst, Option-cases, inl, inr,
}
use bots_infra_be.Jobs.{Job, Queue, is_due, next_due, update_where, start, claim}

-- No two rows have one id.
abbrev pub Distinct : Queue → Type 0
Distinct [] = Unit
Distinct (j ∷ q) = All (λ k. (k.id == j.id) ≡ false) q × Distinct q

==_sym : (a b : ℕ) → (a == b) ≡ false → (b == a) ≡ false
==_sym a b h = ground arith

pub update_where-absent :
    (i : ℕ) (f : Job → Job) (q : Queue) → All (λ k. (k.id == i) ≡ false) q → update_where i f q ≡ q
unfolding update_where
update_where-absent i f [] h = refl
update_where-absent i f (j ∷ q) h = rw (h.0) (ap (λ t. j ∷ t) (update_where-absent i f q h.1))

-- A row in its place: an update by its id changes this row alone.
pub record Placed (q : Queue) (j : Job) : Type 0 where
  pub before : Queue
  pub after : Queue
  pub split : q ≡ before ++ j ∷ after
  pub update : (f : Job → Job) → update_where j.id f q ≡ before ++ f j ∷ after

Placed-head : (j : Job) (q : Queue) → Distinct (j ∷ q) → Placed (j ∷ q) j
unfolding update_where
Placed-head j q d = record {
  before = [];
  after = q;
  split = refl;
  update = λ f. rw (==_refl j.id) (ap (λ t. f j ∷ t) (update_where-absent j.id f q d.0));
}

Placed-tail : (k j : Job) (q : Queue) → Distinct (k ∷ q) → Placed q j → Placed (k ∷ q) j
unfolding update_where
Placed-tail k j q d p = record {
  before = k ∷ p.before;
  after = p.after;
  split = ap (λ t. k ∷ t) p.split;
  update = λ f.
      rw (==_sym j.id k.id (All-split _ p.before (j ∷ p.after) (subst (All _) p.split d.0)).1.0)
        (ap (λ t. k ∷ t) (p.update f));
}

next_due-cons :
    (now : ℕ) (k j : Job) (q : Queue)
    → next_due now (k ∷ q) ≡ some j
    → ((is_due now k ≡ true) × (k ≡ j)) ⊎ (next_due now q ≡ some j)
unfolding next_due
next_due-cons now k j q h = ground arith

-- The row that `CLAIM` selects is due, and stands in the queue.
pub next_due-Placed :
    (now : ℕ) (q : Queue) (j : Job)
    → Distinct q
    → next_due now q ≡ some j
    → Placed q j × (is_due now j ≡ true)
next_due-Placed now [] j d h = unfold next_due in cc
next_due-Placed now (k ∷ q) j d h = elim (next_due-cons now k j q h) [
  | inl (due, e) ↦ subst (λ x. Placed (k ∷ q) x × (is_due now x ≡ true)) e (Placed-head k q d, due)
  | inr later ↦
      let (placed, due) = next_due-Placed now q j d.1 later in (Placed-tail k j q d placed, due)
]

-- A due row is never passed over.
pub next_due-none :
    (now : ℕ) (q : Queue) → next_due now q ≡ none → All (λ k. is_due now k ≡ false) q
unfolding next_due
next_due-none now [] h = tt
next_due-none now (k ∷ q) h = (ground arith, next_due-none now q (ground arith))

abbrev Before : ℕ → Job → Job → Type 0
Before now j k = is_due now k ≡ true → j.run_after ≤ k.run_after

next_due-cons-le :
    (now : ℕ) (k j b : Job) (q : Queue)
    → next_due now (k ∷ q) ≡ some j
    → next_due now q ≡ some b
    → j.run_after ≤ b.run_after
unfolding next_due
next_due-cons-le now k j b q h best = ground arith

-- It has waited longest: every due row of the queue became due no earlier.
pub next_due-oldest :
    (now : ℕ) (q : Queue) (j : Job)
    → next_due now q ≡ some j
    → All (λ k. is_due now k ≡ true → j.run_after ≤ k.run_after) q
next_due-oldest now [] j h = tt
next_due-oldest now (k ∷ q) j h = (
  (λ due. unfold next_due in ground arith),
  (elim (Option-cases (next_due now q)) [
    | inl empty ↦ All-map _ (Before now j) (λ x idle due. cc) q (next_due-none now q empty)
    | inr (b, best) ↦
        All-map _ (Before now j)
          (λ x le due. omega (arith, le due, next_due-cons-le now k j b q h best)) q
          (next_due-oldest now q b best)
  ]),
)

pub claim-none : (now : ℕ) (q : Queue) → next_due now q ≡ none → claim now q ≡ (none, q)
unfolding claim
claim-none now q h = ground arith

pub claim-some :
    (now : ℕ) (q : Queue) (j : Job)
    → next_due now q ≡ some j
    → claim now q ≡ (some (start j), update_where j.id start q)
unfolding claim
claim-some now q j h = ground arith
