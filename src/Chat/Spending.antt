-- ===== src/Chat/Spending.antt =====
-- The spending of a tenant, over any order in which turns are opened and closed.
use bots_infra_be.Common.{
  ap, ◌∙◌, if◌then◌else◌, ℕ, suc, ◌+◌, ◌*◌, ◌≤◌, ◌≡◌, inl, inr, refl, none, arith, leb, Bool-cases,
}
use bots_infra_be.Graph
use bots_infra_be.Tenants.{Tenant, check_budget, period_over}
use bots_infra_be.Chat.Turn.{roll_up}

-- The row of a tenant, its turns that are open, and the tokens that the turns closed in its period have
-- used, counted beside the row.
pub record Account : Type 0 where
  pub row : Tenant
  pub in_flight : ℕ
  pub used : ℕ

-- A turn that the budget admits is opened while fewer than `most` are open, and a period that is over
-- begins anew; an open turn is closed, having used at most `cost` tokens. A turn that the budget refuses
-- changes nothing, its session being rolled back. Each step is a session that no other of the tenant
-- overlaps: `close_turn` reads the row's tokens and writes the sum back, so that of two closings that
-- overlap one may be lost.
pub data Step (most cost : ℕ) : Account → Account → Type 0 where
  opens :
      {a : Account} (now : ℕ)
      → (check_budget now a.row).0 ≡ none
      → suc a.in_flight ≤ most
      → Step most cost a (record {
        row = (check_budget now a.row).1;
        in_flight = suc a.in_flight;
        used = if period_over now a.row.period_started_at then 0 else a.used;
      })
  closes :
      {row : Tenant} {n used : ℕ} (usage : Graph.Usage)
      → usage.input + usage.output ≤ cost
      → Step most cost
          (record { row = row; in_flight = suc n; used = used })
          (record {
            row = roll_up usage row;
            in_flight = n;
            used = used + (usage.input + usage.output);
          })

pub data Steps (most cost : ℕ) : Account → Account → Type 0 where
  done : {a : Account} → Steps most cost a a
  after : {a b c : Account} → Steps most cost a b → Step most cost b c → Steps most cost a c

-- The row records what is used; and that, with what the open turns may still use, is within the budget and
-- `most` turns beyond it.
abbrev pub WithinBudget : ℕ → ℕ → Account → Type 0
WithinBudget most cost a =
    (a.row.tokens_used_period ≡ a.used)
    × (a.used + a.in_flight * cost ≤ a.row.monthly_token_budget + most * cost)

check_budget-spent :
    (now : ℕ) (t : Tenant)
    → (check_budget now t).0 ≡ none
    → ((check_budget now t).1.monthly_token_budget ≡ t.monthly_token_budget)
      × ((check_budget now t).1.tokens_used_period ≤ t.monthly_token_budget)
      × ((check_budget now t).1.tokens_used_period
          ≡ (if period_over now t.period_started_at then 0 else t.tokens_used_period))
unfolding check_budget
check_budget-spent now t h = elim (Bool-cases (period_over now t.period_started_at)) [
  | inl over ↦ rw over (refl, omega arith, refl)
  | inr current ↦ elim (Bool-cases (leb t.monthly_token_budget t.tokens_used_period)) [
    | inl spent ↦ absurd (ground (arith, h, current, spent))
    | inr room ↦ rw (current, room) (refl, ground (arith, room), refl)
  ]
]

times_le : (a b c : ℕ) → a ≤ b → a * c ≤ b * c
times_le a b c h = grind arith

Step-WithinBudget :
    (most cost : ℕ) (a b : Account)
    → Step most cost a b
    → WithinBudget most cost a
    → WithinBudget most cost b
Step-WithinBudget most cost _ _ (opens {a} now ok room) (recorded, h) =
    let (same, spent, begun) = check_budget-spent now a.row ok in
    let bound = times_le (suc a.in_flight) most cost room in
    let kept : (check_budget now a.row).1.tokens_used_period
        ≡ (if period_over now a.row.period_started_at then 0 else a.used) =
      begun ∙ ap (λ (n : ℕ). if period_over now a.row.period_started_at then 0 else n) recorded in
    (kept, omega (arith, same, spent, kept, bound))
Step-WithinBudget most cost _ _ (closes {row} {n} usage small) (recorded, h) =
    unfold roll_up in (omega (arith, recorded), omega (arith, small, h))

-- The sessions of a tenant do not overlap. In any order of openings and closings, with at most `most` turns
-- open at once that each use at most `cost` tokens, the row records exactly the tokens that the closed
-- turns of the period have used, and these never exceed the budget by more than `most` such turns, if
-- this holds at the start, what the open turns may use included.
pub Steps-WithinBudget :
    (most cost : ℕ) (a b : Account)
    → Steps most cost a b
    → WithinBudget most cost a
    → WithinBudget most cost b
Steps-WithinBudget most cost _ _ done h = h
Steps-WithinBudget most cost _ _ (after {a} {b = m} {c = b} steps step) h =
    Step-WithinBudget most cost m b step (Steps-WithinBudget most cost a m steps h)
