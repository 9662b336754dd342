-- ===== src/Retention/Trimmed.antt =====
-- What the deletion of one expired conversation does to a store.
use mathlib.Core.List.{◌++◌}
use bots_infra_be.Common.{
  ℕ, suc, ◌+◌, ◌≡◌, refl, ap, ◌∙◌, subst, Bool, true, false, not, none, List, [], ◌∷◌, map, keep,
  All, All-split, All-append, arith, ◌==◌, ==_refl,
}
use bots_infra_be.Common.Rows.{Distinct, Distinct-others, Placed, oldest}
use bots_infra_be.Retention.Purge.{
  Conversation, Lead, Visit, Store, delete_conversation, is_expired, count, detach_lead,
  detach_visit,
}

-- How many conversations of a tenant lie before a time.
unfoldable pub expired_count : ℕ → ℕ → Store → ℕ
expired_count tenant cutoff s = count (is_expired tenant cutoff) s.conversations

count-append : {R : Type 0} (p : R → Bool) (t u : List R) → count p (t ++ u) ≡ count p t + count p u
count-append p [] u = omega arith
count-append p (r ∷ t) u = omega (arith, count-append p t u)

keep-append : {R : Type 0} (p : R → Bool) (t u : List R) → keep p (t ++ u) ≡ keep p t ++ keep p u
keep-append p [] u = refl
keep-append p (r ∷ t) u = ground (arith, keep-append p t u)

keep-All : {R : Type 0} (p : R → Bool) (t : List R) → All (λ r. p r ≡ true) t → keep p t ≡ t
keep-All p [] h = refl
keep-All p (r ∷ t) h = rw (h.0) (ap (λ u. r ∷ u) (keep-All p t h.1))

others_kept :
    (i : ℕ) (t : List Conversation)
    → All (λ c. (c.id == i) ≡ false) t
    → All (λ c. not (c.id == i) ≡ true) t
others_kept i [] h = tt
others_kept i (c ∷ t) h = (rw (h.0) refl, others_kept i t h.1)

-- Deleting the row of an id that stands once takes away this row alone.
delete-Placed :
    (t : List Conversation) (c : Conversation)
    → Distinct (λ x. x.id) t
    → (placed : Placed (λ x. x.id) t c)
    → keep (λ x. not (x.id == c.id)) t ≡ placed.before ++ placed.after
delete-Placed t c d placed =
    let d' = subst (Distinct (λ x. x.id)) placed.split d in
    let (before, after) = Distinct-others (λ x. x.id) placed.before placed.after c d' in
    rw
      (
        placed.split,
        keep-append (λ x. not (x.id == c.id)) placed.before (c ∷ placed.after),
        keep-All (λ x. not (x.id == c.id)) placed.before (others_kept c.id placed.before before),
        ==_refl c.id,
        keep-All (λ x. not (x.id == c.id)) placed.after (others_kept c.id placed.after after),
      )
      refl

oldest-none :
    {R : Type 0} (due : R → Bool) (since : R → ℕ) (t : List R)
    → oldest due since t ≡ none
    → count due t ≡ 0
unfolding oldest
oldest-none due since [] h = refl
oldest-none due since (r ∷ t) h = ground (arith, oldest-none due since t)

abbrev pub forget_lead : Lead → Lead
forget_lead l = record l { conversation = none }

abbrev pub forget_visit : Visit → Visit
forget_visit a = record a { conversation = none }

-- What a purge has left alone in a store, beside where it began.
pub record IsTrimmed (tenant cutoff : ℕ) (s t : Store) : Type 0 where
  pub distinct : Distinct (λ c. c.id) t.conversations
  pub kept :
      keep (λ c. not (is_expired tenant cutoff c)) t.conversations
      ≡ keep (λ c. not (is_expired tenant cutoff c)) s.conversations
  pub leads : map forget_lead t.leads ≡ map forget_lead s.leads
  pub appointments : map forget_visit t.appointments ≡ map forget_visit s.appointments

forget_detached :
    (i : ℕ) (t : List Lead) → map forget_lead (map (detach_lead i) t) ≡ map forget_lead t
forget_detached i [] = refl
forget_detached i (l ∷ t) = ap (λ u. forget_lead l ∷ u) (forget_detached i t)

forget_detached_visits :
    (i : ℕ) (t : List Visit) → map forget_visit (map (detach_visit i) t) ≡ map forget_visit t
forget_detached_visits i [] = refl
forget_detached_visits i (a ∷ t) = ap (λ u. forget_visit a ∷ u) (forget_detached_visits i t)

Distinct-drop :
    (p q : List Conversation) (r : Conversation)
    → Distinct (λ c. c.id) (p ++ r ∷ q)
    → Distinct (λ c. c.id) (p ++ q)
Distinct-drop [] q r d = d.1
Distinct-drop (x ∷ p) q r d =
    let (left, right) = All-split _ p (r ∷ q) d.0 in
    (All-append _ p q left right.1, Distinct-drop p q r d.1)

-- One row of the batch.
pub delete_one :
    (tenant cutoff : ℕ) (s t : Store) (c : Conversation)
    → IsTrimmed tenant cutoff s t
    → Placed (λ x. x.id) t.conversations c
    → is_expired tenant cutoff c ≡ true
    → IsTrimmed tenant cutoff s (delete_conversation c.id t)
      × (suc (expired_count tenant cutoff (delete_conversation c.id t))
          ≡ expired_count tenant cutoff t)
unfolding delete_conversation expired_count
delete_one tenant cutoff s t c trim placed due = (
  record {
    distinct = rw removed (
        Distinct-drop placed.before placed.after c
          (subst (Distinct (λ x. x.id)) placed.split trim.distinct));
    kept = rw removed (rest_kept ∙ trim.kept);
    leads = forget_detached c.id t.leads ∙ trim.leads;
    appointments = forget_detached_visits c.id t.appointments ∙ trim.appointments;
  },
  rw
      (
        removed,
        placed.split,
        count-append (is_expired tenant cutoff) placed.before placed.after,
        count-append (is_expired tenant cutoff) placed.before (c ∷ placed.after),
        due,
      )
      (omega arith),
)
  where
    removed : keep (λ x. not (x.id == c.id)) t.conversations ≡ placed.before ++ placed.after
    removed = delete-Placed t.conversations c trim.distinct placed

    rest_kept :
        keep (λ x. not (is_expired tenant cutoff x)) (placed.before ++ placed.after)
        ≡ keep (λ x. not (is_expired tenant cutoff x)) t.conversations
    rest_kept =
        rw
          (
            placed.split,
            keep-append (λ x. not (is_expired tenant cutoff x)) placed.before placed.after,
            keep-append (λ x. not (is_expired tenant cutoff x)) placed.before (c ∷ placed.after),
            due,
          )
          refl

pub empty_of :
    (tenant cutoff : ℕ) (t : Store)
    → oldest (is_expired tenant cutoff) (λ c. c.created_at) t.conversations ≡ none
    → expired_count tenant cutoff t ≡ 0
unfolding expired_count
empty_of tenant cutoff t e =
    oldest-none (is_expired tenant cutoff) (λ c. c.created_at) t.conversations e
