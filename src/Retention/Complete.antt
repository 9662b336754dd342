-- ===== src/Retention/Complete.antt =====
-- What a purge removes, and what it keeps.
use bots_infra_be.Common.{
  ℕ, zero, suc, ◌+◌, ◌-◌, ◌*◌, ◌≡◌, refl, Bool, true, false, not, Option, none, some, List, [], ◌∷◌,
  ◌⊎◌, map, keep, min, arith, length, ltb, leb, Bool-cases, inl, inr,
}
use bots_infra_be.Common.Rows.{Distinct, oldest, oldest-Placed}
use bots_infra_be.Retention.{batch_size, drain-deleted}
use bots_infra_be.Retention.Purge.{
  Conversation, Store, delete_conversation, is_expired, delete_oldest, count, purge_tenant,
  count_expiring, Preview, Report,
}
use bots_infra_be.Retention.Trimmed.{
  expired_count, forget_lead, forget_visit, IsTrimmed, delete_one, empty_of,
}

-- What a batch of up to `n` rows does.
abbrev Batch : ℕ → ℕ → Store → Store → ℕ → ℕ × Store → Type 0
Batch tenant cutoff s t n (removed, t') =
    IsTrimmed tenant cutoff s t'
    × (removed ≡ min n (expired_count tenant cutoff t))
    × (expired_count tenant cutoff t' ≡ expired_count tenant cutoff t - n)

delete_oldest-Batch :
    (tenant cutoff n : ℕ) (s t : Store)
    → IsTrimmed tenant cutoff s t
    → Batch tenant cutoff s t n (delete_oldest tenant cutoff n t)
unfolding delete_oldest
delete_oldest-Batch tenant cutoff zero s t trim = (trim, omega arith, omega arith)
delete_oldest-Batch tenant cutoff (suc n) s t trim =
    go (λ t' trim'. delete_oldest-Batch tenant cutoff n s t' trim')
      (oldest (is_expired tenant cutoff) (λ c. c.created_at) t.conversations) refl
  where
    go :
        ((t' : Store)
          → IsTrimmed tenant cutoff s t'
          → Batch tenant cutoff s t' n (delete_oldest tenant cutoff n t'))
        → (o : Option Conversation)
        → oldest (is_expired tenant cutoff) (λ c. c.created_at) t.conversations ≡ o
        → Batch tenant cutoff s t (suc n) (elim o [
          | none ↦ (0, t)
          | some c ↦
              let (k, t') = delete_oldest tenant cutoff n (delete_conversation c.id t) in
              (suc k, t')
        ])
    go rest none e =
        let gone = empty_of tenant cutoff t e in (trim, omega (arith, gone), omega (arith, gone))
    go rest (some c) e =
        let (placed, due) =
          oldest-Placed (λ x. x.id) (is_expired tenant cutoff) (λ x. x.created_at) t.conversations c
            trim.distinct e in
        let (trim', one) = delete_one tenant cutoff s t c trim placed due in
        let (trim'', removed, left) = rest (delete_conversation c.id t) trim' in
        (trim'', omega (arith, removed, one), omega (arith, left, one))

-- What is promised of a purge that ran, with a cutoff.
abbrev pub IsTrimmedBy : ℕ → ℕ → Store → Report × Store → Type 0
IsTrimmedBy tenant cutoff s (Report.purged cutoff' deleted batches detached complete, t) =
    (cutoff' ≡ cutoff)
    × (expired_count tenant cutoff s ≡ deleted + expired_count tenant cutoff t)
    × ((complete ≡ false) ⊎ (expired_count tenant cutoff t ≡ 0))
    × (keep (λ c. not (is_expired tenant cutoff c)) t.conversations
        ≡ keep (λ c. not (is_expired tenant cutoff c)) s.conversations)
    × (map forget_lead t.leads ≡ map forget_lead s.leads)
    × (map forget_visit t.appointments ≡ map forget_visit s.appointments)
IsTrimmedBy tenant cutoff s (report, t) = ⊥

-- What is promised by the window in days and by whether it is a dry run.
abbrev pub IsPurged : ℕ → ℕ → ℕ → Bool → Store → Report × Store → Type 0
IsPurged now tenant zero dry s (report, t) = (report ≡ Report.kept_forever) × (t ≡ s)
IsPurged now tenant (suc days) true s (report, t) =
    ((p : Preview) × (report ≡ Report.dry_run (now - suc days * 86400) p)
      × (p.conversations ≡ expired_count tenant (now - suc days * 86400) s))
    × (t ≡ s)
IsPurged now tenant (suc days) false s result = IsTrimmedBy tenant (now - suc days * 86400) s result

-- The rows that pass a test are as many as are counted.
length-keep : {R : Type 0} (p : R → Bool) (t : List R) → length (keep p t) ≡ count p t
length-keep p [] = refl
length-keep p (r ∷ t) = ground (arith, length-keep p t)

previewed :
    (tenant cutoff : ℕ) (s : Store)
    → (count_expiring tenant cutoff s).conversations ≡ expired_count tenant cutoff s
unfolding count_expiring expired_count
previewed tenant cutoff s = length-keep (is_expired tenant cutoff) s.conversations

some_days : (days : ℕ) → leb (suc days) 0 ≡ false
some_days days = ground arith

-- A purge of a store in which conversation ids are distinct. With a window of 0 nothing changes, and in a
-- dry run nothing changes and the report counts the conversations past the cutoff. Otherwise its count is
-- that of the conversations past the cutoff that are gone; when it reports that it is complete none is
-- left; every other conversation is kept, and every lead and appointment, but for the link to its
-- conversation.
pub purge_tenant-IsPurged :
    (now tenant days : ℕ) (dry : Bool) (tries : ℕ) (s : Store)
    → Distinct (λ c. c.id) s.conversations
    → IsPurged now tenant days dry s (purge_tenant now tenant days dry tries s)
unfolding purge_tenant
purge_tenant-IsPurged now tenant zero dry tries s d = (refl, refl)
purge_tenant-IsPurged now tenant (suc days) true tries s d =
    rw (some_days days) ((_, refl, previewed tenant (now - suc days * 86400) s), refl)
purge_tenant-IsPurged now tenant (suc days) false tries s d =
    let cutoff = now - suc days * 86400 in
    let (trim, deleted, left) =
      drain-deleted (delete_oldest tenant cutoff batch_size) (IsTrimmed tenant cutoff s)
        (expired_count tenant cutoff) (delete_oldest-Batch tenant cutoff batch_size s) tries s
        (record { distinct = d; kept = refl; leads = refl; appointments = refl }) in
    rw (some_days days) (
      refl,
      ground (arith, deleted, left),
      elim (Bool-cases
          (ltb (min (tries * batch_size) (expired_count tenant cutoff s)) (tries * batch_size))) [
            | inl short ↦ inr (ground (arith, left, short))
            | inr full ↦ inl (rw deleted full)
          ],
      trim.kept,
      trim.leads,
      trim.appointments,
    )
