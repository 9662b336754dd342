-- ===== src/Jobs/Retention.antt =====
-- `schedule_retention` of app/rag/worker.py: one purge job for each tenant with a retention window.
use mathlib.Core.List.{◌++◌}
use bots_infra_be.Common.{
  ◌⊎◌, inl, inr, Bool-cases, ℕ, ◌+◌, ◌≤◌, ◌≡◌, refl, Bool, true, false, not, ◌&&◌, String, str_eq,
  Option, none, some, List, [], ◌∷◌, any_of, All, All-map, arith, ltb, ◌==◌, if◌then◌else◌,
}
use bots_infra_be.Common.Json
use bots_infra_be.Common.Json.{Value}
use bots_infra_be.Jobs.{Status, Job, Queue, new_job}

-- The columns of `tenants` that the query reads.
pub record RetentionTenant : Type 0 where
  pub id : ℕ
  pub status : String
  pub retention_days : ℕ

-- `Tenant.status != "paused", Tenant.retention_days > 0`
pub keeps_window : RetentionTenant → Bool
keeps_window t = not (str_eq t.status "paused") && ltb 0 t.retention_days

-- `JobQueue.status.in_(("pending", "running"))`
abbrev pub is_live : Status → Bool
is_live Status.pending = true
is_live Status.running = true
is_live _ = false

abbrev pub same_tenant : ℕ → Option ℕ → Bool
same_tenant i none = false
same_tenant i (some k) = k == i

-- A purge job of this tenant that is waiting or running.
pub is_purge_of : ℕ → Job → Bool
is_purge_of i j = same_tenant i j.tenant && (str_eq j.kind "retention" && is_live j.status)

-- The payload `{"retention_days": tenant.retention_days}`.
abbrev pub window_payload : ℕ → Json.Fields
window_payload days = Json.Fields.entry "retention_days" (Value.num days) Json.Fields.blank

-- The body of the loop for one tenant, with the id that a new row takes: whether it queued a job, and
-- the queue.
pub schedule_one : ℕ → (ℕ → ℕ) → RetentionTenant → Queue → ℕ × Queue
unfolding keeps_window is_purge_of
schedule_one now fresh t q =
    if keeps_window t && not (any_of (is_purge_of t.id) q)
    then (
      1,
      q ++ new_job (fresh t.id) (some t.id) "retention" (window_payload t.retention_days) now ∷ [],
    )
    else (0, q)

-- The loop over the tenants: the number `queued`, and the queue.
pub schedule : ℕ → (ℕ → ℕ) → List RetentionTenant → Queue → ℕ × Queue
unfolding schedule_one
schedule now fresh [] q = (0, q)
schedule now fresh (t ∷ ts) q =
    let (added, q') = schedule_one now fresh t q in
    let (queued, q'') = schedule now fresh ts q' in (added + queued, q'')

-- How many rows pass a test.
abbrev pub count_where : (Job → Bool) → Queue → ℕ
count_where p [] = 0
count_where p (j ∷ q) = (if p j then 1 else 0) + count_where p q

count_where-append :
    (p : Job → Bool) (q r : Queue) → count_where p (q ++ r) ≡ count_where p q + count_where p r
count_where-append p [] r = omega arith
count_where-append p (j ∷ q) r = omega (arith, count_where-append p q r)

any_of-count : (p : Job → Bool) (q : Queue) → any_of p q ≡ ltb 0 (count_where p q)
any_of-count p [] = refl
any_of-count p (j ∷ q) = ground (arith, any_of-count p q)

-- A new purge job counts for its tenant and for no other.
unfoldable pub purge_count : ℕ → Queue → ℕ
purge_count i q = count_where (is_purge_of i) q

is_purge_of-new :
    (i : ℕ) (fresh now : ℕ) (t : RetentionTenant)
    → is_purge_of i (new_job fresh (some t.id) "retention" (window_payload t.retention_days) now)
      ≡ (t.id == i)
unfolding is_purge_of
is_purge_of-new i fresh now t = ground arith

schedule_one_facts :
    (now : ℕ) (fresh : ℕ → ℕ) (t : RetentionTenant) (q : Queue) (i : ℕ)
    → purge_count i q ≤ purge_count i (schedule_one now fresh t q).1
      × (purge_count i q ≤ 1 → purge_count i (schedule_one now fresh t q).1 ≤ 1)
      × (keeps_window t ≡ true → 1 ≤ purge_count t.id (schedule_one now fresh t q).1)
unfolding schedule_one purge_count
schedule_one_facts now fresh t q i = ground (
  arith,
  any_of-count (is_purge_of t.id) q,
  count_where-append (is_purge_of i) q
      (new_job (fresh t.id) (some t.id) "retention" (window_payload t.retention_days) now ∷ []),
  count_where-append (is_purge_of t.id) q
      (new_job (fresh t.id) (some t.id) "retention" (window_payload t.retention_days) now ∷ []),
  is_purge_of-new i (fresh t.id) now t,
  is_purge_of-new t.id (fresh t.id) now t,
)

schedule-count :
    (now : ℕ) (fresh : ℕ → ℕ) (ts : List RetentionTenant) (q : Queue) (i : ℕ)
    → (purge_count i q ≤ purge_count i (schedule now fresh ts q).1)
      × (purge_count i q ≤ 1 → purge_count i (schedule now fresh ts q).1 ≤ 1)
unfolding schedule
schedule-count now fresh [] q i = (omega arith, λ h. h)
schedule-count now fresh (t ∷ ts) q i =
    let (grows, single, holds) = schedule_one_facts now fresh t q i in
    let (grows', single') = schedule-count now fresh ts (schedule_one now fresh t q).1 i in
    (omega (arith, grows, grows'), λ h. single' (single h))

-- After a sweep every tenant with a window has a purge job that waits or runs.
Covered : Queue → RetentionTenant → Type 0
Covered q t = keeps_window t ≡ true → 1 ≤ purge_count t.id q

schedule-Covered :
    (now : ℕ) (fresh : ℕ → ℕ) (ts : List RetentionTenant) (q : Queue)
    → All (Covered (schedule now fresh ts q).1) ts
unfolding schedule Covered
schedule-Covered now fresh [] q = tt
schedule-Covered now fresh (t ∷ ts) q =
    let q' = (schedule_one now fresh t q).1 in
    (
      (λ window.
          let (grows, single, holds) = schedule_one_facts now fresh t q t.id in
          omega (arith, holds window, (schedule-count now fresh ts q' t.id).0)),
      schedule-Covered now fresh ts q',
    )

Covered-adds_none :
    (now : ℕ) (fresh : ℕ → ℕ) (ts : List RetentionTenant) (q : Queue)
    → All (Covered q) ts
    → schedule now fresh ts q ≡ (0, q)
unfolding schedule schedule_one Covered purge_count
Covered-adds_none now fresh [] q h = refl
Covered-adds_none now fresh (t ∷ ts) q h =
    ground (arith, h.0, any_of-count (is_purge_of t.id) q, Covered-adds_none now fresh ts q h.1)

-- A sweep right after a sweep queues nothing and leaves the queue as it is, whenever it runs.
schedule_idem :
    (now later : ℕ) (fresh fresh' : ℕ → ℕ) (ts : List RetentionTenant) (q : Queue)
    → schedule later fresh' ts (schedule now fresh ts q).1 ≡ (0, (schedule now fresh ts q).1)
schedule_idem now later fresh fresh' ts q =
    Covered-adds_none later fresh' ts (schedule now fresh ts q).1 (schedule-Covered now fresh ts q)

-- After a sweep over a queue in which no tenant has two live purge jobs, no tenant has two, and each
-- tenant has exactly one, unless it is paused or has no retention window; and a sweep right after it,
-- whenever it runs, queues nothing and leaves the queue as it is.
pub schedule-IsScheduled :
    (now later : ℕ) (fresh fresh' : ℕ → ℕ) (ts : List RetentionTenant) (q : Queue)
    → ((i : ℕ) → purge_count i q ≤ 1)
    → ((i : ℕ) → purge_count i (schedule now fresh ts q).1 ≤ 1)
      × All (λ t. (keeps_window t ≡ false) ⊎ (purge_count t.id (schedule now fresh ts q).1 ≡ 1)) ts
      × (schedule later fresh' ts (schedule now fresh ts q).1 ≡ (0, (schedule now fresh ts q).1))
schedule-IsScheduled now later fresh fresh' ts q single =
    let single' = λ (i : ℕ). (schedule-count now fresh ts q i).1 (single i) in
    (
      single',
      All-map (Covered (schedule now fresh ts q).1) _
          (λ t covered. elim (Bool-cases (keeps_window t)) [
            | inl window ↦ inr (unfold Covered in omega (arith, covered window, single' t.id))
            | inr none_kept ↦ inl none_kept
          ])
          ts (schedule-Covered now fresh ts q),
      schedule_idem now later fresh fresh' ts q,
    )
