-- ===== src/Retention/Purge.antt =====
-- `purge_tenant`, and what the foreign keys of app/db/models.py do to the rows that refer to a
-- conversation: its messages are deleted, its leads and appointments are detached.
use bots_infra_be.Common.{
  ℕ, zero, suc, ◌+◌, ◌-◌, ◌*◌, Bool, true, false, not, ◌&&◌, Option, none, some, List, [], ◌∷◌, map,
  keep, length, ltb, leb, ◌==◌, if◌then◌else◌, String,
}
use bots_infra_be.Common.Json.{Fields}
use bots_infra_be.Common.Rows.{oldest}
use bots_infra_be.Retention.{batch_size, drain}

-- The columns that a purge reads or writes.
pub record Conversation : Type 0 where
  pub id : ℕ
  pub tenant : ℕ
  pub created_at : ℕ

pub record Message : Type 0 where
  pub id : ℕ
  pub conversation : ℕ

pub record Lead : Type 0 where
  pub id : ℕ
  pub tenant : ℕ
  pub conversation : Option ℕ
  pub fields : Fields

pub record Visit : Type 0 where
  pub id : ℕ
  pub tenant : ℕ
  pub conversation : Option ℕ
  pub starts_at : ℕ
  pub status : String

pub record Store : Type 0 where
  pub conversations : List Conversation
  pub messages : List Message
  pub leads : List Lead
  pub appointments : List Visit

-- `ON DELETE SET NULL`
abbrev pub detach : ℕ → Option ℕ → Option ℕ
detach i none = none
detach i (some k) = if k == i then none else some k

abbrev pub detach_lead : ℕ → Lead → Lead
detach_lead i l = record l { conversation = detach i l.conversation }

abbrev pub detach_visit : ℕ → Visit → Visit
detach_visit i a = record a { conversation = detach i a.conversation }

-- A deleted row of `conversations`, with what the foreign keys do.
unfoldable pub delete_conversation : ℕ → Store → Store
delete_conversation i s = record {
  conversations = keep (λ c. not (c.id == i)) s.conversations;
  messages = keep (λ m. not (m.conversation == i)) s.messages;
  leads = map (detach_lead i) s.leads;
  appointments = map (detach_visit i) s.appointments;
}

-- `tenant_id = :tid AND created_at < :cutoff`
abbrev pub is_expired : ℕ → ℕ → Conversation → Bool
is_expired tenant cutoff c = (c.tenant == tenant) && ltb c.created_at cutoff

-- `DELETE … WHERE id IN (SELECT … ORDER BY created_at LIMIT n)`: the rows, one after the other.
unfoldable pub delete_oldest : ℕ → ℕ → ℕ → Store → ℕ × Store
unfolding delete_conversation
delete_oldest tenant cutoff zero s = (0, s)
delete_oldest tenant cutoff (suc n) s =
    elim (oldest (is_expired tenant cutoff) (λ c. c.created_at) s.conversations) [
      | none ↦ (0, s)
      | some c ↦
          let (k, s') = delete_oldest tenant cutoff n (delete_conversation c.id s) in (suc k, s')
    ]

-- `_count_expiring`
pub record Preview : Type 0 where
  pub conversations : ℕ
  pub messages : ℕ
  pub leads_detached : ℕ

pub data Report : Type 0 where
  kept_forever : Report
  dry_run : ℕ → Preview → Report
  purged : (cutoff conversations_deleted batches leads_detached : ℕ) (complete : Bool) → Report

abbrev pub count : {R : Type 0} → (R → Bool) → List R → ℕ
count p [] = 0
count p (r ∷ t) = (if p r then 1 else 0) + count p t

abbrev pub among : List Conversation → ℕ → Bool
among [] i = false
among (c ∷ t) i = if c.id == i then true else among t i

abbrev pub attached : List Conversation → Option ℕ → Bool
attached t none = false
attached t (some i) = among t i

unfoldable pub count_expiring : ℕ → ℕ → Store → Preview
count_expiring tenant cutoff s =
    let expired = keep (is_expired tenant cutoff) s.conversations in
    record {
      conversations = length expired;
      messages = count (λ m. among expired m.conversation) s.messages;
      leads_detached = count (λ l. (l.tenant == tenant) && attached expired l.conversation) s.leads;
    }

-- `purge_tenant` at the time `now`, in seconds since the epoch, before which no row lies.
unfoldable pub purge_tenant : ℕ → ℕ → ℕ → Bool → ℕ → Store → Report × Store
unfolding count_expiring
purge_tenant now tenant days dry tries s =
    let cutoff = now - days * 86400 in
    let preview = count_expiring tenant cutoff s in
    let done = drain (delete_oldest tenant cutoff batch_size) tries s in
    if leb days 0 then (kept_forever, s) else if dry then (dry_run cutoff preview, s) else (
      purged cutoff done.deleted done.batches preview.leads_detached
          (ltb done.deleted (tries * batch_size)),
      done.state,
    )
