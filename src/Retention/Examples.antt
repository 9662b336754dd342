-- ===== src/Retention/Examples.antt =====
-- Redaction, a purge and an erasure at work, and the theorems at concrete inputs.
use bots_infra_be.Common.{
  ℕ, ◌≡◌, ◌↔◌, refl, false, not, String, some, List, [], ◌∷◌, ◌⊎◌, keep, All, ◌==◌,
}
use bots_infra_be.Common.Json.{Value, Fields}
use bots_infra_be.Retention.Redact.{IsRedacted, Redacts, redact, is_secret, redact-IsRedacted}
use bots_infra_be.Retention.Export
use bots_infra_be.Retention.Export.{export_tenant}
use bots_infra_be.Retention.Purge.{Conversation, Store, purge_tenant}
use bots_infra_be.Retention.Complete.{IsPurged, purge_tenant-IsPurged}
use bots_infra_be.Retention.Erase.{row_count, tables, erase_tenant, erase_tenant_complete}

abbrev lower : String → String
lower s = s

abbrev row : Value
row = Value.obj (
    Fields.entry "crm"
      (Value.obj (
        Fields.entry "api_key" (Value.str "k")
          (Fields.entry "region" (Value.str "eu") Fields.blank)))
      Fields.blank)

redacted_row :
    redact lower row
    ≡ Value.obj (
        Fields.entry "crm"
          (Value.obj (
            Fields.entry "api_key"
              (Value.str "[redacted]")
              (Fields.entry "region" (Value.str "eu") Fields.blank)))
          Fields.blank)
unfolding redact is_secret
redacted_row = refl

redact-IsRedacted_example :
    Redacts lower row (redact lower row)
    × IsRedacted lower (redact lower row)
    × (IsRedacted lower row ↔ (redact lower row ≡ row))
    × (redact lower (redact lower row) ≡ redact lower row)
redact-IsRedacted_example = redact-IsRedacted lower row

abbrev chat : ℕ → ℕ → Conversation
chat i at = record { id = i; tenant = 7; created_at = at }

abbrev store : Store
store = record {
  conversations = chat 1 100 ∷ chat 2 900000 ∷ [];
  messages = record { id = 1; conversation = 1 } ∷ [];
  leads = record { id = 1; tenant = 7; conversation = some 1; fields = Fields.blank } ∷ [];
  appointments = [];
}

purge_tenant-IsPurged_example :
    IsPurged 900000 7 5 false store (purge_tenant 900000 7 5 false 2 store)
purge_tenant-IsPurged_example =
    purge_tenant-IsPurged 900000 7 5 false 2 store ((refl, tt), (tt, tt))

abbrev database : String → List ℕ
database name = 7 ∷ 8 ∷ []

erase_tenant_complete_example :
    let (erased, complete, tenants') = erase_tenant 7 2 database (7 ∷ 8 ∷ []) in
    (row_count 7 tenants' ≡ 0)
    × (keep (λ r. not (r == 7)) tenants' ≡ keep (λ r. not (r == 7)) (7 ∷ 8 ∷ []))
    × ((other : String)
        → keep (λ r. not (r == 7)) (erased.database other)
          ≡ keep (λ r. not (r == 7)) (database other))
    × ((complete ≡ false) ⊎ All (λ name. row_count 7 (erased.database name) ≡ 0) tables)
erase_tenant_complete_example = erase_tenant_complete 7 2 database (7 ∷ 8 ∷ [])

-- A tenant whose configuration holds the secret of a webhook.
abbrev exported_config : Value
exported_config = Value.obj (Fields.entry "lead_webhook_secret" (Value.str "s3cret") Fields.blank)

abbrev exported_tenants : List Export.Row
exported_tenants =
    record { tenant = 7; columns = Fields.entry "config_overrides" exported_config Fields.blank }
    ∷ []

abbrev shown : Value → String
shown v = elim v [ Value.obj d ↦ "{'lead_webhook_secret': 's3cret'}" | _ ↦ "value" ]

-- The column is a text before it is redacted, and the secret in it stays.
kept_secret :
    (export_tenant shown (λ s. s) 7 exported_tenants (λ table. [])).tenant
    ≡ Fields.entry "config_overrides" (Value.str "{'lead_webhook_secret': 's3cret'}") Fields.blank
unfolding export_tenant redact is_secret
kept_secret = refl

-- As a value, the same column loses it.
lost_secret :
    redact (λ s. s) exported_config
    ≡ Value.obj (Fields.entry "lead_webhook_secret" (Value.str "[redacted]") Fields.blank)
unfolding redact is_secret
lost_secret = refl
