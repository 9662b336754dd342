-- ===== src/Console/Secrets.antt =====
-- The handlers that store, list and remove the credentials of a tenant.
use bots_infra_be.Common.{ℕ, ◌+◌, Bool, true, false, String, concat, Option, List, [], ◌∷◌}
use bots_infra_be.Common.Json.{Fields}
use bots_infra_be.Tenants.{Tenant}
use bots_infra_be.Credentials.{
  Credential, Fresh, Stored, store_credential, delete_credential, list_providers,
}
use bots_infra_be.Console.{
  State, Setup, Answer, authorized, tenant_with_key, tenant_or_404, session_scope,
}
use bots_infra_be.Console.Requests.{set_credentials}

-- `KNOWN_PROVIDERS`, sorted.
abbrev pub known_providers : List String
known_providers = "calendly" ∷ "google_calendar" ∷ "hubspot" ∷ "resend" ∷ "slack" ∷ "twilio" ∷ []

abbrev pub list_row : Tenant → State → Answer (List (String × ℕ) × List String) × State
list_row t s = (Answer.ok (list_providers t.id s.database.credentials, known_providers), s)

-- `get_credentials`
unfoldable pub get_credentials :
    Setup → Option String → String → State → Answer (List (String × ℕ) × List String) × State
get_credentials setup key tenant_key s =
    authorized setup key
      (session_scope
        (λ s. tenant_or_404 (tenant_with_key tenant_key s.database.chat.tenants) list_row s))
      s

-- `len(body.payload)`
abbrev pub field_count : Fields → ℕ
field_count Fields.blank = 0
field_count (Fields.entry k v d) = 1 + field_count d

abbrev pub after_store : Fields → State → Stored → Answer ℕ × State
after_store payload s (Stored.stored table) =
    (Answer.ok (field_count payload), set_credentials table s)
after_store payload s Stored.value_error = (Answer.raised "ValueError", s)
after_store payload s Stored.no_cipher = (Answer.raised "RuntimeError", s)

abbrev pub store_row : Setup → Fresh → String → Fields → Tenant → State → Answer ℕ × State
store_row setup fresh provider payload t s = after_store payload s (
    store_credential setup.libs setup.credential_encryption_key fresh t.id provider payload
      s.database.credentials)

-- `put_credential`
unfoldable pub put_credential :
    Setup → Option String → Fresh → String → String → Fields → State → Answer ℕ × State
put_credential setup key fresh tenant_key provider payload s =
    authorized setup key
      (session_scope (λ s.
        tenant_or_404 (tenant_with_key tenant_key s.database.chat.tenants)
          (store_row setup fresh provider payload) s))
      s

abbrev pub after_delete : String → State → Bool × List Credential → Answer String × State
after_delete provider s (true, table) = (Answer.ok provider, set_credentials table s)
after_delete provider s (false, table) =
    (Answer.http 404 (concat "no " (concat provider " credential for this tenant")), s)

abbrev pub remove_row : String → Tenant → State → Answer String × State
remove_row provider t s =
    after_delete provider s (delete_credential t.id provider s.database.credentials)

-- `remove_credential`
unfoldable pub remove_credential :
    Setup → Option String → String → String → State → Answer String × State
remove_credential setup key tenant_key provider s =
    authorized setup key
      (session_scope (λ s.
        tenant_or_404 (tenant_with_key tenant_key s.database.chat.tenants) (remove_row provider) s))
      s
