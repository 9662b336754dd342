-- ===== src/Console/Serve.antt =====
-- Ten requests of the console over one state, in one type: the tenants, their locations, credentials,
-- conversations, leads and usage. The other routes of app/api/admin.py are not among them: the erasure,
-- the purge and the export (see Removal), the demo's key (see Reports), the crawl and the analytics.
use bots_infra_be.Common.{ℕ, String, Option, List}
use bots_infra_be.Common.Json.{Fields}
use bots_infra_be.Tenants.{Tenant, Location}
use bots_infra_be.Chat.{Conversation, Message}
use bots_infra_be.Console.{Lead, State, Setup, Answer}
use bots_infra_be.Console.Requests.{
  TenantIn, LocationIn, New, create_tenant, list_tenants, update_tenant, add_location,
}
use bots_infra_be.Console.Secrets.{get_credentials, put_credential, remove_credential}
use bots_infra_be.Console.Reports.{Usage, conversations, leads, usage}

-- These ten routes with their parameters and bodies.
pub data Request : Type 0 where
  creates : TenantIn → Request
  lists : Request
  updates : String → Fields → Request
  adds_location : String → LocationIn → Request
  gets_credentials : String → Request
  puts_credential : (tenant_key provider : String) → Fields → Request
  removes_credential : (tenant_key provider : String) → Request
  reads_conversations : String → ℕ → Request
  reads_leads : String → Request
  reads_usage : String → Request

-- What the routes answer.
pub data Body : Type 0 where
  tenant : Tenant → Body
  tenants : List Tenant → Body
  version : ℕ → Body
  location : Location → Body
  providers : List (String × ℕ) × List String → Body
  fields_stored : ℕ → Body
  provider : String → Body
  transcripts : List (Conversation × List Message) → Body
  lead_list : List Lead → Body
  usage_of : Usage → Body

abbrev pub as_body : {A : Type 0} → (A → Body) → Answer A × State → Answer Body × State
as_body f (Answer.ok a, s) = (Answer.ok (f a), s)
as_body f (Answer.http status detail, s) = (Answer.http status detail, s)
as_body f (Answer.raised e, s) = (Answer.raised e, s)

-- The router, for these ten.
unfoldable pub serve : Setup → Option String → New → Request → State → Answer Body × State
serve setup key new (Request.creates body) s =
    as_body Body.tenant (create_tenant setup key new body s)
serve setup key new Request.lists s = as_body Body.tenants (list_tenants setup key s)
serve setup key new (Request.updates tenant_key overrides) s =
    as_body Body.version (update_tenant setup key tenant_key overrides s)
serve setup key new (Request.adds_location tenant_key body) s =
    as_body Body.location (add_location setup key new tenant_key body s)
serve setup key new (Request.gets_credentials tenant_key) s =
    as_body Body.providers (get_credentials setup key tenant_key s)
serve setup key new (Request.puts_credential tenant_key name payload) s =
    as_body Body.fields_stored (put_credential setup key new.fresh tenant_key name payload s)
serve setup key new (Request.removes_credential tenant_key name) s =
    as_body Body.provider (remove_credential setup key tenant_key name s)
serve setup key new (Request.reads_conversations tenant_key limit) s =
    as_body Body.transcripts (conversations setup key tenant_key limit s)
serve setup key new (Request.reads_leads tenant_key) s =
    as_body Body.lead_list (leads setup key tenant_key s)
serve setup key new (Request.reads_usage tenant_key) s =
    as_body Body.usage_of (usage setup key tenant_key s)
