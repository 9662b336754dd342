-- ===== src/Console/Requests.antt =====
-- The handlers that onboard a tenant, change its configuration and its credentials, and report on it.
use bots_infra_be.Common.{
  ℕ, ◌+◌, Bool, true, false, ◌&&◌, String, concat, str_eq, Option, none, some, List, [], ◌∷◌, ◌++◌,
  ◌==◌, if◌then◌else◌,
}
use bots_infra_be.Common.Dict.{elem}
use bots_infra_be.Common.First.{first}
use bots_infra_be.Common.Rows.{update_where}
use bots_infra_be.Common.Json.{Fields}
use bots_infra_be.Config.Cache.{invalidate}
use bots_infra_be.Tenants.{Tenant, Location}
use bots_infra_be.Tenants.Resolve.{put_all}
use bots_infra_be.Credentials.{Credential, Fresh}
use bots_infra_be.Console.{
  State, Setup, Answer, authorized, tenant_with_key, tenant_or_404, session_scope,
}

pub record TenantIn : Type 0 where
  pub key : String
  pub name : String
  pub pack_key : String
  pub allowed_origins : List String
  pub region : String
  pub monthly_token_budget : ℕ
  pub config_overrides : Fields

pub record LocationIn : Type 0 where
  pub key : String
  pub name : String
  pub timezone : String
  pub config_overrides : Fields

-- What is new in a request: ids, times, and `secrets.token_urlsafe(24)`.
pub record New : Type 0 where
  pub fresh : Fresh
  pub token : String

-- `Tenant(…)`, with the defaults of the other columns.
abbrev pub new_tenant : New → TenantIn → Tenant
new_tenant new body = record {
  id = new.fresh.id;
  key = body.key;
  name = body.name;
  public_key = concat "pk_" new.token;
  pack_key = body.pack_key;
  config_overrides = body.config_overrides;
  allowed_origins = body.allowed_origins;
  region = body.region;
  retention_days = 365;
  monthly_token_budget = body.monthly_token_budget;
  tokens_used_period = 0;
  cost_usd_period = 0;
  period_started_at = some new.fresh.now;
  status = "active";
  config_version = 1;
}

abbrev pub is_some : {A : Type 0} → Option A → Bool
is_some none = false
is_some (some a) = true

abbrev pub set_tenants : List Tenant → State → State
set_tenants tenants s = record s {
  database = record s.database { chat = record s.database.chat { tenants = tenants } };
}

abbrev pub set_locations : List Location → State → State
set_locations locations s = record s {
  database = record s.database { chat = record s.database.chat { locations = locations } };
}

abbrev pub set_credentials : List Credential → State → State
set_credentials credentials s = record s {
  database = record s.database { credentials = credentials };
}

-- `session.add(tenant)` and `flush`: the columns `key` and `public_key` are unique.
abbrev pub add_tenant : Tenant → State → Answer Tenant × State
add_tenant t s =
    if is_some (first (λ u. str_eq u.public_key t.public_key) s.database.chat.tenants)
    then (Answer.raised "IntegrityError", s)
    else (Answer.ok t, set_tenants (s.database.chat.tenants ++ t ∷ []) s)

-- The session of `create_tenant`.
abbrev pub create_in_session : New → TenantIn → State → Answer Tenant × State
create_in_session new body s =
    if is_some (tenant_with_key body.key s.database.chat.tenants)
    then (Answer.http 409 (concat "tenant '" (concat body.key "' already exists")), s)
    else add_tenant (new_tenant new body) s

-- `create_tenant`; the answer shows the id, the keys and the pack of the row.
unfoldable pub create_tenant :
    Setup → Option String → New → TenantIn → State → Answer Tenant × State
create_tenant setup key new body s =
    authorized setup key
      (λ s.
        if elem body.pack_key setup.packs
        then session_scope (create_in_session new body) s
        else (Answer.http 400 (concat "unknown pack: " body.pack_key), s))
      s

-- `list_tenants`
unfoldable pub list_tenants : Setup → Option String → State → Answer (List Tenant) × State
list_tenants setup key s =
    authorized setup key (session_scope (λ s. (Answer.ok s.database.chat.tenants, s))) s

-- `tenant.config_overrides = {**(tenant.config_overrides or {}), **overrides}` and the version.
abbrev pub set_overrides : Fields → Tenant → Tenant
set_overrides overrides t = record t {
  config_overrides = put_all t.config_overrides overrides;
  config_version = t.config_version + 1;
}

-- `invalidate(f"{tenant_key}:")`
abbrev pub forget : Setup → String → State → State
forget setup tenant_key s = record s {
  cache = invalidate (λ k. setup.starts_with k (concat tenant_key ":")) s.cache;
}

abbrev pub update_row : Setup → String → Fields → Tenant → State → Answer ℕ × State
update_row setup tenant_key overrides t s = (
  Answer.ok (t.config_version + 1),
  forget setup tenant_key (
      set_tenants (update_where (λ u. u.id) t.id (set_overrides overrides) s.database.chat.tenants)
        s),
)

-- `update_tenant`
unfoldable pub update_tenant : Setup → Option String → String → Fields → State → Answer ℕ × State
update_tenant setup key tenant_key overrides s =
    authorized setup key
      (session_scope (λ s.
        tenant_or_404 (tenant_with_key tenant_key s.database.chat.tenants)
          (update_row setup tenant_key overrides) s))
      s

-- A location's tenant and key are unique together.
abbrev pub is_location : ℕ → String → Location → Bool
is_location tenant key l = (l.tenant == tenant) && str_eq l.key key

abbrev pub new_location : New → ℕ → LocationIn → Location
new_location new tenant body = record {
  id = new.fresh.id;
  tenant = tenant;
  key = body.key;
  name = body.name;
  timezone = body.timezone;
  config_overrides = body.config_overrides;
}

abbrev pub add_row : Setup → New → String → LocationIn → Tenant → State → Answer Location × State
add_row setup new tenant_key body t s =
    let l = new_location new t.id body in
    if is_some (first (is_location t.id body.key) s.database.chat.locations)
    then (Answer.raised "IntegrityError", s)
    else (
      Answer.ok l,
      forget setup tenant_key (set_locations (s.database.chat.locations ++ l ∷ []) s),
    )

-- `add_location`
unfoldable pub add_location :
    Setup → Option String → New → String → LocationIn → State → Answer Location × State
add_location setup key new tenant_key body s =
    authorized setup key
      (session_scope (λ s.
        tenant_or_404 (tenant_with_key tenant_key s.database.chat.tenants)
          (add_row setup new tenant_key body) s))
      s
