-- ===== src/Tenants.antt =====
-- Tenants, their origins and their budget: app/services/tenants.py, but for the conversations, which
-- Chat models. Times of the calendar are seconds; a row that is written back is the result.
--
-- `urlparse` and the string functions are fields of `Texts`. The consent regions and the cache of
-- configurations are those of app/config. `validate` is pydantic's `AgentConfig.model_validate`.
pub mod Resolve
pub mod Allowed
mod Examples
use bots_infra_be.Common.{
  ℕ, ◌+◌, Bool, true, false, not, ◌&&◌, ◌||◌, String, str_eq, Option, none, some, List, [], ◌∷◌,
  ◌==◌, ltb, leb, any_of, if◌then◌else◌,
}
use bots_infra_be.Common.Dict.{Dict, elem}
use bots_infra_be.Common.Json.{Fields, Value}
use bots_infra_be.Config.Merge.{resolve, deep_merge}
use bots_infra_be.Config.Cache.{get_cached, put_cached}

pub record Tenant : Type 0 where
  pub id : ℕ
  pub key : String
  pub name : String
  pub public_key : String
  pub pack_key : String
  pub config_overrides : Fields
  pub allowed_origins : List String
  pub region : String
  pub retention_days : ℕ
  pub monthly_token_budget : ℕ
  pub tokens_used_period : ℕ
  pub cost_usd_period : ℕ
  pub period_started_at : Option ℕ
  pub status : String
  pub config_version : ℕ

pub record Location : Type 0 where
  pub id : ℕ
  pub tenant : ℕ
  pub key : String
  pub name : String
  pub timezone : String
  pub config_overrides : Fields

-- The settings of a configuration that a turn reads itself.
pub record Settings : Type 0 where
  pub consent_required : Option Bool
  pub consent_version : ℕ
  pub max_turns : ℕ
  pub locales : List String

pub record TenantError : Type 0 where
  pub message : String
  pub status : ℕ

-- `urlparse(x).netloc or x`, `lower`, `removeprefix("www.")`; what follows `*.` at the start of a text;
-- `"." + x`; `x.endswith(y)`.
pub record Texts : Type 0 where
  pub netloc : String → String
  pub lower : String → String
  pub drop_www : String → String
  pub after_star : String → Option String
  pub dotted : String → String
  pub ends_with : String → String → Bool

pub record Platform : Type 0 where
  pub texts : Texts
  pub pack_of : String → Fields
  pub profile_of : String → Fields
  pub validate : Fields → Settings
  pub show : ℕ → String

-- `host == candidate[2:] or host.endswith("." + candidate[2:])`, or `host == candidate`.
abbrev pub matches_host : Texts → String → String → Option String → Bool
matches_host texts host candidate none = str_eq host candidate
matches_host texts host candidate (some suffix) =
    str_eq host suffix || texts.ends_with host (texts.dotted suffix)

abbrev pub host_of : Texts → String → String
host_of texts origin = texts.drop_www (texts.lower (texts.netloc origin))

abbrev pub matches_entry : Texts → String → String → Bool
matches_entry texts host entry =
    let candidate = host_of texts entry in
    matches_host texts host candidate (texts.after_star candidate)

-- `_origin_allowed`; `none` is a missing header.
unfoldable pub origin_allowed : Texts → Option String → List String → Bool
origin_allowed texts origin [] = true
origin_allowed texts none (entry ∷ allowed) = false
origin_allowed texts (some origin) (entry ∷ allowed) =
    not (str_eq origin "") && any_of (matches_entry texts (host_of texts origin)) (entry ∷ allowed)

-- `CONSENT_REGIONS`
abbrev pub consent_regions : List String
consent_regions = "eu" ∷ "ae" ∷ "uk" ∷ []

-- `consent_required`
unfoldable pub consent_required : Texts → Settings → Tenant → Bool
consent_required texts settings tenant = elim settings.consent_required [
  | some explicit ↦ explicit
  | none ↦
      elem (texts.lower (if str_eq tenant.region "" then "us" else tenant.region)) consent_regions
]

-- Whether a period that has started is more than 31 days old.
abbrev pub period_over : ℕ → Option ℕ → Bool
period_over now none = false
period_over now (some started) = ltb (started + 2678400) now

-- `check_budget`: the error that it raises, if any, and the row that it leaves in the session.
unfoldable pub check_budget : ℕ → Tenant → Option TenantError × Tenant
check_budget now t =
    if period_over now t.period_started_at
    then (
      none,
      record t {
        tokens_used_period = 0;
        cost_usd_period = 0;
        period_started_at = some now;
        status = if str_eq t.status "over_budget" then "active" else t.status;
      },
    )
    else if leb t.monthly_token_budget t.tokens_used_period
    then (
      some (record { message = "monthly usage limit reached"; status = 429 }),
      record t { status = "over_budget" },
    )
    else (none, t)

-- `SELECT … WHERE public_key = …`, and the location of a tenant by its key.
unfoldable pub tenant_by_key : String → List Tenant → Option Tenant
tenant_by_key k [] = none
tenant_by_key k (t ∷ ts) = if str_eq t.public_key k then some t else tenant_by_key k ts

abbrev pub location_by_key : ℕ → String → List Location → Option Location
location_by_key tenant k [] = none
location_by_key tenant k (l ∷ ls) =
    if (l.tenant == tenant) && str_eq l.key k then some l else location_by_key tenant k ls

unfoldable pub find_location : ℕ → Option String → List Location → Option Location
find_location tenant none ls = none
find_location tenant (some k) ls = if str_eq k "" then none else location_by_key tenant k ls
