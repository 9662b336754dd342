-- ===== src/Tenants/Resolve.antt =====
-- `resolve_tenant`.
use bots_infra_be.Common.{
  concat, ℕ, ◌&&◌, not, String, str_eq, Option, none, some, List, if◌then◌else◌,
}
use bots_infra_be.Common.Dict.{Dict}
use bots_infra_be.Common.Json.{Fields, Value, put}
use bots_infra_be.Config.Merge.{resolve}
use bots_infra_be.Config.Cache.{get_cached, put_cached}
use bots_infra_be.Tenants.{
  Tenant, Location, Settings, TenantError, Platform, origin_allowed, tenant_by_key, find_location,
}

pub record ResolvedTenant : Type 0 where
  pub tenant : Tenant
  pub location : Option Location
  pub config : Settings

pub data Outcome {ℓ} (A : Type ℓ) : Type ℓ where
  ok : A → Outcome A
  raised : TenantError → Outcome A

-- What a call is asked for.
pub record Request : Type 0 where
  pub public_key : String
  pub origin : Option String
  pub channel : String
  pub location_key : Option String

abbrev pub Cache : Type 0
Cache = Dict (ℕ × Settings)

abbrev pub overrides_of : Option Location → Option Fields
overrides_of none = none
overrides_of (some l) = some l.config_overrides

-- `{"business_name": tenant.name, **(tenant.config_overrides or {})}`: `**` replaces whole values.
abbrev pub put_all : Fields → Fields → Fields
put_all base Fields.blank = base
put_all base (Fields.entry k v d) = put_all (put base k v) d

abbrev pub tenant_layer : Tenant → Fields
tenant_layer t =
    put_all (Fields.entry "business_name" (Value.str t.name) Fields.blank) t.config_overrides

unfoldable pub build_config : Platform → String → Tenant → Option Location → Settings
build_config p channel t location = p.validate (
    resolve (some (p.pack_of t.pack_key)) (some (tenant_layer t)) (overrides_of location)
      (p.profile_of channel))

-- `cfg = get_cached(key)`, or a new one that is put into the cache.
abbrev pub or_build : ℕ → String → Settings → Option Settings × Cache → Settings × Cache
or_build now k new (some cfg, cache) = (cfg, cache)
or_build now k new (none, cache) = (new, put_cached now k new cache)

-- `location_key or '-'`
abbrev pub or_dash : Option String → String
or_dash none = "-"
or_dash (some k) = if str_eq k "" then "-" else k

-- `cache_key`
unfoldable pub cache_key : Platform → String → Option String → String → ℕ → String
cache_key p tenant_key location_key channel version = concat tenant_key (
    concat ":"
      (concat (or_dash location_key) (concat ":" (concat channel (concat ":" (p.show version))))))

unfoldable pub config_for :
    Platform → ℕ → Request → Tenant → Option Location → Cache → Settings × Cache
unfolding build_config cache_key
config_for p now r t location cache =
    let k = cache_key p t.key r.location_key r.channel t.config_version in
    or_build now k (build_config p r.channel t location) (get_cached now k cache)

-- From the row of the tenant on.
unfoldable pub resolve_row :
    Platform → ℕ → Request → List Location → Cache → Tenant → Outcome ResolvedTenant × Cache
unfolding config_for
resolve_row p now r locations cache t =
    if str_eq t.status "paused"
    then (raised (record { message = "this assistant is paused"; status = 403 }), cache)
    else if str_eq r.channel "web" && not (origin_allowed p.texts r.origin t.allowed_origins)
    then (raised (record { message = "origin not allowed"; status = 403 }), cache)
    else let location = find_location t.id r.location_key locations in
      let (cfg, cache') = config_for p now r t location cache in
      (ok (record { tenant = t; location = location; config = cfg }), cache')

-- `resolve_tenant`, at a time of the monotonic clock.
unfoldable pub resolve_tenant :
    Platform → ℕ → Request → List Tenant → List Location → Cache → Outcome ResolvedTenant × Cache
unfolding resolve_row
resolve_tenant p now r tenants locations cache = elim (tenant_by_key r.public_key tenants) [
  | none ↦ (raised (record { message = "unknown key"; status = 404 }), cache)
  | some t ↦ resolve_row p now r locations cache t
]
