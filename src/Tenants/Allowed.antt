-- ===== src/Tenants/Allowed.antt =====
-- What `resolve_tenant` vouches for.
use bots_infra_be.Common.{
  if-intro, ℕ, ◌≡◌, false, not, ◌&&◌, str_eq, some, List, Option-cases, inl, inr,
}
use bots_infra_be.Tenants.{Tenant, Location, Platform, origin_allowed, tenant_by_key}
use bots_infra_be.Tenants.Resolve.{
  ResolvedTenant, Outcome, ok, raised, Request, Cache, resolve_row, resolve_tenant,
}

-- A tenant that has the key, is not paused and allows the origin of a web request.
abbrev pub IsAllowed : Platform → Request → List Tenant → Tenant → Type 0
IsAllowed p r tenants t =
    (tenant_by_key r.public_key tenants ≡ some t)
    × (str_eq t.status "paused" ≡ false)
    × ((str_eq r.channel "web" && not (origin_allowed p.texts r.origin t.allowed_origins)) ≡ false)

abbrev pub IsResolved : Platform → Request → List Tenant → Outcome ResolvedTenant → Type 0
IsResolved p r tenants (raised e) = Unit
IsResolved p r tenants (ok resolved) = IsAllowed p r tenants resolved.tenant

resolve_row-IsResolved :
    (p : Platform) (now : ℕ) (r : Request) (tenants : List Tenant) (locations : List Location)
    (cache : Cache) (t : Tenant)
    → tenant_by_key r.public_key tenants ≡ some t
    → IsResolved p r tenants (resolve_row p now r locations cache t).0
unfolding resolve_row
resolve_row-IsResolved p now r tenants locations cache t found =
    if-intro (λ (o : Outcome ResolvedTenant × Cache). IsResolved p r tenants o.0)
      (str_eq t.status "paused") _ _ (λ paused. tt)
      (λ not_paused.
        if-intro (λ (o : Outcome ResolvedTenant × Cache). IsResolved p r tenants o.0)
          (str_eq r.channel "web" && not (origin_allowed p.texts r.origin t.allowed_origins)) _ _
          (λ refused. tt) (λ allowed. (found, not_paused, allowed)))

pub resolve_tenant-IsResolved :
    (p : Platform) (now : ℕ) (r : Request) (tenants : List Tenant) (locations : List Location)
    (cache : Cache)
    → IsResolved p r tenants (resolve_tenant p now r tenants locations cache).0
resolve_tenant-IsResolved p now r tenants locations cache =
    elim (Option-cases (tenant_by_key r.public_key tenants)) [
      | inl absent ↦ unfold resolve_tenant in rw (absent, IsResolved) tt
      | inr (t, found) ↦
          unfold resolve_tenant in
          rw (found, IsResolved) (resolve_row-IsResolved p now r tenants locations cache t found)
    ]
