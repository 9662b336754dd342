-- ===== src/Console/Removal.antt =====
-- The handlers that purge what is past its retention, and that erase a tenant. They read the tenant in
-- one session and remove its rows in others; the rows are those of Retention.
use bots_infra_be.Common.{
  ℕ, Bool, not, String, concat, str_eq, Option, List, map, ◌==◌, keep, if◌then◌else◌,
}
use bots_infra_be.Config.Cache.{invalidate}
use bots_infra_be.Tenants.{Tenant}
use bots_infra_be.Tenants.Resolve.{Cache}
use bots_infra_be.Retention.Purge.{Store, Report, purge_tenant}
use bots_infra_be.Retention.Erase.{Erased, erase_tenant}
use bots_infra_be.Retention.Erase
use bots_infra_be.Retention.Export.{Export, Row, export_tenant}
use bots_infra_be.Common.Json.{Value}
use bots_infra_be.Console.{Setup, Answer, authorized, tenant_with_key, tenant_or_404}

-- `retention_run`, and `retention_preview` when it is a dry run.
unfoldable pub retention :
    Setup → Option String → Bool → ℕ → ℕ → String → List Tenant → Store → Answer Report × Store
retention setup key dry_run now tries tenant_key tenants store =
    authorized setup key
      (λ s.
        tenant_or_404 (tenant_with_key tenant_key tenants)
          (λ t s.
            let (report, s') = purge_tenant now t.id t.retention_days dry_run tries s in
            (Answer.ok report, s'))
          s)
      store

-- What an erasure changes: the tenants, the rows of the eleven tables, and the cache.
pub record Estate : Type 0 where
  pub tenants : List Tenant
  pub rows : Erase.Database
  pub cache : Cache

abbrev pub erase_row :
    Setup → ℕ → String → Tenant → Estate → Answer (List (String × ℕ) × Bool) × Estate
erase_row setup tries tenant_key t s =
    let (erased, complete, left) = erase_tenant t.id tries s.rows (map (λ u. u.id) s.tenants) in
    (
      Answer.ok (erased.removed, complete),
      record {
        tenants = keep (λ u. not (u.id == t.id)) s.tenants;
        rows = erased.database;
        cache = invalidate (λ k. setup.starts_with k (concat tenant_key ":")) s.cache;
      },
    )

-- `erase`
unfoldable pub erase :
    Setup
    → Option String
    → ℕ
    → String
    → String
    → Estate
    → Answer (List (String × ℕ) × Bool) × Estate
erase setup key tries tenant_key confirm s =
    authorized setup key
      (λ s.
        if str_eq confirm tenant_key
        then tenant_or_404 (tenant_with_key tenant_key s.tenants) (erase_row setup tries tenant_key)
            s
        else (
          Answer.http 400
              (concat "irreversible - pass ?confirm=" (concat tenant_key " to proceed")),
          s,
        ))
      s

-- `export`
unfoldable pub export_request :
    Setup
    → Option String
    → (show : Value → String) (lower : String → String) → String
    → List Tenant
    → (rows : List Row) (tables : String → List Row) → Answer Export × List Tenant
export_request setup key show lower tenant_key tenants rows tables =
    authorized setup key
      (λ s.
        tenant_or_404 (tenant_with_key tenant_key s)
          (λ t s. (Answer.ok (export_tenant show lower t.id rows tables), s)) s)
      tenants
