-- ===== src/Scope/Examples.antt =====
-- A scope at a concrete table: a row is a key and the tenant it belongs to.
use bots_infra_be.Common.{ℕ, ◌≡◌, refl, Option, none, some, [], ◌∷◌, List}
use bots_infra_be.Scope.{Model, TenantScope, Scoped, get, add, stamp, select}
use bots_infra_be.Scope.Owned.{IsSelected, IsAdded, IsGot, scope-IsOwned}

abbrev leads : Model (ℕ × Option ℕ)
leads = record {
  name = "Lead";
  key = λ r. r.0;
  tenant_id = some (record { read = λ r. r.1; write = λ t r. (r.0, some t) });
}

abbrev packs : Model ℕ
packs = record { name = "Pack"; key = λ r. r; tenant_id = none }

abbrev scope : TenantScope
scope = record { tenant_id = 7; location_id = none }

abbrev rows : List (ℕ × Option ℕ)
rows = (1, some 7) ∷ (2, some 8) ∷ (3, none) ∷ []

own : get leads scope 1 rows ≡ Scoped.ok (some (1, some 7))
unfolding get
own = refl

foreign : get leads scope 2 rows ≡ Scoped.isolation_error "cross-tenant access blocked: Lead"
unfolding get
foreign = refl

stamped : add leads scope (4, some 8) [] ≡ Scoped.ok ((4, some 7), (4, some 7) ∷ [])
unfolding add stamp
stamped = refl

without_column :
    select packs scope [] ≡ Scoped.isolation_error "Pack has no tenant_id; cannot scope it"
unfolding select
without_column = refl

scope-IsOwned_example :
    IsSelected leads scope rows (select leads scope rows)
    × IsAdded leads scope rows (add leads scope (4, some 8) rows)
    × IsGot leads scope 2 rows (get leads scope 2 rows)
scope-IsOwned_example = scope-IsOwned leads scope 2 (4, some 8) rows (λ t r. refl)
