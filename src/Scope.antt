-- ===== src/Scope.antt =====
-- Tenant scope: app/db/scope.py. A session holds the rows of a table as a list; no constraint of the
-- schema fails at a `flush`. A class that is mapped is told by its name, its key and its column
-- `tenant_id`, if it has one; in some tables the column may be NULL.
pub mod Owned
mod Examples
use bots_infra_be.Common.{
  ℕ, Bool, false, String, concat, Option, none, some, List, [], ◌∷◌, ◌++◌, ◌==◌, keep,
  if◌then◌else◌,
}

-- The attribute `tenant_id` of a row.
pub record Column (R : Type 0) : Type 0 where
  pub read : R → Option ℕ
  pub write : ℕ → R → R

-- A class of app/db/models.py. `hasattr(model, "tenant_id")` says whether there is a column.
pub record Model (R : Type 0) : Type 0 where
  pub name : String
  pub key : R → ℕ
  pub tenant_id : Option (Column R)

pub record TenantScope : Type 0 where
  pub tenant_id : ℕ
  pub location_id : Option ℕ

pub data Scoped (A : Type 0) : Type 0 where
  ok : A → Scoped A
  isolation_error : String → Scoped A

-- `tenant_id == t`, which NULL is not.
abbrev pub is_of : ℕ → Option ℕ → Bool
is_of t none = false
is_of t (some u) = u == t

module _ {R : Type 0} (model : Model R) where
  -- Whether a row is the tenant's; `getattr(row, "tenant_id", None)`.
  abbrev pub column_is_of : Option (Column R) → ℕ → R → Bool
  column_is_of none t r = false
  column_is_of (some column) t r = is_of t (column.read r)

  abbrev pub row_is_of : ℕ → R → Bool
  row_is_of = column_is_of model.tenant_id

  abbrev pub cannot_scope : String
  cannot_scope = concat model.name " has no tenant_id; cannot scope it"

  -- `TenantScope.select`, and the rows that the statement finds.
  unfoldable pub select : TenantScope → List R → Scoped (List R)
  select scope rows = elim model.tenant_id [
    | none ↦ Scoped.isolation_error cannot_scope
    | some column ↦ Scoped.ok (keep (λ r. is_of scope.tenant_id (column.read r)) rows)
  ]

  -- `TenantScope.stamp`
  unfoldable pub stamp : TenantScope → R → Scoped R
  stamp scope r = elim model.tenant_id [
    | none ↦ Scoped.isolation_error cannot_scope
    | some column ↦ Scoped.ok (column.write scope.tenant_id r)
  ]

  abbrev pub after_stamp : List R → Scoped R → Scoped (R × List R)
  after_stamp rows (Scoped.ok r) = Scoped.ok (r, rows ++ r ∷ [])
  after_stamp rows (Scoped.isolation_error e) = Scoped.isolation_error e

  -- `TenantScope.add`: the row, and the table after it.
  unfoldable pub add : TenantScope → R → List R → Scoped (R × List R)
  unfolding stamp
  add scope r rows = after_stamp rows (stamp scope r)

  -- `session.get(model, pk)`
  abbrev pub find_row : ℕ → List R → Option R
  find_row pk [] = none
  find_row pk (r ∷ rows) = let rest = find_row pk rows in if model.key r == pk then some r else rest

  abbrev pub after_find : TenantScope → Option R → Scoped (Option R)
  after_find scope none = Scoped.ok none
  after_find scope (some r) =
      if row_is_of scope.tenant_id r
      then Scoped.ok (some r)
      else Scoped.isolation_error (concat "cross-tenant access blocked: " model.name)

  -- `TenantScope.get`; the message of the error is cut short.
  unfoldable pub get : TenantScope → ℕ → List R → Scoped (Option R)
  get scope pk rows = after_find scope (find_row pk rows)
