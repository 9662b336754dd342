-- ===== src/Scope/Owned.antt =====
-- What a scope hands out and writes is the tenant's.
use mathlib.Core.List.{◌++◌}
use bots_infra_be.Common.{
  ℕ, ◌≡◌, refl, subst, ==_refl, true, false, Option, none, some, List, [], ◌∷◌, arith, ◌==◌, keep,
  All, keep-All, keep-append, if-intro, Option-cases, inl, inr,
}
use bots_infra_be.Scope.{
  Column, Model, TenantScope, Scoped, is_of, row_is_of, select, stamp, add, find_row, get,
}

module _ {R : Type 0} (model : Model R) (scope : TenantScope) where
  -- The class has a column.
  abbrev pub IsScoped : Type 0
  IsScoped = (column : Column R) × (model.tenant_id ≡ some column)

  -- The rows are the tenant's, and all of them; there is no column, where there is an error.
  abbrev pub IsSelected : List R → Scoped (List R) → Type 0
  IsSelected rows (Scoped.ok own) =
      IsScoped
      × All (λ r. row_is_of model scope.tenant_id r ≡ true) own
      × (own ≡ keep (row_is_of model scope.tenant_id) rows)
  IsSelected rows (Scoped.isolation_error e) = model.tenant_id ≡ none

  -- The new row is the tenant's and stands last, and the rows of every other tenant are those of before.
  abbrev pub IsAdded : List R → Scoped (R × List R) → Type 0
  IsAdded rows (Scoped.ok (r, rows')) =
      IsScoped
      × (row_is_of model scope.tenant_id r ≡ true)
      × (rows' ≡ rows ++ (r ∷ []))
      × ((other : ℕ)
          → (other == scope.tenant_id) ≡ false
          → keep (row_is_of model other) rows' ≡ keep (row_is_of model other) rows)
  IsAdded rows (Scoped.isolation_error e) = model.tenant_id ≡ none

  -- The row that is found is the tenant's; there is an error when it is another's.
  abbrev pub IsGot : ℕ → List R → Scoped (Option R) → Type 0
  IsGot pk rows (Scoped.ok none) = find_row model pk rows ≡ none
  IsGot pk rows (Scoped.ok (some r)) =
      (find_row model pk rows ≡ some r) × (row_is_of model scope.tenant_id r ≡ true)
  IsGot pk rows (Scoped.isolation_error e) =
      (r : R) × (find_row model pk rows ≡ some r) × (row_is_of model scope.tenant_id r ≡ false)

  select-IsSelected : (rows : List R) → IsSelected rows (select model scope rows)
  unfolding select
  select-IsSelected rows = elim (Option-cases model.tenant_id) [
    | inl no_column ↦ rw no_column refl
    | inr (column, e) ↦
        rw e ((column, refl), keep-All (λ r. is_of scope.tenant_id (column.read r)) rows, refl)
  ]

  -- What is written into a column is read from it.
  abbrev pub IsColumn : Option (Column R) → Type 0
  IsColumn none = Unit
  IsColumn (some column) = (t : ℕ) (r : R) → column.read (column.write t r) ≡ some t

  add-IsAdded :
      (r : R) (rows : List R) → IsColumn model.tenant_id → IsAdded rows (add model scope r rows)
  unfolding add stamp
  add-IsAdded r rows h = elim (Option-cases model.tenant_id) [
    | inl no_column ↦ rw no_column refl
    | inr (column, e) ↦
        let law = subst IsColumn e h scope.tenant_id r in
        rw (e, law)
          (
            (column, refl),
            ==_refl scope.tenant_id,
            refl,
            λ other apart.
                keep-append (λ x. is_of other (column.read x)) rows (column.write scope.tenant_id r)
                  (rw law ground (arith, apart)),
          )
  ]

  get-IsGot : (pk : ℕ) (rows : List R) → IsGot pk rows (get model scope pk rows)
  unfolding get
  get-IsGot pk rows = elim (Option-cases (find_row model pk rows)) [
    | inl missing ↦ rw missing missing
    | inr (r, found) ↦ rw found (
        if-intro (IsGot pk rows) (row_is_of model scope.tenant_id r) _ _ (λ own. (found, own))
          (λ foreign. (r, found, foreign)))
  ]

  -- If what is written into a column is read from it: the rows that a scope selects are all
  -- those of its tenant and no others; the row that it adds stands last and is its tenant's, with the rows
  -- of every other tenant unchanged; and the row that it gets by a key is the one of that key and its
  -- tenant's. Selecting and adding raise exactly when the class has no column, and getting exactly when
  -- the row of the key is not the tenant's.
  pub scope-IsOwned :
      (pk : ℕ) (r : R) (rows : List R)
      → IsColumn model.tenant_id
      → IsSelected rows (select model scope rows)
        × IsAdded rows (add model scope r rows)
        × IsGot pk rows (get model scope pk rows)
  scope-IsOwned pk r rows h = (select-IsSelected rows, add-IsAdded r rows h, get-IsGot pk rows)
