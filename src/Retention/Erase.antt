-- ===== src/Retention/Erase.antt =====
-- `erase_tenant`: the rows of eleven tables, child first, and then the tenant.
use bots_infra_be.Common.{
  ℕ, zero, suc, ◌+◌, ◌-◌, ◌≡◌, refl, sym, ◌∙◌, subst, eq_iff, ◌≤◌, Bool, true, false, not, String,
  str_eq, List, [], ◌∷◌, keep, All, arith, min, ltb, ◌==◌, if◌then◌else◌, Bool-cases, inl, inr, ◌⊎◌,
}
use bots_infra_be.Retention.{batch_size, drain}

-- The tables that are emptied one by one. A row is told by the tenant that it belongs to.
abbrev pub tables : List String
tables =
    "messages" ∷ "leads" ∷ "appointments" ∷ "conversations" ∷ "chunks" ∷ "documents" ∷ "eval_runs"
    ∷ "eval_datasets" ∷ "tenant_credentials" ∷ "job_queue" ∷ "locations" ∷ []

-- `DELETE FROM table WHERE ctid IN (SELECT … WHERE tenant_id = :tid LIMIT n)`
unfoldable pub delete_rows : ℕ → ℕ → List ℕ → ℕ × List ℕ
delete_rows tenant n [] = (0, [])
delete_rows tenant zero (r ∷ t) = (0, r ∷ t)
delete_rows tenant (suc n) (r ∷ t) = elim (r == tenant) [
  | true ↦ let (k, t') = delete_rows tenant n t in (suc k, t')
  | false ↦ let (k, t') = delete_rows tenant (suc n) t in (k, r ∷ t')
]

abbrev pub Database : Type 0
Database = String → List ℕ

-- The summary: the rows removed from each table, and the tables where the loop met its ceiling.
pub record Erased : Type 0 where
  pub removed : List (String × ℕ)
  pub truncated : List String
  pub database : Database

-- A table's new rows.
abbrev pub set_rows : Database → String → List ℕ → Database
set_rows db name rows = λ other. if str_eq other name then rows else db other

-- The loop over the tables.
unfoldable pub erase_tables : ℕ → ℕ → List String → Database → Erased
unfolding delete_rows
erase_tables tenant tries [] db = record { removed = []; truncated = []; database = db }
erase_tables tenant tries (name ∷ names) db =
    let done = drain (delete_rows tenant batch_size) tries (db name) in
    let rest = erase_tables tenant tries names (set_rows db name done.state) in
    record {
      removed = (name, done.deleted) ∷ rest.removed;
      truncated = if done.at_ceiling then name ∷ rest.truncated else rest.truncated;
      database = rest.database;
    }

abbrev pub has_none : {A : Type 0} → List A → Bool
has_none [] = true
has_none (x ∷ xs) = false

-- `erase_tenant`: the summary, `complete`, and the tenants that are left. The cascade by which the
-- database then drops what still refers to the tenant's row is the database's, and is not modelled.
unfoldable pub erase_tenant : ℕ → ℕ → Database → List ℕ → Erased × Bool × List ℕ
unfolding erase_tables
erase_tenant tenant tries db tenants =
    let erased = erase_tables tenant tries tables db in
    (erased, has_none erased.truncated, keep (λ i. not (i == tenant)) tenants)

abbrev pub row_count : ℕ → List ℕ → ℕ
row_count tenant [] = 0
row_count tenant (r ∷ t) = (if r == tenant then 1 else 0) + row_count tenant t

delete_rows_facts :
    (tenant n : ℕ) (t : List ℕ)
    → ((delete_rows tenant n t).0 ≡ min n (row_count tenant t))
      × (row_count tenant (delete_rows tenant n t).1 ≡ row_count tenant t - n)
      × (keep (λ r. not (r == tenant)) (delete_rows tenant n t).1 ≡ keep (λ r. not (r == tenant)) t)
unfolding delete_rows
delete_rows_facts tenant n [] = (omega arith, omega arith, refl)
delete_rows_facts tenant zero (r ∷ t) = (omega arith, omega arith, refl)
delete_rows_facts tenant (suc n) (r ∷ t) =
    ground (arith, delete_rows_facts tenant n t, delete_rows_facts tenant (suc n) t)

-- How the rows of one table may change: those of other tenants stay, and none of this tenant is added.
abbrev pub Spares : ℕ → List ℕ → List ℕ → Type 0
Spares tenant t u =
    (keep (λ r. not (r == tenant)) u ≡ keep (λ r. not (r == tenant)) t)
    × (row_count tenant u ≤ row_count tenant t)

drained :
    (tenant tries : ℕ) (t : List ℕ)
    → let done = drain (delete_rows tenant batch_size) tries t in
      Spares tenant t done.state × ((done.at_ceiling ≡ true) ⊎ (row_count tenant done.state ≡ 0))
unfolding drain
drained tenant zero t = ((refl, omega arith), inl refl)
drained tenant (suc tries) t =
    let (removed, left, others) = delete_rows_facts tenant batch_size t in
    let ((same, less), end) = drained tenant tries (delete_rows tenant batch_size t).1 in
    elim (Bool-cases (ltb (delete_rows tenant batch_size t).0 batch_size)) [
      | inl short ↦ rw short ((others, omega (arith, left)), inr (ground (arith, removed, left)))
      | inr full ↦ rw full ((same ∙ others, omega (arith, left, less)), end)
    ]

-- The tables of a database after a change to one of them.
spared_rows :
    (tenant : ℕ) (db : Database) (name : String) (rows : List ℕ)
    → Spares tenant (db name) rows
    → (other : String) → Spares tenant (db other) (set_rows db name rows other)
spared_rows tenant db name rows h other = elim (Bool-cases (str_eq other name)) [
  | inl same ↦
      subst (λ x. Spares tenant (db x) (if str_eq other name then rows else db other))
        (sym ((eq_iff other name).0 same)) (rw same h)
  | inr apart ↦ rw apart (refl, omega arith)
]

set_self : (db : Database) (name : String) (rows : List ℕ) → set_rows db name rows name ≡ rows
set_self db name rows = rw ((eq_iff name name).1 refl) refl

no_ceiling : {P : Type 0} {b : Bool} → b ≡ false → (b ≡ true) ⊎ P → P
no_ceiling short (inl ceiling) = absurd (ground arith)
no_ceiling short (inr p) = p

emptied :
    (tenant : ℕ) (t u v : List ℕ)
    → row_count tenant v ≤ row_count tenant u
    → u ≡ t
    → row_count tenant t ≡ 0
    → row_count tenant v ≡ 0
emptied tenant t u v less same no_row =
    ground (arith, subst (λ x. row_count tenant x ≡ 0) (sym same) no_row)

row_count-keep : (tenant : ℕ) (t : List ℕ) → row_count tenant (keep (λ r. not (r == tenant)) t) ≡ 0
row_count-keep tenant [] = refl
row_count-keep tenant (r ∷ t) = ground (arith, row_count-keep tenant t)

keep-again : {R : Type 0} (p : R → Bool) (t : List R) → keep p (keep p t) ≡ keep p t
keep-again p [] = refl
keep-again p (r ∷ t) = ground (arith, keep-again p t)

erase_tables_facts :
    (tenant tries : ℕ) (names : List String) (db : Database)
    → let erased = erase_tables tenant tries names db in
      ((other : String) → Spares tenant (db other) (erased.database other))
      × ((has_none erased.truncated ≡ false)
          ⊎ All (λ name. row_count tenant (erased.database name) ≡ 0) names)
unfolding erase_tables
erase_tables_facts tenant tries [] db = ((λ other. (refl, omega arith)), inr tt)
erase_tables_facts tenant tries (name ∷ names) db =
    let done = drain (delete_rows tenant batch_size) tries (db name) in
    let (spares, end) = drained tenant tries (db name) in
    let (later, rest) = erase_tables_facts tenant tries names (set_rows db name done.state) in
    let here = spared_rows tenant db name done.state spares in
    (
      (λ other. ((later other).0 ∙ (here other).0, omega (arith, (later other).1, (here other).1))),
      elim (Bool-cases done.at_ceiling) [
        | inl ceiling ↦ rw ceiling (inl refl)
        | inr short ↦ rw short (elim rest [
          | inl more ↦ inl more
          | inr gone ↦ inr (
            emptied tenant _ _ _ (later name).1 (set_self db name done.state)
                (no_ceiling short end),
            gone,
          )
        ])
      ],
    )

-- Erasing a tenant removes it and leaves every other tenant, and in each table the rows of the other
-- tenants are those of before; when it reports that it is complete no row of the tenant is left in any of
-- the eleven tables.
pub erase_tenant_complete :
    (tenant tries : ℕ) (db : Database) (tenants : List ℕ)
    → let (erased, complete, tenants') = erase_tenant tenant tries db tenants in
      (row_count tenant tenants' ≡ 0)
      × (keep (λ r. not (r == tenant)) tenants' ≡ keep (λ r. not (r == tenant)) tenants)
      × ((other : String)
          → keep (λ r. not (r == tenant)) (erased.database other)
            ≡ keep (λ r. not (r == tenant)) (db other))
      × ((complete ≡ false) ⊎ All (λ name. row_count tenant (erased.database name) ≡ 0) tables)
unfolding erase_tenant
erase_tenant_complete tenant tries db tenants =
    let (spares, end) = erase_tables_facts tenant tries tables db in
    (
      row_count-keep tenant tenants,
      keep-again (λ r. not (r == tenant)) tenants,
      (λ other. (spares other).0),
      end,
    )
