-- ===== src/Retention/Export.antt =====
-- `export_tenant`: the rows of one tenant, each value as a text, and what `redact` leaves of them. A table
-- holds its rows in the order of the column that it is read by, with the tenant of each. `show` is
-- Python's `str`, and `lower` its `str.lower`.
use bots_infra_be.Common.{
  ℕ, String, Option, none, some, List, [], ◌∷◌, ◌==◌, map, keep, take, length, leb, if◌then◌else◌,
}
use bots_infra_be.Common.First.{first}
use bots_infra_be.Common.Json.{Value, Fields}
use bots_infra_be.Retention.Redact.{is_secret, redact, redact_fields}

-- A row, with the tenant that it belongs to: for the table of tenants, its id.
pub record Row : Type 0 where
  pub tenant : ℕ
  pub columns : Fields

-- `EXPORT_TABLES` and `EXPORT_ROW_CAP`
abbrev pub export_tables : List String
export_tables =
    "locations" ∷ "conversations" ∷ "messages" ∷ "leads" ∷ "appointments" ∷ "documents" ∷ []

abbrev pub export_row_cap : ℕ
export_row_cap = 50000

pub record Export : Type 0 where
  pub tenant : Fields
  pub tables : List (String × List Fields)
  pub truncated : List String

module _ (show : Value → String) (lower : String → String) where
  -- `{k: str(v) for k, v in d.items()}`
  abbrev pub all_text : Fields → Fields
  all_text Fields.blank = Fields.blank
  all_text (Fields.entry k v d) = Fields.entry k (Value.str (show v)) (all_text d)

  -- `str(v) if v is not None else None`
  abbrev pub text_unless_null : Value → Value
  text_unless_null Value.null = Value.null
  text_unless_null v = Value.str (show v)

  abbrev pub text_row : Fields → Fields
  text_row Fields.blank = Fields.blank
  text_row (Fields.entry k v d) = Fields.entry k (text_unless_null v) (text_row d)

  abbrev pub tenant_columns : Option Row → Fields
  tenant_columns none = Fields.blank
  tenant_columns (some r) = r.columns

  -- `SELECT … WHERE tenant_id = … LIMIT cap`
  abbrev pub rows_of : ℕ → List Row → List Row
  rows_of tenant rows = take export_row_cap (keep (λ r. r.tenant == tenant) rows)

  -- The loop over the tables.
  unfoldable pub export_rows :
      ℕ → (String → List Row) → List String → List (String × List Fields) × List String
  unfolding redact is_secret
  export_rows tenant store [] = ([], [])
  export_rows tenant store (table ∷ tables) =
      let rows = rows_of tenant (store table) in
      let (out, truncated) = export_rows tenant store tables in
      (
        (table, map (λ r. redact_fields lower (text_row r.columns)) rows) ∷ out,
        if leb export_row_cap (length rows) then table ∷ truncated else truncated,
      )

  -- `export_tenant`, but for the note on what is excluded.
  unfoldable pub export_tenant : ℕ → List Row → (String → List Row) → Export
  unfolding export_rows first
  export_tenant tenant tenants store =
      let (tables, truncated) = export_rows tenant store export_tables in
      record {
        tenant =
            redact_fields lower
              (all_text (tenant_columns (first (λ r. r.tenant == tenant) tenants)));
        tables = tables;
        truncated = truncated;
      }
