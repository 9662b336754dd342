-- ===== src/Credentials/Deleted.antt =====
-- A credential that is deleted is gone, and nothing else changes.
use bots_infra_be.Common.{
  ℕ, ◌≡◌, refl, Bool, true, false, not, ◌⊎◌, inl, inr, String, eq_iff, Option, none, some, List, [],
  ◌∷◌, arith, ◌==◌, ==_refl, All-map, ap, if◌then◌else◌,
}
use bots_infra_be.Common.First.{
  first, Single, first-cons, All-keep_sub, first-pass, first-none, Single-keep, first-keep_other,
  first-others,
}
use bots_infra_be.Credentials.{
  Credential, Libraries, load_credential, delete_row, after_row, delete_credential,
}
use bots_infra_be.Credentials.Kept.{
  is_for, same_id, same_key, IsTable, row_for-first, other-is_for, SparesOthers, load_same,
}

module _ (libs : Libraries) (tenant : ℕ) (provider : String) where
  -- A row of another key than that of a row of the pair.
  unlike :
      (c d : Credential)
      → is_for tenant provider c ≡ true
      → same_key c d ≡ false
      → is_for tenant provider d ≡ false
  unlike c d h apart = ground (arith, eq_iff c.provider provider)

  without :
      (s : Credential)
      → is_for tenant provider s ≡ false
      → (b : Bool) (t : List Credential) → first (is_for tenant provider) t ≡ none
      → first (is_for tenant provider) (if b then s ∷ t else t) ≡ none
  unfolding first
  without s fail true t h = rw fail h
  without s fail false t h = h

  deleted_rows :
      (table : List Credential)
      → Single same_key table
      → (c : Credential) → first (is_for tenant provider) table ≡ some c
      → first (is_for tenant provider) (delete_row c.id table) ≡ none
  unfolding first
  deleted_rows [] d c h = absurd (ground arith)
  deleted_rows (s ∷ table) d c h = elim (first-cons (is_for tenant provider) s c table h) [
    | inl (pass, e) ↦
        let dropped : not (s.id == c.id) ≡ false = rw (ap (λ x. x.id) e, ==_refl c.id) refl in
        rw dropped
          (first-none _ _ (All-keep_sub _ _ table (All-map _ _ (λ x. unlike s x pass) table d.0)))
    | inr (fail, later) ↦ without s fail (not (s.id == c.id)) _ (deleted_rows table d.1 c later)
  ]

  -- How `delete_credential` ends.
  abbrev pub IsDeleted : List Credential → Bool × List Credential → Type 0
  IsDeleted table (found, table') =
      ((k : String) → load_credential libs k tenant provider table' ≡ none)
      × SparesOthers libs tenant provider table table'
      × IsTable table'

  load_none :
      (k : String) (table : List Credential)
      → first (is_for tenant provider) table ≡ none
      → load_credential libs k tenant provider table ≡ none
  unfolding load_credential
  load_none k table h = rw (row_for-first tenant provider table, h) refl

  after_row-IsDeleted :
      (table : List Credential)
      → IsTable table
      → (row : Option Credential) → first (is_for tenant provider) table ≡ row
      → IsDeleted table (after_row table row)
  after_row-IsDeleted table is_table none h =
      ((λ k. load_none k table h), (λ k t p apart. refl), is_table)
  after_row-IsDeleted table is_table (some c) h = (
    (λ k. load_none k _ (deleted_rows table is_table.keys c h)),
    (λ k t p apart. load_same libs tenant provider k t p table _ (
        first-keep_other (is_for t p) _ table (
          All-map _ _ (kept (is_for t p)) table (
            first-others (λ d. d.id) (is_for tenant provider) table c is_table.ids h (is_for t p)
              (other-is_for tenant provider t p c apart
                (first-pass (is_for tenant provider) table c h)))))),
    record {
      ids = Single-keep same_id _ table is_table.ids;
      keys = Single-keep same_key _ table is_table.keys;
    },
  )
    where
      kept :
          (q : Credential → Bool) (d : Credential)
          → ((d.id == c.id) ≡ false) ⊎ (q d ≡ false)
          → (not (d.id == c.id) ≡ true) ⊎ (q d ≡ false)
      kept q d (inl apart) = inl (rw apart refl)
      kept q d (inr fails) = inr fails

  -- In such a table: once a credential is deleted it no longer loads, under any key of the cipher, every
  -- other one loads as before, and the table still is such a table.
  pub delete_credential-IsDeleted :
      (table : List Credential)
      → IsTable table
      → IsDeleted table (delete_credential tenant provider table)
  unfolding delete_credential
  delete_credential-IsDeleted table is_table =
      rw (row_for-first tenant provider table)
        (after_row-IsDeleted table is_table (first (is_for tenant provider) table) refl)
