-- ===== src/Credentials/Kept.antt =====
-- What is stored for a tenant and a provider is what is loaded, and nothing else changes.
use bots_infra_be.Common.{
  ℕ, ◌≡◌, refl, Bool, true, false, ◌&&◌, ◌⊎◌, inl, inr, String, str_eq, eq_iff, Option, none, some,
  List, [], ◌∷◌, arith, ◌==◌, ==_refl, All, All-map, if-intro, Bool-cases,
}
use bots_infra_be.Common.First.{
  first, Single, first-pass, none-first, first-append_other, first-append_self, Single-append,
  first-update_self, first-others, first-update_other, Single-update,
}
use bots_infra_be.Common.Json.{Fields, Value}
use bots_infra_be.Scope.{select}
use bots_infra_be.Credentials.{
  Credential, Libraries, fernet, encrypt, decrypt, row_for, load_credential, Stored, stored,
  value_error, no_cipher, set_ciphertext, Fresh, put_row, is_blank, store_credential,
}

abbrev pub is_for : ℕ → String → Credential → Bool
is_for tenant provider c = (c.tenant == tenant) && str_eq c.provider provider

abbrev pub same_id : Credential → Credential → Bool
same_id c d = d.id == c.id

-- The constraint on a tenant and a provider.
abbrev pub same_key : Credential → Credential → Bool
same_key c d = is_for c.tenant c.provider d

-- The constraints of the table.
pub record IsTable (table : List Credential) : Type 0 where
  pub ids : Single same_id table
  pub keys : Single same_key table

pub row_for-first :
    (tenant : ℕ) (provider : String) (table : List Credential)
    → row_for tenant provider table ≡ first (is_for tenant provider) table
unfolding row_for select first
row_for-first tenant provider [] = refl
row_for-first tenant provider (c ∷ table) = ground (arith, row_for-first tenant provider table)

-- Two keys that differ are of different rows.
pub other-is_for :
    (tenant : ℕ) (provider : String) (t : ℕ) (p : String) (c : Credential)
    → ((t == tenant) && str_eq p provider) ≡ false
    → is_for tenant provider c ≡ true
    → is_for t p c ≡ false
other-is_for tenant provider t p c h e =
    ground (arith, eq_iff c.provider provider, eq_iff c.provider p, eq_iff p provider)

module _ (libs : Libraries) (tenant : ℕ) (provider : String) where
  -- What another tenant or provider has, whatever the key is, is what it had.
  abbrev pub SparesOthers : List Credential → List Credential → Type 0
  SparesOthers table table' =
      (k : String) (t : ℕ) (p : String)
      → ((t == tenant) && str_eq p provider) ≡ false
      → load_credential libs k t p table' ≡ load_credential libs k t p table

  pub load_same :
      (k : String) (t : ℕ) (p : String) (table table' : List Credential)
      → first (is_for t p) table' ≡ first (is_for t p) table
      → load_credential libs k t p table' ≡ load_credential libs k t p table
  unfolding load_credential
  load_same k t p table table' h = rw (row_for-first t p table, row_for-first t p table', h) refl

module _ (libs : Libraries) (key : String) (fresh : Fresh) (tenant : ℕ) (provider : String)
    (payload : Fields) where
  -- How `store_credential` ends.
  abbrev pub IsStored : List Credential → Stored → Type 0
  IsStored table (stored table') =
      (load_credential libs key tenant provider table' ≡ some payload)
      × SparesOthers libs tenant provider table table'
      × IsTable table'
  IsStored table value_error = is_blank payload ≡ true
  IsStored table no_cipher = fernet libs key ≡ none

  -- No row has the id of a new one.
  abbrev pub IsNew : List Credential → Type 0
  IsNew table = All (λ c. (fresh.id == c.id) ≡ false) table

  -- The libraries read back what they write: a token under its key, and the payload as JSON.
  abbrev pub ReadsBack : Type 0
  ReadsBack =
      ((k : String) (salt : ℕ) (plain : String)
        → libs.is_key k ≡ true
        → libs.open_sealed k (libs.seal k salt plain) ≡ some plain)
      × (libs.loads (libs.dumps payload) ≡ some (Value.obj payload))

  encrypt_cases :
      ReadsBack
      → ((encrypt libs key fresh.salt payload ≡ none) × (fernet libs key ≡ none))
        ⊎ ((ciphertext : String) × (encrypt libs key fresh.salt payload ≡ some ciphertext)
            × (decrypt libs key ciphertext ≡ some (Value.obj payload)))
  unfolding encrypt decrypt
  encrypt_cases (sealed, parsed) = elim (Bool-cases (str_eq key "")) [
    | inl unset ↦ rw unset (inl (refl, refl))
    | inr set ↦ elim (Bool-cases (libs.is_key key)) [
      | inl valid ↦
          rw (set, valid)
            (inr (
              libs.seal key fresh.salt (libs.dumps payload),
              refl,
              rw (sealed key fresh.salt (libs.dumps payload) valid) parsed,
            ))
      | inr bad ↦ rw (set, bad) (inl (refl, refl))
    ]
  ]

  load_found :
      (table : List Credential) (c : Credential)
      → first (is_for tenant provider) table ≡ some c
      → decrypt libs key c.ciphertext ≡ some (Value.obj payload)
      → load_credential libs key tenant provider table ≡ some payload
  unfolding load_credential
  load_found table c h e = rw (row_for-first tenant provider table, h, e) refl

  abbrev new_row : String → Credential
  new_row ciphertext = record {
    id = fresh.id;
    tenant = tenant;
    provider = provider;
    ciphertext = ciphertext;
    created_at = fresh.now;
  }

  same_key_self :
      (c : Credential)
      → is_for tenant provider c ≡ false
      → ((tenant == c.tenant) && str_eq provider c.provider) ≡ false
  same_key_self c h = ground (arith, eq_iff provider c.provider, eq_iff c.provider provider)

  put_row-IsStored :
      (table : List Credential) (ciphertext : String)
      → IsTable table
      → IsNew table
      → decrypt libs key ciphertext ≡ some (Value.obj payload)
      → (row : Option Credential) → first (is_for tenant provider) table ≡ row
      → IsStored table (stored (put_row fresh tenant provider ciphertext table row))
  put_row-IsStored table ciphertext is_table new e none h =
      let self = new_row ciphertext in
      let matches : is_for tenant provider self ≡ true =
        rw (==_refl tenant, (eq_iff provider provider).1 refl) refl in
      (
        load_found _ self (first-append_self (is_for tenant provider) table self matches h) e,
        (λ k t p apart. load_same libs tenant provider k t p table _ (
            first-append_other (is_for t p) table self
              (other-is_for tenant provider t p self apart matches))),
        record {
          ids = Single-append same_id table self is_table.ids new;
          keys = Single-append same_key table self is_table.keys (
              All-map _ _ (λ c. same_key_self c) table
                (none-first (is_for tenant provider) table h));
        },
      )
  put_row-IsStored table ciphertext is_table new e (some c) h =
      let set = set_ciphertext ciphertext in
      let found = first-pass (is_for tenant provider) table c h in
      (
        load_found _ (set c)
            (first-update_self (λ d. d.id) set (is_for tenant provider) table c (λ x. refl) h) e,
        (λ k t p apart. load_same libs tenant provider k t p table _ (
            first-update_other (λ d. d.id) set (is_for t p) c.id table (λ x. refl)
              (first-others (λ d. d.id) (is_for tenant provider) table c is_table.ids h (is_for t p)
                (other-is_for tenant provider t p c apart found)))),
        record {
          ids =
              Single-update (λ d. d.id) set same_id c.id table (λ x y. refl) (λ x y. refl)
                is_table.ids;
          keys =
              Single-update (λ d. d.id) set same_key c.id table (λ x y. refl) (λ x y. refl)
                is_table.keys;
        },
      )

  -- The table is one of distinct ids with one row at most for a tenant and a provider, the new id is none
  -- of them, and the libraries read back what they write. A payload that is stored is what is loaded
  -- under the same key of the cipher; every other credential loads as before, under any key; and the
  -- table still is such a table. It is refused only if it is blank or there is no valid key.
  pub store_credential-IsStored :
      (table : List Credential)
      → IsTable table
      → IsNew table
      → ReadsBack
      → IsStored table (store_credential libs key fresh tenant provider payload table)
  unfolding store_credential
  store_credential-IsStored table is_table new reads =
      if-intro (IsStored table) (is_blank payload) _ _ (λ blank. blank)
        (λ full. elim (encrypt_cases reads) [
          | inl (fails, no_key) ↦ rw fails no_key
          | inr (ciphertext, sealed, e) ↦
              rw (sealed, row_for-first tenant provider table)
                (put_row-IsStored table ciphertext is_table new e
                  (first (is_for tenant provider) table) refl)
        ])
