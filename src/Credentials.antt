-- ===== src/Credentials.antt =====
-- Stored credentials: app/services/credentials.py and app/db/crypto.py. The rows of `tenant_credentials`
-- stand in the order of their creation; the table has one row at most for a tenant and a provider, by
-- its constraint, so `scalar_one_or_none` is the first.
--
-- `Libraries` holds `Fernet` and `json`, which may raise; `salt` is what a token depends on beside its
-- key and its text, the time and the vector. The log is left out.
pub mod Kept
pub mod Deleted
mod Examples
use bots_infra_be.Common.{
  ℕ, Bool, true, false, not, String, str_eq, Option, none, some, List, [], ◌∷◌, ◌++◌, map, ◌==◌,
  keep, if◌then◌else◌,
}
use bots_infra_be.Common.First.{first}
use bots_infra_be.Common.Rows.{update_where}
use bots_infra_be.Common.Json.{Fields, Value}
use bots_infra_be.Scope.{Column, Model, Scoped, TenantScope, select}

-- `TenantCredential`
pub record Credential : Type 0 where
  pub id : ℕ
  pub tenant : ℕ
  pub provider : String
  pub ciphertext : String
  pub created_at : ℕ

pub record Libraries : Type 0 where
  pub is_key : String → Bool
  pub seal : String → ℕ → String → String
  pub open_sealed : String → String → Option String
  pub dumps : Fields → String
  pub loads : String → Option Value

-- `_fernet`: none when the key is unset, or `Fernet` refuses it.
abbrev pub fernet : Libraries → String → Option String
fernet libs key = if str_eq key "" then none else if libs.is_key key then some key else none

abbrev pub after_fernet {ℓ} : {A : Type ℓ} → (String → A) → Option String → Option A
after_fernet f none = none
after_fernet f (some key) = some (f key)

-- `encrypt`: none when it raises.
unfoldable pub encrypt : Libraries → String → ℕ → Fields → Option String
encrypt libs key salt payload =
    after_fernet (λ k. libs.seal k salt (libs.dumps payload)) (fernet libs key)

abbrev pub after_open : Libraries → Option (Option String) → Option Value
after_open libs (some (some plain)) = libs.loads plain
after_open libs _ = none

-- `decrypt`: none when it raises.
unfoldable pub decrypt : Libraries → String → String → Option Value
decrypt libs key ciphertext =
    after_open libs (after_fernet (λ k. libs.open_sealed k ciphertext) (fernet libs key))

abbrev pub credential_model : Model Credential
credential_model = record {
  name = "TenantCredential";
  key = λ c. c.id;
  tenant_id = some (record { read = λ c. some c.tenant; write = λ t c. record c { tenant = t } });
}

-- `.where(TenantCredential.provider == provider)`
abbrev pub names_provider : String → Credential → Bool
names_provider provider c = str_eq c.provider provider

abbrev pub among : String → Scoped (List Credential) → Option Credential
among provider (Scoped.ok table) = first (names_provider provider) table
among provider (Scoped.isolation_error e) = none

-- The statement that the three operations begin with; the class has the column, so nothing is raised.
unfoldable pub row_for : ℕ → String → List Credential → Option Credential
unfolding select first
row_for tenant provider table =
    among provider
      (select credential_model (record { tenant_id = tenant; location_id = none }) table)

-- `payload if isinstance(payload, dict) else None`
abbrev pub as_object : Option Value → Option Fields
as_object (some (Value.obj payload)) = some payload
as_object _ = none

-- From the row on: an error of `decrypt` is caught.
abbrev pub open_row : Libraries → String → Option Credential → Option Fields
open_row libs key none = none
open_row libs key (some c) = as_object (decrypt libs key c.ciphertext)

unfoldable pub load_credential : Libraries → String → ℕ → String → List Credential → Option Fields
unfolding row_for decrypt
load_credential libs key tenant provider table = open_row libs key (row_for tenant provider table)

-- How `store_credential` ends: the table, `ValueError`, or the error of `encrypt`.
pub data Stored : Type 0 where
  stored : List Credential → Stored
  value_error : Stored
  no_cipher : Stored

abbrev pub set_ciphertext : String → Credential → Credential
set_ciphertext ciphertext c = record c { ciphertext = ciphertext }

-- What is new in a call: the id and the time of a row, and the salt of the cipher.
pub record Fresh : Type 0 where
  pub id : ℕ
  pub now : ℕ
  pub salt : ℕ

-- `session.add(…)`, or an update of the row.
abbrev pub put_row :
    Fresh → ℕ → String → String → List Credential → Option Credential → List Credential
put_row fresh tenant provider ciphertext table none =
    table
    ++ record {
      id = fresh.id;
      tenant = tenant;
      provider = provider;
      ciphertext = ciphertext;
      created_at = fresh.now;
    }
      ∷ []
put_row fresh tenant provider ciphertext table (some c) =
    update_where (λ d. d.id) c.id (set_ciphertext ciphertext) table

abbrev pub after_encrypt : Fresh → ℕ → String → List Credential → Option String → Stored
after_encrypt fresh tenant provider table none = Stored.no_cipher
after_encrypt fresh tenant provider table (some ciphertext) =
    Stored.stored (put_row fresh tenant provider ciphertext table (row_for tenant provider table))

abbrev pub is_blank : Fields → Bool
is_blank Fields.blank = true
is_blank _ = false

unfoldable pub store_credential :
    Libraries → String → Fresh → ℕ → String → Fields → List Credential → Stored
unfolding row_for encrypt update_where
store_credential libs key fresh tenant provider payload table =
    if is_blank payload
    then Stored.value_error
    else after_encrypt fresh tenant provider table (encrypt libs key fresh.salt payload)

-- `session.delete(row)`
abbrev pub delete_row : ℕ → List Credential → List Credential
delete_row id table = keep (λ c. not (c.id == id)) table

abbrev pub after_row : List Credential → Option Credential → Bool × List Credential
after_row table none = (false, table)
after_row table (some c) = (true, delete_row c.id table)

unfoldable pub delete_credential : ℕ → String → List Credential → Bool × List Credential
unfolding row_for
delete_credential tenant provider table = after_row table (row_for tenant provider table)

-- `list_providers`
pub list_providers : ℕ → List Credential → List (String × ℕ)
list_providers tenant table =
    map (λ c. (c.provider, c.created_at)) (keep (λ c. c.tenant == tenant) table)
