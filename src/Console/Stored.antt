-- ===== src/Console/Stored.antt =====
-- What the handlers of credentials keep.
use bots_infra_be.Common.{◌≡◌, refl, Bool, true, false, String, some, List}
use bots_infra_be.Common.First.{}
use bots_infra_be.Common.Json.{Fields}
use bots_infra_be.Tenants.{Tenant}
use bots_infra_be.Credentials.{Credential, Stored, store_credential, delete_credential}
use bots_infra_be.Credentials.Deleted.{IsDeleted, delete_credential-IsDeleted}
use bots_infra_be.Credentials.Kept.{
  IsTable, IsNew, ReadsBack, IsStored, store_credential-IsStored, SparesOthers,
}
use bots_infra_be.Console.{State, Setup, tenant_with_key}
use bots_infra_be.Console.Requests.{New, set_credentials}
use bots_infra_be.Console.Secrets.{after_store, store_row, after_delete, remove_row}
use bots_infra_be.Console.Atomic.{Ends}
use bots_infra_be.Console.Sound.{IsSound, ids_apart}
use bots_infra_be.Console.Kept.{Keeps}

module _ (setup : Setup) (tenant_key : String) (s : State) (sound : IsSound s) where
  -- A change of the tenant's credentials alone.
  stored_Keeps :
      (t : Tenant) (provider : String) (table : List Credential)
      → tenant_with_key tenant_key s.database.chat.tenants ≡ some t
      → SparesOthers setup.libs t.id provider s.database.credentials table
      → IsTable table
      → Keeps setup tenant_key s sound (set_credentials table s)
  stored_Keeps t provider table h spares is_table = (
    record {
      ids = sound.ids;
      keys = sound.keys;
      public_keys = sound.public_keys;
      places = sound.places;
      credentials = is_table;
      cache = sound.cache;
    },
    record {
      tenant = λ k apart. refl;
      locations = λ k apart u g. refl;
      credentials = λ k apart u g c p.
          spares c u.id p (rw (ids_apart s k tenant_key t u sound apart h g) refl);
      cache = λ k apart. refl;
      conversations = refl;
      messages = refl;
      leads = refl;
    },
  )

  pub store_row-Ends :
      (new : New) (provider : String) (payload : Fields) (t : Tenant)
      → IsNew setup.libs setup.credential_encryption_key new.fresh t.id provider payload
          s.database.credentials
      → ReadsBack setup.libs setup.credential_encryption_key new.fresh t.id provider payload
      → tenant_with_key tenant_key s.database.chat.tenants ≡ some t
      → Ends (Keeps setup tenant_key s sound) s (store_row setup new.fresh provider payload t s)
  store_row-Ends new provider payload t is_new reads h =
      ended
        (store_credential setup.libs setup.credential_encryption_key new.fresh t.id provider payload
          s.database.credentials)
        (store_credential-IsStored setup.libs setup.credential_encryption_key new.fresh t.id
          provider payload s.database.credentials sound.credentials is_new reads)
    where
      ended :
          (r : Stored)
          → IsStored setup.libs setup.credential_encryption_key new.fresh t.id provider payload
              s.database.credentials r
          → Ends (Keeps setup tenant_key s sound) s (after_store payload s r)
      ended (Stored.stored table) (loads, spares, is_table) =
          stored_Keeps t provider table h spares is_table
      ended Stored.value_error e = refl
      ended Stored.no_cipher e = refl

  pub remove_row-Ends :
      (provider : String) (t : Tenant)
      → tenant_with_key tenant_key s.database.chat.tenants ≡ some t
      → Ends (Keeps setup tenant_key s sound) s (remove_row provider t s)
  remove_row-Ends provider t h = ended (delete_credential t.id provider s.database.credentials) (
      delete_credential-IsDeleted setup.libs t.id provider s.database.credentials sound.credentials)
    where
      ended :
          (r : Bool × List Credential)
          → IsDeleted setup.libs t.id provider s.database.credentials r
          → Ends (Keeps setup tenant_key s sound) s (after_delete provider s r)
      ended (true, table) (gone, spares, is_table) = stored_Keeps t provider table h spares is_table
      ended (false, table) e = refl
