-- ===== src/Console/Sound.antt =====
-- The constraints of the tables that the console writes, and what its requests leave alone.
use bots_infra_be.Common.{
  ◌≡◌, refl, Bool, false, String, concat, str_eq, eq_iff, some, arith, ◌==◌, keep,
}
use bots_infra_be.Common.Dict.{get, Unique}
use bots_infra_be.Common.First.{Single, first-apart}
use bots_infra_be.Tenants.{Tenant, Location}
use bots_infra_be.Credentials.{load_credential}
use bots_infra_be.Credentials.Kept.{IsTable}
use bots_infra_be.Console.{State, Setup, tenant_with_key}
use bots_infra_be.Console.Requests.{is_location}

abbrev pub same_id : Tenant → Tenant → Bool
same_id t u = u.id == t.id

abbrev pub same_key : Tenant → Tenant → Bool
same_key t u = str_eq u.key t.key

abbrev pub same_public_key : Tenant → Tenant → Bool
same_public_key t u = str_eq u.public_key t.public_key

abbrev pub same_place : Location → Location → Bool
same_place l m = is_location l.tenant l.key m

-- The constraints: ids, keys and public keys of tenants, a tenant's keys of locations, one credential for
-- a provider; and no key twice in the cache.
pub record IsSound (s : State) : Type 0 where
  pub ids : Single same_id s.database.chat.tenants
  pub keys : Single same_key s.database.chat.tenants
  pub public_keys : Single same_public_key s.database.chat.tenants
  pub places : Single same_place s.database.chat.locations
  pub credentials : IsTable s.database.credentials
  pub cache : Unique s.cache

-- A tenant of another key keeps its row, its locations, its credentials and its cached configurations;
-- conversations, messages and leads stay.
pub record Spares (setup : Setup) (tenant_key : String) (s s' : State) : Type 0 where
  pub tenant :
      (k : String)
      → str_eq k tenant_key ≡ false
      → tenant_with_key k s'.database.chat.tenants ≡ tenant_with_key k s.database.chat.tenants
  pub locations :
      (k : String)
      → str_eq k tenant_key ≡ false
      → (t : Tenant) → tenant_with_key k s.database.chat.tenants ≡ some t
      → keep (λ l. l.tenant == t.id) s'.database.chat.locations
        ≡ keep (λ l. l.tenant == t.id) s.database.chat.locations
  pub credentials :
      (k : String)
      → str_eq k tenant_key ≡ false
      → (t : Tenant) → tenant_with_key k s.database.chat.tenants ≡ some t
      → (cipher_key provider : String)
      → load_credential setup.libs cipher_key t.id provider s'.database.credentials
        ≡ load_credential setup.libs cipher_key t.id provider s.database.credentials
  pub cache :
      (k : String)
      → setup.starts_with k (concat tenant_key ":") ≡ false
      → get s'.cache k ≡ get s.cache k
  pub conversations : s'.database.chat.conversations ≡ s.database.chat.conversations
  pub messages : s'.database.chat.messages ≡ s.database.chat.messages
  pub leads : s'.database.leads ≡ s.database.leads

pub Spares-same : (setup : Setup) (tenant_key : String) (s : State) → Spares setup tenant_key s s
Spares-same setup tenant_key s = record {
  tenant = λ k apart. refl;
  locations = λ k apart t h. refl;
  credentials = λ k apart t h c p. refl;
  cache = λ k apart. refl;
  conversations = refl;
  messages = refl;
  leads = refl;
}

-- Keys that differ are of different tenants.
pub ids_apart :
    (s : State) (k tenant_key : String) (t u : Tenant)
    → IsSound s
    → str_eq k tenant_key ≡ false
    → tenant_with_key tenant_key s.database.chat.tenants ≡ some t
    → tenant_with_key k s.database.chat.tenants ≡ some u
    → (u.id == t.id) ≡ false
ids_apart s k tenant_key t u sound apart h g =
    first-apart (λ t. t.id) (λ t. str_eq t.key tenant_key) (λ t. str_eq t.key k)
      s.database.chat.tenants t u sound.ids
      (λ x e. ground (arith, eq_iff x.key tenant_key, eq_iff x.key k, eq_iff k tenant_key)) h g
