-- ===== src/Console/Examples.antt =====
-- The console at concrete inputs: two tenants, one of them with a credential and a cached configuration.
use bots_infra_be.Common.{
  ℕ, concat, ◌≡◌, refl, false, true, String, str_eq, some, none, [], ◌∷◌, if◌then◌else◌,
}
use bots_infra_be.Common.Dict.{get, pop, pop_all, Unique}
use bots_infra_be.Common.First.{first}
use bots_infra_be.Common.Rows.{update_where}
use bots_infra_be.Common.Json
use bots_infra_be.Common.Json.{Fields, Value}
use bots_infra_be.Config.Cache.{invalidate, keys_with}
use bots_infra_be.Tenants.{Tenant, Settings}
use bots_infra_be.Credentials.{Libraries, store_credential}
use bots_infra_be.Console.{State, Setup, Answer, auth, authorized, session_scope, tenant_or_404}
use bots_infra_be.Console.Requests.{
  TenantIn, LocationIn, New, create_tenant, list_tenants, update_tenant, add_location,
}
use bots_infra_be.Console.Secrets.{put_credential}
use bots_infra_be.Console.Reports.{demo_key}
use bots_infra_be.Console.Serve.{Request, serve}
use bots_infra_be.Console.Atomic.{Ends}
use bots_infra_be.Console.Effect.{IsUpdated, IsPlaced, reconfigured-IsRebuilt}

abbrev secret : Fields
secret = Fields.entry "token" (Value.str "abc") Fields.blank

abbrev libs : Libraries
libs = record {
  is_key = λ k. str_eq k "key1";
  seal = λ k salt plain. plain;
  open_sealed = λ k c. if str_eq k "key1" then some c else none;
  dumps = λ f. "{token: abc}";
  loads = λ s. if str_eq s "{token: abc}" then some (Value.obj secret) else none;
}

-- Every key of the cache that holds is one of acme's.
abbrev setup : Setup
setup = record {
  env = "prod";
  admin_api_key = "admin";
  credential_encryption_key = "key1";
  packs = "generic" ∷ [];
  libs = libs;
  is_ascii = λ k. if str_eq k "é" then false else true;
  starts_with = λ k p. true;
}

abbrev tenant : ℕ → String → Tenant
tenant id key = record {
  id = id;
  key = key;
  name = "Acme";
  public_key = concat "pk_" key;
  pack_key = "generic";
  config_overrides = Fields.entry "tone" (Value.str "warm") Fields.blank;
  allowed_origins = [];
  region = "us";
  retention_days = 365;
  monthly_token_budget = 1000;
  tokens_used_period = 0;
  cost_usd_period = 0;
  period_started_at = some 0;
  status = "active";
  config_version = 1;
}

abbrev settings : Settings
settings = record { consent_required = none; consent_version = 1; max_turns = 20; locales = [] }

abbrev state : State
state = record {
  database = record {
    chat = record {
      tenants = tenant 7 "acme" ∷ tenant 8 "beta" ∷ [];
      locations = [];
      conversations = [];
      messages = [];
    };
    credentials =
        record {
          id = 1;
          tenant = 8;
          provider = "twilio";
          ciphertext = "{token: abc}";
          created_at = 10;
        }
        ∷ [];
    leads = [];
  };
  cache = ("acme:-:web:1", (50, settings)) ∷ [];
}

abbrev new : New
new = record { fresh = record { id = 9; now = 100; salt = 3 }; token = "xyz" }

abbrev body : TenantIn
body = record {
  key = "acme";
  name = "Acme";
  pack_key = "generic";
  allowed_origins = [];
  region = "us";
  monthly_token_budget = 1000;
  config_overrides = Fields.blank;
}

abbrev main : LocationIn
main = record { key = "main"; name = "Main"; timezone = "UTC"; config_overrides = secret }

-- A header that is not ASCII makes `compare_digest` raise.
not_ascii : auth setup (some "é") ≡ Answer.raised "TypeError"
unfolding auth
not_ascii = refl

wrong_key : (serve setup (some "guess") new Request.lists state).0 ≡ Answer.http 401 "bad admin key"
unfolding serve list_tenants authorized auth
wrong_key = refl

exists :
    (create_tenant setup (some "admin") new body state).0
    ≡ Answer.http 409 "tenant 'acme' already exists"
unfolding create_tenant authorized auth session_scope first
exists = refl

unknown_pack :
    (create_tenant setup (some "admin") new (record body { pack_key = "dental" }) state).0
    ≡ Answer.http 400 "unknown pack: dental"
unfolding create_tenant authorized auth
unknown_pack = refl

no_tenant :
    (update_tenant setup (some "admin") "gamma" Fields.blank state).0
    ≡ Answer.http 404 "no such tenant"
unfolding update_tenant authorized auth session_scope tenant_or_404 first
no_tenant = refl

-- The version is raised and the cached configuration dropped.
updated : (update_tenant setup (some "admin") "acme" Fields.blank state).0 ≡ Answer.ok 2
unfolding update_tenant authorized auth session_scope tenant_or_404 first update_where
updated = refl

dropped : (update_tenant setup (some "admin") "acme" Fields.blank state).1.cache ≡ []
unfolding update_tenant authorized auth session_scope tenant_or_404 first update_where invalidate
    keys_with pop_all pop
dropped = refl

-- An empty payload is a `ValueError` that no handler catches.
empty_payload :
    (put_credential setup (some "admin") new.fresh "acme" "slack" Fields.blank state).0
    ≡ Answer.raised "ValueError"
unfolding put_credential authorized auth session_scope tenant_or_404 first store_credential
empty_payload = refl

hidden : (demo_key setup state).0 ≡ Answer.http 404 "not available"
unfolding demo_key
hidden = refl

unique : Unique state.cache
unfolding get
unique = (refl, tt)

secret-Unique : Json.Unique secret
unfolding Json.get
secret-Unique = (refl, tt)

reconfigured-IsRebuilt_example :
    Ends
      (λ s'.
        (auth setup (some "admin") ≡ Answer.ok tt)
        × IsUpdated setup state (λ k rest. refl) unique "acme" secret (tenant 7 "acme") s')
      state
      (update_tenant setup (some "admin") "acme" secret state)
    × Ends
        (λ s'.
          (auth setup (some "admin") ≡ Answer.ok tt)
          × IsPlaced setup state (λ k rest. refl) unique new main (tenant 7 "acme") s')
        state
        (add_location setup (some "admin") new "acme" main state)
reconfigured-IsRebuilt_example =
    reconfigured-IsRebuilt setup state (λ k rest. refl) unique (some "admin") new "acme" secret main
      (tenant 7 "acme") (unfold first in refl) secret-Unique
