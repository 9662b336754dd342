-- ===== src/Console/Served.antt =====
-- The ten requests of the console that `Serve` joins: who may send it, what it may change, and what its errors leave.
use bots_infra_be.Common.{◌≡◌, String, Option, some}
use bots_infra_be.Credentials.Kept.{ReadsBack}
use bots_infra_be.Console.{State, Setup}
use bots_infra_be.Console.Requests.{New}
use bots_infra_be.Console.Serve.{Request}
use bots_infra_be.Console.Sound.{IsSound, Spares}

-- The key of the tenant that a request is about.
abbrev pub target : Request → String
target (Request.creates body) = body.key
target Request.lists = ""
target (Request.updates tenant_key overrides) = tenant_key
target (Request.adds_location tenant_key body) = tenant_key
target (Request.gets_credentials tenant_key) = tenant_key
target (Request.puts_credential tenant_key name payload) = tenant_key
target (Request.removes_credential tenant_key name) = tenant_key
target (Request.reads_conversations tenant_key limit) = tenant_key
target (Request.reads_leads tenant_key) = tenant_key
target (Request.reads_usage tenant_key) = tenant_key

module _ (setup : Setup) (key : Option String) where
  -- A change, for the console's key alone; the constraints hold, and the other tenants are spared.
  abbrev pub IsServed : Request → State → State → Type 0
  IsServed request s s' =
      (key ≡ some setup.admin_api_key) × IsSound s' × Spares setup (target request) s s'

  -- What a request that stores a credential relies on: the libraries read back what they write.
  abbrev pub Reads : New → Request → Type 0
  Reads new (Request.puts_credential tenant_key name payload) =
      ReadsBack setup.libs setup.credential_encryption_key new.fresh 0 name payload
  Reads new _ = Unit
