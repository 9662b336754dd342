-- ===== src/Console.antt =====
-- The console API: app/api/admin.py. What a request reads and writes is a `State`: the database, and the
-- cache of configurations in the memory of the server. `session_scope` commits a request that ends and
-- rolls one back that raises; no rollback reaches the cache. Rows stand in the order of their creation.
--
-- Bodies are those that pydantic has accepted. `Setup` holds the settings, the functions of Python on
-- strings and the names of the packs. Costs are in millionths of a dollar, before they are rounded. The
-- crawl and the series for the charts, which are SQL, are left out.
pub mod Requests
pub mod Secrets
pub mod Reports
pub mod Removal
pub mod Serve
pub mod Atomic
pub mod Sound
pub mod Kept
pub mod Stored
pub mod Served
pub mod Effect
mod Examples
use bots_infra_be.Common.{
  ℕ, Bool, true, false, not, ◌&&◌, String, str_eq, Option, none, some, List, if◌then◌else◌,
}
use bots_infra_be.Common.First.{first}
use bots_infra_be.Common.Json.{Fields}
use bots_infra_be.Tenants.{Tenant}
use bots_infra_be.Tenants.Resolve.{Cache}
use bots_infra_be.Credentials.{Credential, Libraries}
use bots_infra_be.Chat

-- `Lead`
pub record Lead : Type 0 where
  pub id : ℕ
  pub tenant : ℕ
  pub location : Option ℕ
  pub conversation : Option ℕ
  pub fields : Fields
  pub status : String
  pub created_at : ℕ

pub record Database : Type 0 where
  pub chat : Chat.Database
  pub credentials : List Credential
  pub leads : List Lead

pub record State : Type 0 where
  pub database : Database
  pub cache : Cache

pub record Setup : Type 0 where
  pub env : String
  pub admin_api_key : String
  pub credential_encryption_key : String
  pub packs : List String
  pub libs : Libraries
  pub is_ascii : String → Bool
  pub starts_with : String → String → Bool

-- What the handlers of FastAPI make of a request: a body, an `HTTPException`, or another exception.
pub data Answer (A : Type 0) : Type 0 where
  ok : A → Answer A
  http : ℕ → String → Answer A
  raised : String → Answer A

-- `secrets.compare_digest`, which raises for texts that are not ASCII.
abbrev pub compare_digest : Setup → String → String → Option Bool
compare_digest setup a b = if setup.is_ascii a && setup.is_ascii b then some (str_eq a b) else none

abbrev pub after_digest : Option Bool → Answer Unit
after_digest none = Answer.raised "TypeError"
after_digest (some true) = Answer.ok tt
after_digest (some false) = Answer.http 401 "bad admin key"

-- `_auth`; `none` is a missing header.
unfoldable pub auth : Setup → Option String → Answer Unit
auth setup none = Answer.http 401 "bad admin key"
auth setup (some key) =
    if str_eq key ""
    then Answer.http 401 "bad admin key"
    else after_digest (compare_digest setup key setup.admin_api_key)

module _ {A S : Type 0} where
  abbrev pub after_auth : (S → Answer A × S) → S → Answer Unit → Answer A × S
  after_auth handler s (Answer.ok _) = handler s
  after_auth handler s (Answer.http status detail) = (Answer.http status detail, s)
  after_auth handler s (Answer.raised e) = (Answer.raised e, s)

  -- A handler that begins with `_auth`.
  unfoldable pub authorized : Setup → Option String → (S → Answer A × S) → S → Answer A × S
  authorized setup key handler s = after_auth handler s (auth setup key)

-- `_tenant_or_404`
abbrev pub tenant_with_key : String → List Tenant → Option Tenant
tenant_with_key key tenants = first (λ t. str_eq t.key key) tenants

module _ {A S : Type 0} where
  unfoldable pub tenant_or_404 : Option Tenant → (Tenant → S → Answer A × S) → S → Answer A × S
  tenant_or_404 none handler s = (Answer.http 404 "no such tenant", s)
  tenant_or_404 (some t) handler s = handler t s

module _ {A : Type 0} where
  abbrev pub after_session : State → Answer A × State → Answer A × State
  after_session s (Answer.ok a, s') = (Answer.ok a, s')
  after_session s (Answer.http status detail, s') =
      (Answer.http status detail, record s' { database = s.database })
  after_session s (Answer.raised e, s') = (Answer.raised e, record s' { database = s.database })

  -- `async with session_scope()`
  unfoldable pub session_scope : (State → Answer A × State) → State → Answer A × State
  session_scope block s = after_session s (block s)
