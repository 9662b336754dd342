-- ===== src/Chat/Prepare.antt =====
-- `_prepare`: the limits, the tenant, its budget and the visitor's message.
use bots_infra_be.Common.{concat, ℕ, Bool, true, false, String, Option, none, some}
use bots_infra_be.Common.Rows.{update_where}
use bots_infra_be.Language
use bots_infra_be.RateLimit.{RateLimiter, allow}
use bots_infra_be.Tenants.{Tenant, TenantError, Platform, check_budget}
use bots_infra_be.Tenants.Resolve.{
  ResolvedTenant, Outcome, ok, raised, Request, Cache, resolve_tenant,
}
use bots_infra_be.Chat.{Envelope, Database, Process, Now, TurnContext}
use bots_infra_be.Chat.Turn.{open_turn}

-- `f"{public_key}:{session_id}"`
abbrev pub session_key : String → String → String
session_key public_key session_id = concat public_key (concat ":" session_id)

-- `str(tenant_id)`
pub record Keys : Type 0 where
  pub show : ℕ → String

-- What a request brings: the envelope, the hashed address and the header.
pub record Visit : Type 0 where
  pub envelope : Envelope
  pub ip_key : String
  pub origin : Option String

abbrev pub request_of : Visit → Request
request_of v = record {
  public_key = v.envelope.public_key;
  origin = v.origin;
  channel = v.envelope.channel;
  location_key = v.envelope.location_key;
}

abbrev pub too_many : {A : Type 0} → Outcome A
too_many = raised (record { message = "too many requests"; status = 429 })

abbrev pub Answer : Type 0
Answer = Outcome TurnContext × Process × Database

module _ (p : Platform) (words : Language.Texts) (keys : Keys) (now : Now) (fresh : ℕ)
    (v : Visit) where
  abbrev pub opened : Process → Outcome TurnContext × Database → Answer
  opened proc (outcome, db) = (outcome, proc, db)

  -- The first session commits the row of the tenant, or is rolled back where the budget is spent; the
  -- second is `open_turn`.
  unfoldable pub after_budget :
      ResolvedTenant → Process → Database → Option TenantError × Tenant → Answer
  after_budget resolved proc db (some e, t) = (raised e, proc, db)
  after_budget resolved proc db (none, t) = opened proc (
      open_turn p words now.utc fresh (record resolved { tenant = t }) v.envelope v.ip_key
        (record db { tenants = update_where (λ t. t.id) t.id (λ old. t) db.tenants }))

  unfoldable pub after_tenant_limit :
      ResolvedTenant → Process → Database → Bool × RateLimiter → Answer
  unfolding after_budget
  after_tenant_limit resolved proc db (false, l) = (too_many, record proc { per_tenant = l }, db)
  after_tenant_limit resolved proc db (true, l) =
      after_budget resolved (record proc { per_tenant = l }) db
        (check_budget now.utc resolved.tenant)

  unfoldable pub after_resolve : Process → Database → Outcome ResolvedTenant × Cache → Answer
  unfolding after_tenant_limit
  after_resolve proc db (raised e, cache) = (raised e, record proc { cache = cache }, db)
  after_resolve proc db (ok resolved, cache) =
      after_tenant_limit resolved (record proc { cache = cache }) db
        (allow proc.per_tenant (keys.show resolved.tenant.id) now.milliseconds)

  unfoldable pub after_session_limit : Process → Database → Bool × RateLimiter → Answer
  unfolding after_resolve
  after_session_limit proc db (false, l) = (too_many, record proc { per_session = l }, db)
  after_session_limit proc db (true, l) =
      after_resolve (record proc { per_session = l }) db
        (resolve_tenant p now.monotonic (request_of v) db.tenants db.locations proc.cache)

  unfoldable pub after_ip_limit : Process → Database → Bool × RateLimiter → Answer
  unfolding after_session_limit
  after_ip_limit proc db (false, l) = (too_many, record proc { per_ip = l }, db)
  after_ip_limit proc db (true, l) =
      after_session_limit (record proc { per_ip = l }) db
        (allow proc.per_session (session_key v.envelope.public_key v.envelope.session_id)
          now.milliseconds)

  -- `_prepare`
  unfoldable pub prepare : Process → Database → Answer
  unfolding after_ip_limit
  prepare proc db = after_ip_limit proc db (allow proc.per_ip v.ip_key now.milliseconds)
