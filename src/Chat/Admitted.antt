-- ===== src/Chat/Admitted.antt =====
-- What a turn that is admitted has passed, and what it writes.
use mathlib.Core.List.{◌++◌}
use bots_infra_be.Common.{
  if-intro, sym, ap, ℕ, ◌<◌, ◌≡◌, ◌⊎◌, inl, inr, refl, Bool, true, false, not, ◌&&◌, Option, none,
  some, [], ◌∷◌, arith, leb, Bool-cases,
}
use bots_infra_be.Language
use bots_infra_be.RateLimit.{RateLimiter, allow}
use bots_infra_be.Tenants.{
  Settings, Tenant, TenantError, Platform, check_budget, consent_required, period_over,
}
use bots_infra_be.Tenants.Resolve.{ResolvedTenant, Outcome, ok, raised, Cache, resolve_tenant}
use bots_infra_be.Tenants.Allowed.{IsAllowed, IsResolved, resolve_tenant-IsResolved}
use bots_infra_be.Chat.{Conversation, Database, Process, Now, TurnContext}
use bots_infra_be.Chat.Turn.{open_turn, open_in, user_message, get_or_create_conversation}
use bots_infra_be.Chat.Own.{IsOwn, get_or_create_conversation-IsOwn}
use bots_infra_be.Chat.Prepare.{
  Keys, session_key, Visit, Answer, request_of, prepare, after_ip_limit, after_session_limit,
  after_resolve, after_tenant_limit, after_budget,
}

-- The budget of a tenant has room, or its period is over.
abbrev pub HasBudget : ℕ → Tenant → Type 0
HasBudget now t =
    (period_over now t.period_started_at ≡ true) ⊎ (t.tokens_used_period < t.monthly_token_budget)

module _ (p : Platform) (words : Language.Texts) (keys : Keys) (now : Now) (fresh : ℕ)
    (v : Visit) where
  -- A turn that is admitted: the tenant and its configuration, as the request resolves to them, what they
  -- were checked for, and the one message that is written.
  pub record IsAdmitted (proc : Process) (db : Database) (ctx : TurnContext) (db' : Database)
      : Type 0 where
    pub resolved : ResolvedTenant
    pub resolution :
        (resolve_tenant p now.monotonic (request_of v) db.tenants db.locations proc.cache).0
        ≡ ok resolved
    pub allowed : IsAllowed p (request_of v) db.tenants resolved.tenant
    pub ip_limit : (allow proc.per_ip v.ip_key now.milliseconds).0 ≡ true
    pub session_limit :
        (allow proc.per_session
          (session_key v.envelope.public_key v.envelope.session_id)
          now.milliseconds).0
        ≡ true
    pub tenant_limit :
        (allow proc.per_tenant (keys.show resolved.tenant.id) now.milliseconds).0 ≡ true
    pub budget : HasBudget now.utc resolved.tenant
    pub consent :
        (consent_required p.texts resolved.config resolved.tenant && not v.envelope.consent) ≡ false
    pub for_tenant : ctx.tenant_id ≡ resolved.tenant.id
    pub conversation : Conversation
    pub its_own : IsOwn fresh v.envelope.session_id db.conversations ctx.tenant_id conversation
    pub its_id : ctx.conversation_id ≡ conversation.id
    pub written :
        db'.messages
        ≡ db.messages ++ user_message ctx.tenant_id ctx.conversation_id v.envelope.text ∷ []

  -- An answer of either kind: an error writes no conversation and no message.
  abbrev pub IsAnswered : Process → Database → Answer → Type 0
  IsAnswered proc db (raised e, proc', db') =
      (db'.conversations ≡ db.conversations) × (db'.messages ≡ db.messages)
  IsAnswered proc db (ok ctx, proc', db') = IsAdmitted proc db ctx db'

check_budget-HasBudget :
    (now : ℕ) (t : Tenant)
    → let (e, t') = check_budget now t in
      (t'.id ≡ t.id) × (t'.region ≡ t.region) × (e ≡ none → HasBudget now t)
unfolding check_budget
check_budget-HasBudget now t = elim (Bool-cases (period_over now t.period_started_at)) [
  | inl over ↦ rw over (refl, refl, λ e. inl refl)
  | inr current ↦ elim (Bool-cases (leb t.monthly_token_budget t.tokens_used_period)) [
    | inl spent ↦ rw (current, spent) (refl, refl, λ e. absurd (ground (arith, e)))
    | inr room ↦ rw (current, room) (refl, refl, λ e. inr (ground (arith, room)))
  ]
]

consent_required-region :
    (p : Platform) (cfg : Settings) (t u : Tenant)
    → t.region ≡ u.region
    → consent_required p.texts cfg t ≡ consent_required p.texts cfg u
unfolding consent_required
consent_required-region p cfg t u e = rw e refl

module _ (p : Platform) (words : Language.Texts) (keys : Keys) (now : Now) (fresh : ℕ)
    (v : Visit) where
  -- What the first four tests have established.
  record IsChecked (proc : Process) (db : Database) (resolved : ResolvedTenant) : Type 0 where
    resolution :
        (resolve_tenant p now.monotonic (request_of v) db.tenants db.locations proc.cache).0
        ≡ ok resolved
    allowed : IsAllowed p (request_of v) db.tenants resolved.tenant
    ip_limit : (allow proc.per_ip v.ip_key now.milliseconds).0 ≡ true
    session_limit :
        (allow proc.per_session
          (session_key v.envelope.public_key v.envelope.session_id)
          now.milliseconds).0
        ≡ true
    tenant_limit : (allow proc.per_tenant (keys.show resolved.tenant.id) now.milliseconds).0 ≡ true

  after_budget-IsAnswered :
      (proc proc' : Process) (db : Database) (resolved : ResolvedTenant) (e : Option TenantError)
      (t : Tenant)
      → IsChecked proc db resolved
      → t.id ≡ resolved.tenant.id
      → t.region ≡ resolved.tenant.region
      → (e ≡ none → HasBudget now.utc resolved.tenant)
      → IsAnswered p words keys now fresh v proc db
          (after_budget p words keys now fresh v resolved proc' db (e, t))
  unfolding after_budget
  after_budget-IsAnswered proc proc' db resolved (some e) t checked id region budget = (refl, refl)
  after_budget-IsAnswered proc proc' db resolved none t checked id region budget =
      unfold open_turn open_in in
      if-intro
        (λ (o : Outcome TurnContext × Database).
          IsAnswered p words keys now fresh v proc db (o.0, proc', o.1))
        (consent_required p.texts resolved.config t && not v.envelope.consent) _ _
        (λ missing. (refl, refl))
        (λ given. record {
          resolved = resolved;
          resolution = checked.resolution;
          allowed = checked.allowed;
          ip_limit = checked.ip_limit;
          session_limit = checked.session_limit;
          tenant_limit = checked.tenant_limit;
          budget = budget refl;
          consent =
              rw (sym (consent_required-region p resolved.config t resolved.tenant region)) given;
          for_tenant = id;
          conversation =
              (get_or_create_conversation fresh (record resolved { tenant = t }) v.envelope v.ip_key
                db.conversations).0;
          its_own =
              get_or_create_conversation-IsOwn fresh (record resolved { tenant = t }) v.envelope
                v.ip_key db.conversations;
          its_id = refl;
          written = refl;
        })

  after_tenant_limit-IsAnswered :
      (proc proc' : Process) (db : Database) (resolved : ResolvedTenant)
      (answer : Bool × RateLimiter)
      → (answer.0 ≡ true → IsChecked proc db resolved)
      → IsAnswered p words keys now fresh v proc db
          (after_tenant_limit p words keys now fresh v resolved proc' db answer)
  unfolding after_tenant_limit
  after_tenant_limit-IsAnswered proc proc' db resolved (false, l) checked = (refl, refl)
  after_tenant_limit-IsAnswered proc proc' db resolved (true, l) checked =
      let (e, t) = check_budget now.utc resolved.tenant in
      let (id, region, budget) = check_budget-HasBudget now.utc resolved.tenant in
      after_budget-IsAnswered proc (record proc' { per_tenant = l }) db resolved e t (checked refl)
        id region budget

  after_resolve-IsAnswered :
      (proc proc' : Process) (db : Database) (outcome : Outcome ResolvedTenant) (cache : Cache)
      → proc'.per_tenant ≡ proc.per_tenant
      → (allow proc.per_ip v.ip_key now.milliseconds).0 ≡ true
      → (allow proc.per_session
          (session_key v.envelope.public_key v.envelope.session_id)
          now.milliseconds).0
        ≡ true
      → (resolve_tenant p now.monotonic (request_of v) db.tenants db.locations proc.cache).0
        ≡ outcome
      → IsResolved p (request_of v) db.tenants outcome
      → IsAnswered p words keys now fresh v proc db
          (after_resolve p words keys now fresh v proc' db (outcome, cache))
  unfolding after_resolve
  after_resolve-IsAnswered proc proc' db (raised e) cache same ip session result known =
      (refl, refl)
  after_resolve-IsAnswered proc proc' db (ok resolved) cache same ip session result known =
      after_tenant_limit-IsAnswered proc (record proc' { cache = cache }) db resolved _
        (λ limit. record {
          resolution = result;
          allowed = known;
          ip_limit = ip;
          session_limit = session;
          tenant_limit = rw (sym same) limit;
        })

  after_session_limit-IsAnswered :
      (proc proc' : Process) (db : Database) (answer : Bool × RateLimiter)
      → proc'.per_tenant ≡ proc.per_tenant
      → proc'.cache ≡ proc.cache
      → (allow proc.per_ip v.ip_key now.milliseconds).0 ≡ true
      → (answer.0 ≡ true
          → (allow proc.per_session
              (session_key v.envelope.public_key v.envelope.session_id)
              now.milliseconds).0
            ≡ true)
      → IsAnswered p words keys now fresh v proc db
          (after_session_limit p words keys now fresh v proc' db answer)
  unfolding after_session_limit
  after_session_limit-IsAnswered proc proc' db (false, l) same cache ip session = (refl, refl)
  after_session_limit-IsAnswered proc proc' db (true, l) same cache ip session =
      after_resolve-IsAnswered proc (record proc' { per_session = l }) db _ _ same ip (session refl)
        (ap (λ c. (resolve_tenant p now.monotonic (request_of v) db.tenants db.locations c).0)
          (sym cache))
        (resolve_tenant-IsResolved p now.monotonic (request_of v) db.tenants db.locations
          proc'.cache)

  after_ip_limit-IsAnswered :
      (proc : Process) (db : Database) (answer : Bool × RateLimiter)
      → (answer.0 ≡ true → (allow proc.per_ip v.ip_key now.milliseconds).0 ≡ true)
      → IsAnswered p words keys now fresh v proc db
          (after_ip_limit p words keys now fresh v proc db answer)
  unfolding after_ip_limit
  after_ip_limit-IsAnswered proc db (false, l) ip = (refl, refl)
  after_ip_limit-IsAnswered proc db (true, l) ip =
      after_session_limit-IsAnswered proc (record proc { per_ip = l }) db _ refl refl (ip refl)
        (λ e. e)

  pub prepare-IsAnswered :
      (proc : Process) (db : Database)
      → IsAnswered p words keys now fresh v proc db (prepare p words keys now fresh v proc db)
  unfolding prepare
  prepare-IsAnswered proc db = after_ip_limit-IsAnswered proc db _ (λ e. e)
