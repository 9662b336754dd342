-- ===== src/Whatsapp.antt =====
-- The inbound webhook of Twilio: app/api/whatsapp.py and `valid_signature` of app/integrations/twilio.py.
--
-- The graph's turn, which may raise, is the argument `turn`; the HMAC, the credentials of a tenant and the
-- texts that are built of identifiers are fields of `Twilio`.
pub mod Once
mod Examples
use mathlib.Core.List.{◌++◌}
use bots_infra_be.Common.{
  concat, ℕ, Bool, true, false, not, ◌&&◌, ◌||◌, String, str_eq, Option, none, some, List, [], ◌∷◌,
  ◌==◌, if◌then◌else◌,
}
use bots_infra_be.Common.Dict.{elem}
use bots_infra_be.Common.Rows.{update_where}
use bots_infra_be.Graph
use bots_infra_be.Language
use bots_infra_be.RateLimit.{RateLimiter, allow}
use bots_infra_be.Tenants.{Tenant, TenantError, Platform, check_budget}
use bots_infra_be.Tenants.Resolve.{
  ResolvedTenant, Outcome, ok, raised, Request, Cache, resolve_tenant,
}
use bots_infra_be.Chat.{Envelope, Database, Process, Now, TurnContext}
use bots_infra_be.Chat.Turn.{open_turn, close_turn}

-- A row of `channel_routes`.
pub record Route : Type 0 where
  pub channel : String
  pub address : String
  pub tenant : ℕ
  pub active : Bool

-- A request, by its form and its header, with its time and the id of a new conversation; `body` is
-- stripped.
pub record Delivery : Type 0 where
  pub to_address : String
  pub from_address : String
  pub sid : String
  pub body : String
  pub params : String
  pub signature : String
  pub now : Now
  pub fresh : ℕ

pub record Twilio : Type 0 where
  pub is_whatsapp : String → Bool
  pub auth_token : ℕ → String
  pub expected_signature : (auth_token params : String) → String
  pub show : ℕ → String
  pub is_ascii : String → Bool
  pub session_of : String → String
  pub clip : String → String

-- The tables, the memory of the process and the message ids that were seen.
pub record State : Type 0 where
  pub routes : List Route
  pub seen : List String
  pub proc : Process
  pub db : Database

-- `silent` is the empty TwiML; `turned` says that a turn was opened, and what is replied; `failed` is an
-- exception that nothing handles.
pub data Reply : Type 0 where
  silent forbidden failed : Reply
  turned : String → Reply

-- `valid_signature`; `none` where `hmac.compare_digest` raises, on a text that is not ASCII.
unfoldable pub valid_signature : Twilio → (auth_token params header : String) → Option Bool
valid_signature tw auth_token params header =
    if str_eq auth_token "" || str_eq header ""
    then some false
    else if tw.is_ascii header
    then some (str_eq (tw.expected_signature auth_token params) header)
    else none

unfoldable pub route_of : String → String → List Route → Option Route
route_of channel address [] = none
route_of channel address (r ∷ rs) =
    let rest = route_of channel address rs in
    if str_eq r.channel channel && str_eq r.address address && r.active then some r else rest

abbrev pub public_key_for : ℕ → List Tenant → String
public_key_for tenant [] = ""
public_key_for tenant (t ∷ ts) = if t.id == tenant then t.public_key else public_key_for tenant ts

module _ (p : Platform) (words : Language.Texts) (tw : Twilio)
    (turn : TurnContext → Envelope → Option (Graph.AgentState × String)) (d : Delivery) where
  abbrev pub channel_of : String
  channel_of = if tw.is_whatsapp d.to_address then "whatsapp" else "sms"

  abbrev pub envelope_for : Tenant → Envelope
  envelope_for t = record {
    public_key = t.public_key;
    session_id = tw.session_of d.from_address;
    text = tw.clip d.body;
    channel = channel_of;
    locale = "en";
    location_key = none;
    consent = true;
  }

  -- The graph, and `close_turn`.
  abbrev pub finish : TurnContext → State → Option (Graph.AgentState × String) → Reply × State
  finish ctx st none = (turned "", st)
  finish ctx st (some (final, reply)) =
      (turned reply, record st { db = close_turn ctx final reply st.db })

  unfoldable pub after_open : Tenant → State → Outcome TurnContext × Database → Reply × State
  after_open t st (raised e, db) = (silent, record st { db = db })
  after_open t st (ok ctx, db) = finish ctx (record st { db = db }) (turn ctx (envelope_for t))

  unfoldable pub after_check : ResolvedTenant → State → Option TenantError × Tenant → Reply × State
  unfolding after_open
  after_check resolved st (some e, t) = (silent, st)
  after_check resolved st (none, t) =
      let db = record st.db { tenants = update_where (λ t. t.id) t.id (λ old. t) st.db.tenants } in
      after_open t st (
        open_turn p words d.now.utc d.fresh (record resolved { tenant = t }) (envelope_for t)
          "whatsapp" db)

  unfoldable pub after_resolve : State → Outcome ResolvedTenant × Cache → Reply × State
  unfolding after_check
  after_resolve st (raised e, cache) =
      (silent, record st { proc = record st.proc { cache = cache } })
  after_resolve st (ok resolved, cache) =
      after_check resolved (record st { proc = record st.proc { cache = cache } })
        (check_budget d.now.utc resolved.tenant)

  -- Once the limits are passed.
  unfoldable pub run_turn : ℕ → State → Reply × State
  unfolding after_resolve
  run_turn tenant st =
      if str_eq d.body ""
      then (silent, st)
      else after_resolve st (
          resolve_tenant p d.now.monotonic
            (record {
              public_key = public_key_for tenant st.db.tenants;
              origin = none;
              channel = channel_of;
              location_key = none;
            })
            st.db.tenants st.db.locations st.proc.cache)

  unfoldable pub after_tenant_limit : ℕ → State → Bool × RateLimiter → Reply × State
  unfolding run_turn
  after_tenant_limit tenant st (false, l) =
      (silent, record st { proc = record st.proc { per_tenant = l } })
  after_tenant_limit tenant st (true, l) =
      run_turn tenant (record st { proc = record st.proc { per_tenant = l } })

  unfoldable pub after_sender_limit : ℕ → State → Bool × RateLimiter → Reply × State
  unfolding after_tenant_limit
  after_sender_limit tenant st (false, l) =
      (silent, record st { proc = record st.proc { per_session = l } })
  after_sender_limit tenant st (true, l) =
      after_tenant_limit tenant (record st { proc = record st.proc { per_session = l } })
        (allow st.proc.per_tenant (tw.show tenant) d.now.milliseconds)

  -- The insert of the message id, refused by the unique constraint on a second delivery.
  unfoldable pub dedupe : ℕ → State → Reply × State
  unfolding after_sender_limit
  dedupe tenant st =
      if elem d.sid st.seen
      then (silent, st)
      else after_sender_limit tenant (record st { seen = st.seen ++ d.sid ∷ [] })
          (allow st.proc.per_session
            (concat "wa:" (concat (tw.show tenant) (concat ":" d.from_address))) d.now.milliseconds)

  unfoldable pub after_signature : ℕ → State → Option Bool → Reply × State
  unfolding dedupe
  after_signature tenant st none = (failed, st)
  after_signature tenant st (some false) = (forbidden, st)
  after_signature tenant st (some true) = dedupe tenant st

  unfoldable pub authorise : State → Option Route → Reply × State
  unfolding after_signature valid_signature
  authorise st none = (silent, st)
  authorise st (some r) =
      after_signature r.tenant st (valid_signature tw (tw.auth_token r.tenant) d.params d.signature)

  -- `twilio_inbound`
  unfoldable pub twilio_inbound : State → Reply × State
  unfolding authorise
  twilio_inbound st =
      if str_eq d.to_address "" || str_eq d.from_address "" || str_eq d.sid ""
      then (silent, st)
      else authorise st (route_of channel_of d.to_address st.routes)
