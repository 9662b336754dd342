-- ===== src/Chat/Endpoint.antt =====
-- The endpoints `chat` and `bootstrap` of app/api/chat.py. The configuration that the graph reads is an
-- argument, `config_of`; a failing commit of `close_turn`, the log, the latency and the texts of the
-- configuration in the payload of `bootstrap` are left out.
use bots_infra_be.Common.{ℕ, Bool, true, false, String, Option, none, some, List}
use bots_infra_be.Common.Json.{Fields}
use bots_infra_be.Language
use bots_infra_be.RateLimit.{RateLimiter, allow}
use bots_infra_be.Tenants.{Platform, consent_required}
use bots_infra_be.Tenants.Resolve.{ResolvedTenant, Outcome, ok, raised, Cache, resolve_tenant}
use bots_infra_be.Graph
use bots_infra_be.Graph.Run.{Ending, run, initial_state, extract_reply}
use bots_infra_be.Chat.{Database, Process, Now, TurnContext}
use bots_infra_be.Chat.Turn.{close_turn}
use bots_infra_be.Chat.Prepare.{Keys, Visit, Answer, too_many, prepare}

-- The payload of `close_turn`.
pub record Payload : Type 0 where
  pub conversation_id : ℕ
  pub reply : String
  pub trace : List String
  pub blocked : Bool
  pub escalated : Bool
  pub intake : Fields
  pub usage : Graph.Usage

pub data Response : Type 0 where
  error : (message : String) (status : ℕ) → Response
  answered : Payload → Response
  friendly_error : Response

abbrev pub payload_of : TurnContext → Graph.AgentState → String → Payload
payload_of ctx final reply = record {
  conversation_id = ctx.conversation_id;
  reply = reply;
  trace = final.trace;
  blocked = final.blocked;
  escalated = final.escalate;
  intake = final.intake;
  usage = final.usage;
}

module _ (p : Platform) (words : Language.Texts) (keys : Keys) (now : Now) (fresh : ℕ) (v : Visit)
    (w : Graph.World) (config_of : TurnContext → Graph.AgentConfig) where
  abbrev pub begun : TurnContext → Graph.AgentState
  begun ctx =
      initial_state ctx.history ctx.intake v.envelope.channel ctx.locale v.envelope.locale
        v.envelope.text

  -- From the end of the graph on; where a node raises, the visitor's message stays.
  abbrev pub after_run : TurnContext → Process → Database → Ending → Response × Process × Database
  after_run ctx proc db (Ending.finished final) =
      let reply = extract_reply w final.messages in
      (answered (payload_of ctx final reply), proc, close_turn ctx final reply db)
  after_run ctx proc db _ = (friendly_error, proc, db)

  abbrev pub after_prepare : Answer → Response × Process × Database
  after_prepare (raised e, proc, db) = (error e.message e.status, proc, db)
  after_prepare (ok ctx, proc, db) = after_run ctx proc db (run w (config_of ctx) (begun ctx))

  -- `chat`
  unfoldable pub chat : Process → Database → Response × Process × Database
  unfolding prepare run initial_state extract_reply close_turn
  chat proc db = after_prepare (prepare p words keys now fresh v proc db)

-- The payload of `bootstrap`: whether consent is required, with the version of its notice.
pub record Bootstrap : Type 0 where
  pub consent_required : Bool
  pub consent_version : Option ℕ

abbrev pub version_if : Bool → ℕ → Option ℕ
version_if true version = some version
version_if false version = none

module _ (p : Platform) (now : Now) where
  abbrev pub after_resolved : Process → Outcome ResolvedTenant × Cache → Outcome Bootstrap × Process
  after_resolved proc (raised e, cache) = (raised e, record proc { cache = cache })
  after_resolved proc (ok resolved, cache) =
      let needs = consent_required p.texts resolved.config resolved.tenant in
      (
        ok (record {
          consent_required = needs;
          consent_version = version_if needs resolved.config.consent_version;
        }),
        record proc { cache = cache },
      )

  abbrev pub after_limit :
      (public_key : String) (location_key origin : Option String)
      → Process
      → Database
      → Bool × RateLimiter
      → Outcome Bootstrap × Process
  after_limit public_key location_key origin proc db (false, l) =
      (too_many, record proc { per_ip = l })
  after_limit public_key location_key origin proc db (true, l) =
      after_resolved (record proc { per_ip = l })
        (resolve_tenant p now.monotonic
          (record {
            public_key = public_key;
            origin = origin;
            channel = "web";
            location_key = location_key;
          })
          db.tenants db.locations proc.cache)

  -- `bootstrap`
  unfoldable pub bootstrap :
      (ip_key public_key : String) (location_key origin : Option String)
      → Process
      → Database
      → Outcome Bootstrap × Process
  unfolding allow resolve_tenant consent_required
  bootstrap ip_key public_key location_key origin proc db =
      after_limit public_key location_key origin proc db (allow proc.per_ip ip_key now.milliseconds)
