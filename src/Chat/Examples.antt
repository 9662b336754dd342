-- ===== src/Chat/Examples.antt =====
-- Requests, and the theorems at concrete inputs.
mod Endpoint
use mathlib.Core.List.{◌++◌}
use bots_infra_be.Common.{
  ◌==◌, ◌&&◌, length, ℕ, ◌+◌, ◌*◌, ◌≤◌, ◌≡◌, refl, Bool, true, false, String, none, some, [], ◌∷◌,
  arith, map,
}
use bots_infra_be.Common.Json.{Fields}
use bots_infra_be.Common.Dict
use bots_infra_be.RateLimit.{RateLimiter, allow, token}
use bots_infra_be.Language
use bots_infra_be.Graph
use bots_infra_be.Graph.Run.{initial_state}
use bots_infra_be.Tenants.{
  Tenant, Settings, Platform, check_budget, consent_required, origin_allowed, tenant_by_key,
  find_location,
}
use bots_infra_be.Tenants.Resolve.{Outcome, ResolvedTenant, resolve_tenant}
use bots_infra_be.Config.Cache.{get_cached, put_cached}
use bots_infra_be.Chat.{Conversation, Database, Process, Now, TurnContext}
use bots_infra_be.Chat.Turn.{open_in, open_turn, close_turn, load_history, replay, roll_up}
use bots_infra_be.Chat.Prepare.{Keys, Visit, prepare}
use bots_infra_be.Chat.Spending.{Step, Steps, Steps-WithinBudget}
use bots_infra_be.Chat.History.{close_turn-load_history, heard, heard_count}

abbrev tenant : ℕ → Tenant
tenant used = record {
  id = 7;
  key = "acme";
  name = "Acme";
  public_key = "pk";
  pack_key = "generic";
  config_overrides = Fields.blank;
  allowed_origins = "acme.example" ∷ [];
  region = "us";
  retention_days = 365;
  monthly_token_budget = 1000;
  tokens_used_period = used;
  cost_usd_period = 0;
  period_started_at = some 0;
  status = "active";
  config_version = 1;
}

abbrev settings : Settings
settings = record {
  consent_required = some true;
  consent_version = 2;
  max_turns = 40;
  locales = "en" ∷ [];
}

abbrev platform : Platform
platform = record {
  texts = record {
    netloc = λ s. s;
    lower = λ s. s;
    drop_www = λ s. s;
    after_star = λ s. none;
    dotted = λ s. s;
    ends_with = λ s t. false;
  };
  pack_of = λ k. Fields.blank;
  profile_of = λ c. Fields.blank;
  validate = λ f. settings;
  show = λ n. "1";
}

abbrev words : Language.Texts
words = record {
  strip = λ s. s;
  lower = λ s. s;
  primary = λ s. s;
  find_words = λ s. [];
  has_mark = λ s. false;
  has_accent = λ s. false;
}

abbrev keys : Keys
keys = record { show = λ n. "7" }

abbrev now : Now
now = record { milliseconds = 1000; monotonic = 1; utc = 100 }

abbrev visit : String → Bool → Visit
visit channel consent = record {
  envelope = record {
    public_key = "pk";
    session_id = "session";
    text = "hello";
    channel = channel;
    locale = "en";
    location_key = none;
    consent = consent;
  };
  ip_key = "ip";
  origin = some "elsewhere.example";
}

abbrev limiter : RateLimiter
limiter = record { rate = 12; burst = 6 * token; buckets = []; last_sweep = 0 }

abbrev process : Process
process = record { per_ip = limiter; per_session = limiter; per_tenant = limiter; cache = [] }

abbrev database : ℕ → Database
database used = record {
  tenants = tenant used ∷ [];
  locations = [];
  conversations = [];
  messages = [];
}

-- The error of an answer, or 200.
abbrev status_of : Outcome TurnContext → ℕ
status_of (Outcome.ok ctx) = 200
status_of (Outcome.raised e) = e.status

status : String → Bool → ℕ → ℕ
unfolding prepare open_turn allow resolve_tenant tenant_by_key find_location get_cached put_cached
    origin_allowed check_budget consent_required Dict.get Dict.put
status channel consent used =
    status_of (prepare platform words keys now 3 (visit channel consent) process (database used)).0

-- From an origin that is not listed.
web : status "web" true 0 ≡ 403
unfolding status
web = refl

-- The same request, where the body names another channel.
other_channel : status "sms" true 0 ≡ 200
unfolding status
other_channel = refl

no_consent : status "sms" false 0 ≡ 451
unfolding status
no_consent = refl

spent : status "sms" true 1000 ≡ 429
unfolding status
spent = refl

-- The status that `check_budget` sets before it raises is rolled back.
lost_status :
    map
      (λ t. t.status)
      (prepare platform words keys now 3 (visit "sms" true) process (database 1000)).2.tenants
    ≡ "active" ∷ []
unfolding prepare open_turn allow resolve_tenant tenant_by_key find_location get_cached put_cached
    origin_allowed check_budget consent_required Dict.get Dict.put
lost_status = refl

-- Two turns are opened with one token left, and one of them is closed.
two_turns :
    Steps 2 300
      (record { row = tenant 999; in_flight = 0; used = 999 })
      (record { row = tenant 1299; in_flight = 1; used = 1299 })
unfolding check_budget roll_up
two_turns =
    Steps.after
      (Steps.after (Steps.after Steps.done (Step.opens 100 refl (omega arith)))
        (Step.opens 100 refl (omega arith)))
      (Step.closes (record { input = 200; output = 100 }) (omega arith))

Steps-WithinBudget_example :
    ((tenant 1299).tokens_used_period ≡ 1299) × (1299 + 1 * 300 ≤ 1000 + 2 * 300)
Steps-WithinBudget_example =
    Steps-WithinBudget 2 300 (record { row = tenant 999; in_flight = 0; used = 999 })
      (record { row = tenant 1299; in_flight = 1; used = 1299 }) two_turns (refl, omega arith)

abbrev conversation : Conversation
conversation = record {
  id = 3;
  tenant = 7;
  location = none;
  session_id = "session";
  channel = "web";
  locale = "en";
  status = "open";
  intake = Fields.blank;
  consent = true;
  consent_at = none;
  consent_version = 0;
  ip = "ip";
}

abbrev resolved : ResolvedTenant
resolved = record { tenant = tenant 0; location = none; config = settings }

abbrev final : Graph.AgentState
unfolding initial_state
final = initial_state [] Fields.blank "web" "en" "en" "hello"

close_turn-load_history_example :
    let envelope = (visit "web" true).envelope in
    let (ctx, opened) =
      open_in platform words 100 resolved envelope (database 0) (conversation, conversation ∷ []) in
    let own = (resolved.tenant.id == 7) && (conversation.id == 3) in
    load_history words.strip 7 3 (0 + heard_count own) (close_turn ctx final "hi" opened).messages
    ≡ load_history words.strip 7 3 0 [] ++ heard words.strip own envelope.text "hi"
close_turn-load_history_example =
    close_turn-load_history platform words 100 0 resolved (visit "web" true).envelope (database 0)
      conversation (conversation ∷ []) final "hi" 7 3
