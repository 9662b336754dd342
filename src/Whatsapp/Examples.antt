-- ===== src/Whatsapp/Examples.antt =====
-- A message that is delivered twice, and the theorems at concrete inputs.
use bots_infra_be.Common.{
  ◌*◌, ◌≡◌, refl, true, false, String, str_eq, if◌then◌else◌, Option, none, some, List, [], ◌∷◌,
  All,
}
use bots_infra_be.Common.Json.{Fields}
use bots_infra_be.Common.Dict.{elem}
use bots_infra_be.Common.Dict
use bots_infra_be.Common.Distinct.{Distinct}
use bots_infra_be.Common.Rows.{update_where}
use bots_infra_be.Graph
use bots_infra_be.Language
use bots_infra_be.RateLimit.{RateLimiter, allow, token}
use bots_infra_be.Tenants.{
  Tenant, Platform, check_budget, consent_required, origin_allowed, tenant_by_key, find_location,
}
use bots_infra_be.Tenants.Resolve.{resolve_tenant}
use bots_infra_be.Config.Cache.{get_cached, put_cached}
use bots_infra_be.Chat.{Envelope, TurnContext}
use bots_infra_be.Chat.Turn.{open_turn}
use bots_infra_be.Whatsapp.{
  Delivery, Twilio, State, Reply, twilio_inbound, valid_signature, route_of,
}
use bots_infra_be.Whatsapp.Once.{answered, answered-Distinct, IsHandled, twilio_inbound-IsHandled}

abbrev tenant : Tenant
tenant = record {
  id = 7;
  key = "acme";
  name = "Acme";
  public_key = "pk";
  pack_key = "generic";
  config_overrides = Fields.blank;
  allowed_origins = [];
  region = "us";
  retention_days = 365;
  monthly_token_budget = 1000;
  tokens_used_period = 0;
  cost_usd_period = 0;
  period_started_at = some 0;
  status = "active";
  config_version = 1;
}

abbrev platform : Platform
platform = record {
  texts = record {
    netloc = λ s. s;
    lower = λ s. s;
    drop_www = λ s. s;
    after_star = λ s. none;
    dotted = λ s. s;
    ends_with = λ s t. false;
  };
  pack_of = λ k. Fields.blank;
  profile_of = λ c. Fields.blank;
  validate = λ f. record {
    consent_required = none;
    consent_version = 1;
    max_turns = 30;
    locales = "en" ∷ [];
  };
  show = λ n. "1";
}

abbrev words : Language.Texts
words = record {
  strip = λ s. s;
  lower = λ s. s;
  primary = λ s. s;
  find_words = λ s. [];
  has_mark = λ s. false;
  has_accent = λ s. false;
}

abbrev twilio : Twilio
twilio = record {
  is_whatsapp = λ s. true;
  auth_token = λ t. "secret";
  expected_signature = λ token params. token;
  show = λ t. "7";
  is_ascii = λ s. if str_eq s "é" then false else true;
  session_of = λ from. from;
  clip = λ s. s;
}

abbrev turn : TurnContext → Envelope → Option (Graph.AgentState × String)
turn ctx e = none

abbrev delivery : String → String → Delivery
delivery sid signature = record {
  to_address = "whatsapp:1";
  from_address = "whatsapp:2";
  sid = sid;
  body = "hello";
  params = "";
  signature = signature;
  now = record { milliseconds = 1000; monotonic = 1; utc = 100 };
  fresh = 3;
}

abbrev limiter : RateLimiter
limiter = record { rate = 12; burst = 6 * token; buckets = []; last_sweep = 0 }

abbrev state : State
state = record {
  routes = record { channel = "whatsapp"; address = "whatsapp:1"; tenant = 7; active = true } ∷ [];
  seen = [];
  proc = record { per_ip = limiter; per_session = limiter; per_tenant = limiter; cache = [] };
  db = record { tenants = tenant ∷ []; locations = []; conversations = []; messages = [] };
}

-- A header that is not ASCII raises, and nothing is recorded.
unreadable :
    (twilio_inbound platform words twilio turn (delivery "m1" "é") state) ≡ (Reply.failed, state)
unfolding twilio_inbound valid_signature route_of
unreadable = refl

replies : List Delivery → List String
unfolding twilio_inbound valid_signature route_of allow resolve_tenant tenant_by_key find_location
    get_cached put_cached origin_allowed check_budget open_turn consent_required Dict.get Dict.put
replies ds = answered platform words twilio turn ds state

-- The second delivery of "m1" is silent, and a wrong signature is refused.
twice :
    replies (
      delivery "m1" "secret"
      ∷ delivery "m1" "secret"
      ∷ delivery "m2" "wrong"
      ∷ delivery "m3" "secret"
      ∷ [])
    ≡ "m1" ∷ "m3" ∷ []
unfolding replies update_where
twice = refl

answered-Distinct_example :
    let ds = delivery "m1" "secret" ∷ delivery "m1" "secret" ∷ [] in
    Distinct (answered platform words twilio turn ds state)
    × All (λ sid. elem sid (answered platform words twilio turn ds state) ≡ false) []
answered-Distinct_example =
    answered-Distinct platform words twilio turn
      (delivery "m1" "secret" ∷ delivery "m1" "secret" ∷ []) state

twilio_inbound-IsHandled_example :
    IsHandled platform words twilio turn
      (delivery "m1" "secret")
      state
      (twilio_inbound platform words twilio turn (delivery "m1" "secret") state)
twilio_inbound-IsHandled_example =
    twilio_inbound-IsHandled platform words twilio turn (delivery "m1" "secret") state
