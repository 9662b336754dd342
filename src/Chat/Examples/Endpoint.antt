-- ===== src/Chat/Examples/Endpoint.antt =====
-- Requests to the endpoints at concrete inputs.
use bots_infra_be.Common.{
  ◌≡◌, refl, Bool, true, false, String, str_eq, none, some, [], ◌∷◌, if◌then◌else◌,
}
use bots_infra_be.Common.Json.{Fields, Value}
use bots_infra_be.Common.Json
use bots_infra_be.Common.Dict
use bots_infra_be.RateLimit.{allow}
use bots_infra_be.Graph
use bots_infra_be.Graph.Guards.{classify, parse, guard_in, guard_out, retrieve}
use bots_infra_be.Graph.Agent.{agent}
use bots_infra_be.Graph.Run.{run, loop}
use bots_infra_be.Tenants.{
  consent_required, origin_allowed, check_budget, tenant_by_key, find_location,
}
use bots_infra_be.Tenants.Resolve.{Outcome, resolve_tenant}
use bots_infra_be.Config.Cache.{get_cached, put_cached}
use bots_infra_be.Chat.{TurnContext}
use bots_infra_be.Chat.Turn.{open_turn, load_history}
use bots_infra_be.Chat.Prepare.{prepare}
use bots_infra_be.Chat.Endpoint.{Response, chat, bootstrap}
use bots_infra_be.Chat.Answered.{IsResponse, chat-IsResponse}
use bots_infra_be.Chat.Examples.{platform, words, keys, now, visit, process, database}

abbrev verdict : Bool → Fields
verdict violates = Fields.entry "violates" (Value.flag violates) Fields.blank

abbrev python : Graph.Python
python = record {
  strip = λ s. s;
  is_fenced = λ s. false;
  split_fences = λ s. s ∷ [];
  remove_json = λ s. s;
  find_open = λ s. some 0;
  find_close = λ s. some 4;
  slice = λ s a b. s;
  loads = λ s. some (verdict (str_eq s "{bad}"));
  dumps = λ d. "{}";
  show = λ n. "1";
  text_of = λ v. "text";
}

-- The model answers with one text, which the guard refuses if it promises a rate.
abbrev world : String → Graph.World
world draft = record {
  python = python;
  fill_in = λ scope prohibitions. "in";
  fill_out = λ prohibitions. "out";
  system_prefix = λ cfg channel locale. "prefix";
  guard = λ left system text. if str_eq text "3% guaranteed" then some "{bad}" else some "{ok}";
  search = λ query. if str_eq draft "" then none else some [];
  answer = λ role offered prompt.
      some (record { content = draft; tool_calls = []; usage = record { input = 10; output = 5 } });
  registry = [];
  use_mock = false;
  max_graph_iterations = 6;
}

abbrev config_of : TurnContext → Graph.AgentConfig
config_of ctx = record {
  scope = [];
  prohibitions = "promise a rate" ∷ [];
  refusal_message = "I cannot help with that.";
  tools = [];
}

abbrev reply_in : Response → String
reply_in (Response.answered payload) = payload.reply
reply_in Response.friendly_error = "friendly"
reply_in (Response.error message status) = message

reply_to : String → String → String
unfolding chat prepare open_turn load_history allow resolve_tenant tenant_by_key find_location
    get_cached put_cached origin_allowed check_budget consent_required Dict.get Dict.put run loop
    agent guard_in guard_out retrieve classify parse Json.get
reply_to channel draft =
    reply_in
      (chat platform words keys now 3 (visit channel true) (world draft) config_of process
        (database 0)).0

open_hours : reply_to "sms" "We open at nine." ≡ "We open at nine."
unfolding reply_to
open_hours = refl

refused : reply_to "sms" "3% guaranteed" ≡ "I cannot help with that."
unfolding reply_to
refused = refl

-- The search raises.
friendly : reply_to "sms" "" ≡ "friendly"
unfolding reply_to
friendly = refl

not_listed : reply_to "web" "We open at nine." ≡ "origin not allowed"
unfolding reply_to
not_listed = refl

gate :
    (bootstrap platform now "ip" "pk" none (some "acme.example") process (database 0)).0
    ≡ Outcome.ok (record { consent_required = true; consent_version = some 2 })
unfolding bootstrap allow resolve_tenant tenant_by_key find_location get_cached put_cached
    origin_allowed consent_required Dict.get Dict.put
gate = refl

chat-IsResponse_example :
    IsResponse platform words keys now 3
      (visit "sms" true)
      (world "3% guaranteed")
      config_of
      process
      (database 0)
      (chat platform words keys now 3
        (visit "sms" true)
        (world "3% guaranteed")
        config_of
        process
        (database 0))
chat-IsResponse_example =
    chat-IsResponse platform words keys now 3 (visit "sms" true) (world "3% guaranteed") config_of
      process (database 0) (λ ctx. "promise a rate") (λ ctx. []) (λ ctx. refl)
