-- ===== src/Chat/Turn.antt =====
-- `get_or_create_conversation`, `load_history`, `open_turn` and `close_turn`.
use mathlib.Core.List.{◌++◌}
use bots_infra_be.Common.{
  ℕ, ◌+◌, ◌-◌, Bool, true, false, not, ◌&&◌, String, str_eq, Option, none, some, List, [], ◌∷◌,
  ◌==◌, keep, length, drop, if◌then◌else◌,
}
use bots_infra_be.Common.Json.{Fields}
use bots_infra_be.Common.Rows.{update_where}
use bots_infra_be.Graph
use bots_infra_be.Language
use bots_infra_be.Tenants.{Tenant, Location, Settings, Platform, consent_required}
use bots_infra_be.Tenants.Resolve.{ResolvedTenant, Outcome, ok, raised}
use bots_infra_be.Chat.{Conversation, Role, Message, Envelope, Database, TurnContext}

abbrev pub is_session : ℕ → String → Conversation → Bool
is_session tenant session c = (c.tenant == tenant) && str_eq c.session_id session

unfoldable pub find_conversation : ℕ → String → List Conversation → Option Conversation
find_conversation tenant session [] = none
find_conversation tenant session (c ∷ cs) =
    if is_session tenant session c then some c else find_conversation tenant session cs

abbrev pub location_id : Option Location → Option ℕ
location_id none = none
location_id (some l) = some l.id

abbrev pub new_conversation : ℕ → ResolvedTenant → Envelope → String → Conversation
new_conversation fresh resolved e ip = record {
  id = fresh;
  tenant = resolved.tenant.id;
  location = location_id resolved.location;
  session_id = e.session_id;
  channel = e.channel;
  locale = e.locale;
  status = "open";
  intake = Fields.blank;
  consent = e.consent;
  consent_at = none;
  consent_version = 0;
  ip = ip;
}

-- `get_or_create_conversation`
unfoldable pub get_or_create_conversation :
    ℕ → ResolvedTenant → Envelope → String → List Conversation → Conversation × List Conversation
get_or_create_conversation fresh resolved e ip cs =
    elim (find_conversation resolved.tenant.id e.session_id cs) [
      | some c ↦ (c, cs)
      | none ↦
          (new_conversation fresh resolved e ip, cs ++ new_conversation fresh resolved e ip ∷ [])
    ]

abbrev pub is_in : ℕ → ℕ → Message → Bool
is_in tenant conversation m = (m.tenant == tenant) && (m.conversation == conversation)

-- The last `n`.
abbrev pub last_of : {A : Type 0} → ℕ → List A → List A
last_of n xs = drop (length xs - n) xs

abbrev pub replayed : Role → String → Graph.Message
replayed Role.user content = Graph.Message.human content
replayed Role.assistant content = Graph.Message.ai content []

-- The rows that are not blank, as messages.
unfoldable pub replay : (String → String) → List Message → List Graph.Message
replay strip [] = []
replay strip (m ∷ ms) =
    let rest = replay strip ms in
    if str_eq (strip m.content) "" then rest else replayed m.role (strip m.content) ∷ rest

-- `load_history`
unfoldable pub load_history :
    (String → String) → (tenant conversation max_turns : ℕ) → List Message → List Graph.Message
unfolding replay
load_history strip tenant conversation max_turns messages =
    replay strip (last_of max_turns (keep (is_in tenant conversation) messages))

-- The stamp of a first acceptance.
unfoldable pub stamp : ℕ → Settings → Bool → Conversation → Conversation
stamp now cfg consent c = elim c.consent_at [
  | some at ↦ c
  | none ↦
      if consent
      then record c { consent = true; consent_at = some now; consent_version = cfg.consent_version }
      else c
]

abbrev pub user_message : ℕ → ℕ → String → Message
user_message tenant conversation text = record {
  tenant = tenant;
  conversation = conversation;
  role = Role.user;
  content = text;
  trace = [];
  blocked = false;
  block_reason = "";
  tokens_in = 0;
  tokens_out = 0;
}

-- `(locales or ["en"])[0]`
abbrev pub first_locale : List String → String
first_locale [] = "en"
first_locale (l ∷ ls) = l

module _ (platform : Platform) (words : Language.Texts) where
  abbrev pub context_of : ResolvedTenant → Envelope → Conversation → List Message → TurnContext
  context_of resolved e c messages = record {
    tenant_id = resolved.tenant.id;
    location_id = location_id resolved.location;
    conversation_id = c.id;
    history = load_history words.strip resolved.tenant.id c.id resolved.config.max_turns messages;
    intake = c.intake;
    locale =
        Language.resolve words e.locale e.text resolved.config.locales
          (first_locale resolved.config.locales);
  }

  -- Once the conversation is there.
  unfoldable pub open_in :
      ℕ
      → ResolvedTenant
      → Envelope
      → Database
      → Conversation × List Conversation
      → TurnContext × Database
  unfolding stamp
  open_in now resolved e db (c, conversations) = (
    context_of resolved e c db.messages,
    record db {
      conversations =
          update_where (λ c. c.id) c.id (stamp now resolved.config e.consent) conversations;
      messages = db.messages ++ user_message resolved.tenant.id c.id e.text ∷ [];
    },
  )

  -- `open_turn`
  unfoldable pub open_turn :
      ℕ → ℕ → ResolvedTenant → Envelope → String → Database → Outcome TurnContext × Database
  unfolding open_in
  open_turn now fresh resolved e ip db =
      let (ctx, db') =
        open_in now resolved e db
          (get_or_create_conversation fresh resolved e ip db.conversations) in
      if consent_required platform.texts resolved.config resolved.tenant && not e.consent
      then (raised (record { message = "consent required"; status = 451 }), db)
      else (ok ctx, db')

-- `tenant.tokens_used_period += …`: the row that the session has read, written back. Two closings that
-- overlap may lose one of the sums; a closing here is not overlapped by another.
unfoldable pub roll_up : Graph.Usage → Tenant → Tenant
roll_up usage t = record t {
  tokens_used_period = t.tokens_used_period + (usage.input + usage.output);
}

-- `final.get("intake") or ctx.intake`, and the status.
unfoldable pub settle : TurnContext → Graph.AgentState → Conversation → Conversation
settle ctx final c = record c {
  intake = elim final.intake [
    | Fields.blank ↦ ctx.intake
    | Fields.entry k v d ↦ Fields.entry k v d
  ];
  status = if final.escalate then "escalated" else c.status;
}

abbrev pub assistant_message : TurnContext → Graph.AgentState → String → Message
assistant_message ctx final reply = record {
  tenant = ctx.tenant_id;
  conversation = ctx.conversation_id;
  role = Role.assistant;
  content = reply;
  trace = final.trace;
  blocked = final.blocked;
  block_reason = final.block_reason;
  tokens_in = final.usage.input;
  tokens_out = final.usage.output;
}

-- `close_turn`, but for the payload.
unfoldable pub close_turn : TurnContext → Graph.AgentState → String → Database → Database
unfolding roll_up settle
close_turn ctx final reply db = record db {
  tenants = update_where (λ t. t.id) ctx.tenant_id (roll_up final.usage) db.tenants;
  conversations = update_where (λ c. c.id) ctx.conversation_id (settle ctx final) db.conversations;
  messages = db.messages ++ assistant_message ctx final reply ∷ [];
}
