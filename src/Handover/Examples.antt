-- ===== src/Handover/Examples.antt =====
-- The two tools at concrete inputs.
use bots_infra_be.Common.{ℕ, ◌≡◌, refl, true, false, String, str_eq, none, [], ◌∷◌, map}
use bots_infra_be.Common.First.{first}
use bots_infra_be.Common.Rows.{update_where}
use bots_infra_be.Common.Json.{Value, Fields, Items, get}
use bots_infra_be.Email.{valid_email, clean_recipients}
use bots_infra_be.Chat.{Conversation, Message, Role}
use bots_infra_be.Handover.{
  Words, Context, Office, enqueue_email, enqueue, fields_of, lead_body, capture_lead,
}
use bots_infra_be.Handover.Escalation.{mark_escalated, transcript_of, escalation_body, escalate}
use bots_infra_be.Handover.Queued.{IsCaptured, IsEscalated, tools-IsHandedOver}

abbrev words : Words
words = record {
  texts = record { strip = λ s. s; lower = λ s. s; matches_email = λ s. str_eq s "ops@x.io" };
  text_of = λ v. elim v [ Value.str s ↦ s | _ ↦ "value" ];
  cut = λ n s. s;
  show_id = λ n. "id";
}

abbrev one_field : String → Value → Fields
one_field k v = Fields.entry k v Fields.blank

-- A mailbox for leads and no webhook; a webhook for escalations and no mailbox.
abbrev config : Fields
config =
    Fields.entry "lead_email_to" (Value.arr (Items.item (Value.str "ops@x.io") Items.nothing)) (
      one_field "escalation"
        (Value.obj (one_field "webhook_url" (Value.str "https://hooks.example.org"))))

abbrev context : ℕ → Context
context tenant = record {
  tenant = tenant;
  location = none;
  conversation = 5;
  config = config;
  intake = Fields.blank;
  lead_id = 1;
  mail_id = 2;
  hook_id = 3;
  mail_hex = "ab";
  hook_hex = "cd";
  now = 100;
}

abbrev conversation : Conversation
conversation = record {
  id = 5;
  tenant = 7;
  location = none;
  session_id = "s";
  channel = "web";
  locale = "en";
  status = "open";
  intake = Fields.blank;
  consent = true;
  consent_at = none;
  consent_version = 0;
  ip = "";
}

abbrev message : Role → String → Message
message role content = record {
  tenant = 7;
  conversation = 5;
  role = role;
  content = content;
  trace = [];
  blocked = false;
  block_reason = "";
  tokens_in = 0;
  tokens_out = 0;
}

abbrev office : Office
office = record {
  leads = [];
  conversations = conversation ∷ [];
  messages = message Role.user "Hi" ∷ message Role.assistant "Hello" ∷ [];
  queue = [];
}

-- The fields may stand in the arguments themselves.
abbrev flat : Fields
flat = one_field "name" (Value.str "Ann")

captured : map (λ l. l.fields) (capture_lead words (context 7) flat office).1.leads ≡ flat ∷ []
unfolding capture_lead get
captured = refl

no_fields : (capture_lead words (context 7) Fields.blank office).1 ≡ office
unfolding capture_lead get
no_fields = refl

-- One mail, and no webhook.
mailed : map (λ j. j.kind) (capture_lead words (context 7) flat office).1.queue ≡ "email" ∷ []
unfolding capture_lead get enqueue_email enqueue clean_recipients valid_email
mailed = refl

body : lead_body words "Acme" flat ≡ "New lead from the Acme assistant.\n\n  name: Ann"
unfolding lead_body
body = refl

escalated :
    map (λ c. c.status) (escalate words (context 7) Fields.blank office).1.conversations
    ≡ "escalated" ∷ []
unfolding escalate mark_escalated first update_where
escalated = refl

foreign : (escalate words (context 8) Fields.blank office).1.conversations ≡ conversation ∷ []
unfolding escalate mark_escalated first
foreign = refl

hooked : map (λ j. j.kind) (escalate words (context 7) Fields.blank office).1.queue ≡ "webhook" ∷ []
unfolding escalate get enqueue_email enqueue clean_recipients
hooked = refl

transcript : transcript_of words (context 7) office.messages ≡ "Visitor: Hi\nAssistant: Hello"
transcript = refl

handover_body :
    escalation_body words "Acme" "" "" Fields.blank "Visitor: Hi"
    ≡ "A visitor on the Acme assistant needs a person.\n\nReason: not given\n\nConversation:\nVisitor: Hi"
unfolding escalation_body
handover_body = refl

tools-IsHandedOver_example :
    IsCaptured words
      (context 7)
      office
      (fields_of flat (get flat "fields"))
      (capture_lead words (context 7) flat office)
    × IsEscalated words (context 7) flat office (escalate words (context 7) flat office).1
tools-IsHandedOver_example = tools-IsHandedOver words (context 7) flat office (tt, tt)
