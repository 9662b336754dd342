-- ===== src/Handover/Escalation.antt =====
-- The handover of a conversation to a person: app/tools/handoff.py, and its mail.
use mathlib.Core.List.{◌++◌, map}
use bots_infra_be.Common.{
  ℕ, true, ◌&&◌, String, concat, str_eq, Option, none, some, List, [], ◌∷◌, ◌==◌, keep, take,
  if◌then◌else◌,
}
use bots_infra_be.Common.First.{first}
use bots_infra_be.Common.Rows.{update_where}
use bots_infra_be.Common.Json.{Value, Fields, get}
use bots_infra_be.Graph.{ToolEnd}
use bots_infra_be.Rag.{join}
use bots_infra_be.Chat.{Conversation, Message, Role}
use bots_infra_be.Console.Reports.{newest}
use bots_infra_be.Handover.{
  Words, Context, Office, Mail, object, enqueue_email, enqueue, text_or, dict_or, list_or,
  field_lines,
}

-- The first session: `session.get`, and the status of a conversation of the tenant.
abbrev pub set_escalated : Conversation → Conversation
set_escalated c = record c { status = "escalated" }

abbrev pub after_conversation : ℕ → List Conversation → Option Conversation → List Conversation
after_conversation tenant conversations none = conversations
after_conversation tenant conversations (some c) =
    if c.tenant == tenant
    then update_where (λ d. d.id) c.id set_escalated conversations
    else conversations

unfoldable pub mark_escalated : ℕ → ℕ → List Conversation → List Conversation
unfolding first update_where
mark_escalated tenant id conversations =
    after_conversation tenant conversations (first (λ c. c.id == id) conversations)

abbrev pub speaker : Role → String
speaker Role.user = "Visitor"
speaker Role.assistant = "Assistant"

abbrev pub transcript_line : Words → Message → String
transcript_line w m = concat (speaker m.role) (concat ": " (w.cut 600 m.content))

-- The last twenty messages of the conversation, in their order.
abbrev pub last_messages : Context → List Message → List Message
last_messages ctx messages = newest (
    take 20 (
      newest
        (keep (λ m. (m.tenant == ctx.tenant) && (m.conversation == ctx.conversation)) messages)))

abbrev pub transcript_of : Words → Context → List Message → String
transcript_of w ctx messages = join "\n" (map (transcript_line w) (last_messages ctx messages))

abbrev pub if_text : String → List String → List String
if_text s lines = if str_eq s "" then [] else lines

abbrev pub details : Words → Fields → List String
details w Fields.blank = []
details w (Fields.entry k v d) = "" ∷ "Details collected:" ∷ field_lines w (Fields.entry k v d)

-- `escalation_body`
unfoldable pub escalation_body :
    Words → (business reason summary : String) → Fields → (transcript : String) → String
escalation_body w business reason summary intake transcript = join "\n" (
    concat "A visitor on the " (concat business " assistant needs a person.")
      ∷ ""
      ∷ concat "Reason: " (if str_eq reason "" then "not given" else reason)
      ∷ if_text summary ("" ∷ concat "Summary: " summary ∷ [])
    ++ details w intake
    ++ if_text transcript ("" ∷ "Conversation:" ∷ transcript ∷ []))

-- `args.get(k, "")`
abbrev pub value_or_blank : Option Value → Value
value_or_blank none = Value.str ""
value_or_blank (some v) = v

abbrev pub escalation_mail : Words → Context → Fields → List Message → Mail
escalation_mail w ctx args messages =
    let escalation = dict_or (get ctx.config "escalation") in
    record {
      to = list_or w (get escalation "email_to");
      subject =
          concat "Assistant handover - "
            (text_or w "website visitor" (get ctx.config "business_name"));
      text =
          escalation_body w (text_or w "your" (get ctx.config "business_name"))
            (w.text_of (value_or_blank (get args "reason")))
            (w.text_of (value_or_blank (get args "summary"))) ctx.intake
            (transcript_of w ctx messages);
      reply_to = text_or w "" (get escalation "reply_to");
      kind = "escalation";
    }

-- `_real` of the escalation tool.
unfoldable pub escalate : Words → Context → Fields → Office → ToolEnd × Office
unfolding mark_escalated enqueue_email enqueue
escalate w ctx args office =
    let escalation = dict_or (get ctx.config "escalation") in
    let reason = value_or_blank (get args "reason") in
    let q = (enqueue_email w ctx (escalation_mail w ctx args office.messages) office.queue).1 in
    (
      ToolEnd.returned (
          object
            (("ok", Value.flag true) ∷ ("escalated", Value.flag true) ∷ ("reason", reason) ∷ [])),
      record office {
        conversations = mark_escalated ctx.tenant ctx.conversation office.conversations;
        queue =
            enqueue ctx "conversation.escalated"
              (object (
                ("conversation_id", Value.str (w.show_id ctx.conversation))
                ∷ ("reason", reason)
                ∷ ("summary", value_or_blank (get args "summary"))
                ∷ ("intake", Value.obj ctx.intake)
                ∷ []))
              (text_or w "" (get escalation "webhook_url"))
              (text_or w "" (get escalation "webhook_secret")) q;
      },
    )
