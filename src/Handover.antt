-- ===== src/Handover.antt =====
-- What the assistant hands over to people: the tools of app/tools/lead.py and app/tools/handoff.py, and
-- the queueing of mails and webhooks of app/services/email.py and app/services/webhooks.py.
--
-- `Words` holds the functions of Python on texts and values, and `uuid4().hex`. The configuration is a
-- dict that pydantic has dumped: its lists of recipients are lists. Messages stand in the order of their
-- creation.
pub mod Escalation
pub mod Sent
pub mod Queued
mod Examples
use mathlib.Core.List.{◌++◌, map}
use bots_infra_be.Common.{
  ℕ, ◌+◌, Bool, true, false, not, ◌&&◌, String, concat, str_eq, Option, none, some, List, [], ◌∷◌,
  ◌==◌, keep, take, if◌then◌else◌,
}
use bots_infra_be.Common.First.{first}
use bots_infra_be.Common.Rows.{update_where}
use bots_infra_be.Common.Json.{Value, Fields, Items, get}
use bots_infra_be.Email.{Texts, valid_email, clean_recipients}
use bots_infra_be.Jobs.{Job, Queue, new_job}
use bots_infra_be.Graph.{truthy, ToolEnd}
use bots_infra_be.Rag.{join}
use bots_infra_be.Chat.{Conversation, Message, Role}
use bots_infra_be.Console.{Lead}
use bots_infra_be.Console.Reports.{newest}

pub record Words : Type 0 where
  pub texts : Texts
  pub text_of : Value → String
  pub cut : ℕ → String → String
  pub show_id : ℕ → String

-- The context of a tool, and what is new in a call: the ids of the rows, two random ids, the time.
pub record Context : Type 0 where
  pub tenant : ℕ
  pub location : Option ℕ
  pub conversation : ℕ
  pub config : Fields
  pub intake : Fields
  pub lead_id : ℕ
  pub mail_id : ℕ
  pub hook_id : ℕ
  pub mail_hex : String
  pub hook_hex : String
  pub now : ℕ

pub record Office : Type 0 where
  pub leads : List Lead
  pub conversations : List Conversation
  pub messages : List Message
  pub queue : Queue

abbrev pub object : List (String × Value) → Fields
object [] = Fields.blank
object ((k, v) ∷ d) = Fields.entry k v (object d)

abbrev pub items_of : List String → Items
items_of [] = Items.nothing
items_of (x ∷ xs) = Items.item (Value.str x) (items_of xs)

-- A mail as `enqueue_email` is given it.
pub record Mail : Type 0 where
  pub to : List String
  pub subject : String
  pub text : String
  pub reply_to : String
  pub kind : String

abbrev pub mail_payload : Words → Context → Mail → List String → Fields
mail_payload w ctx m recipients = object (
    ("id", Value.str ctx.mail_hex)
    ∷ ("to", Value.arr (items_of recipients))
    ∷ ("subject", Value.str (w.cut 200 m.subject))
    ∷ ("text", Value.str (w.cut 20000 m.text))
    ∷ ("reply_to", Value.str (valid_email w.texts m.reply_to))
    ∷ ("kind", Value.str m.kind)
    ∷ [])

abbrev pub with_recipients : Words → Context → Mail → Queue → List String → Bool × Queue
with_recipients w ctx m q [] = (false, q)
with_recipients w ctx m q (r ∷ recipients) = (
  true,
  q
      ++ new_job ctx.mail_id (some ctx.tenant) "email" (mail_payload w ctx m (r ∷ recipients))
          ctx.now
        ∷ [],
)

-- `enqueue_email`
unfoldable pub enqueue_email : Words → Context → Mail → Queue → Bool × Queue
unfolding clean_recipients valid_email
enqueue_email w ctx m q = with_recipients w ctx m q (clean_recipients w.texts m.to)

-- `enqueue`
unfoldable pub enqueue : Context → (event : String) → Fields → (url secret : String) → Queue → Queue
enqueue ctx event content url secret q =
    if str_eq url ""
    then q
    else q
      ++ new_job ctx.hook_id (some ctx.tenant) "webhook"
          (object (
            ("url", Value.str url)
            ∷ ("secret", Value.str secret)
            ∷ ("event", Value.str event)
            ∷ ("data", Value.obj content)
            ∷ ("id", Value.str ctx.hook_hex)
            ∷ []))
          ctx.now
        ∷ []

-- `d.get(k) or default`, as a text.
abbrev pub text_or : Words → String → Option Value → String
text_or w default none = default
text_or w default (some v) = if truthy v then w.text_of v else default

-- `d.get(k) or {}`
abbrev pub dict_or : Option Value → Fields
dict_or (some (Value.obj d)) = d
dict_or _ = Fields.blank

-- `d.get(k) or []`, of texts.
abbrev pub texts_in : Words → Items → List String
texts_in w Items.nothing = []
texts_in w (Items.item v items) = w.text_of v ∷ texts_in w items

abbrev pub list_or : Words → Option Value → List String
list_or w (some (Value.arr items)) = texts_in w items
list_or w _ = []

-- `{k: v for k, v in args.items() if k != "fields"}`
abbrev pub without_fields : Fields → Fields
without_fields Fields.blank = Fields.blank
without_fields (Fields.entry k v d) =
    let rest = without_fields d in if str_eq k "fields" then rest else Fields.entry k v rest

-- `args.get("fields") or {…}`
abbrev pub fields_of : Fields → Option Value → Value
fields_of args none = Value.obj (without_fields args)
fields_of args (some v) = if truthy v then v else Value.obj (without_fields args)

-- `[f"  {k}: {v}" for k, v in d.items()]`
abbrev pub field_lines : Words → Fields → List String
field_lines w Fields.blank = []
field_lines w (Fields.entry k v d) =
    concat "  " (concat k (concat ": " (w.text_of v))) ∷ field_lines w d

-- `lead_body`
pub lead_body : Words → String → Fields → String
lead_body w business fields =
    join "\n"
      (concat "New lead from the " (concat business " assistant.") ∷ "" ∷ field_lines w fields)

abbrev pub lead_row : Context → Fields → Lead
lead_row ctx fields = record {
  id = ctx.lead_id;
  tenant = ctx.tenant;
  location = ctx.location;
  conversation = some ctx.conversation;
  fields = fields;
  status = "new";
  created_at = ctx.now;
}

abbrev pub lead_mail : Words → Context → Fields → Mail
lead_mail w ctx fields = record {
  to = list_or w (get ctx.config "lead_email_to");
  subject = concat "New lead - " (text_or w "website" (get ctx.config "business_name"));
  text = lead_body w (text_or w "your" (get ctx.config "business_name")) fields;
  reply_to = text_or w "" (get (dict_or (get ctx.config "escalation")) "reply_to");
  kind = "lead";
}

-- From the fields on; a truthy value that is no dict is stored, and then `lead_body` raises. `fields` of
-- such a lead are left out.
abbrev pub with_fields : Words → Context → Office → Value → ToolEnd × Office
with_fields w ctx office (Value.obj Fields.blank) = (
  ToolEnd.returned
      (object (("ok", Value.flag false) ∷ ("error", Value.str "no fields provided") ∷ [])),
  office,
)
with_fields w ctx office (Value.obj (Fields.entry k v d)) =
    let fields = Fields.entry k v d in
    let q = (enqueue_email w ctx (lead_mail w ctx fields) office.queue).1 in
    let id = Value.str (w.show_id ctx.lead_id) in
    (
      ToolEnd.returned (
          object (("ok", Value.flag true) ∷ ("lead_id", id) ∷ ("captured", Value.obj fields) ∷ [])),
      record office {
        leads = office.leads ++ lead_row ctx fields ∷ [];
        queue =
            enqueue ctx "lead.captured"
              (object (
                ("lead_id", id)
                ∷ ("conversation_id", Value.str (w.show_id ctx.conversation))
                ∷ ("fields", Value.obj fields)
                ∷ []))
              (text_or w "" (get ctx.config "lead_webhook_url"))
              (text_or w "" (get ctx.config "lead_webhook_secret")) q;
      },
    )
with_fields w ctx office _ = (
  ToolEnd.raised "AttributeError",
  record office { leads = office.leads ++ lead_row ctx Fields.blank ∷ [] },
)

-- `_real` of the lead tool.
unfoldable pub capture_lead : Words → Context → Fields → Office → ToolEnd × Office
unfolding enqueue_email enqueue
capture_lead w ctx args office = with_fields w ctx office (fields_of args (get args "fields"))
