-- ===== src/Handover/Sent.antt =====
-- What the tools send: the jobs of a mail and of a webhook, by what their payloads hold.
use mathlib.Core.List.{◌++◌}
use bots_infra_be.Common.{
  ◌≡◌, refl, Bool, true, false, ◌⊎◌, inl, inr, String, str_eq, concat, some, List, [], ◌∷◌,
  if◌then◌else◌, Bool-cases,
}
use bots_infra_be.Common.Json.{Value, Fields, get}
use bots_infra_be.Email.{clean_recipients}
use bots_infra_be.Jobs.{Job, Queue, Status}
use bots_infra_be.Chat.{Message}
use bots_infra_be.Rag.{join}
use bots_infra_be.Handover.{
  Words, Context, Mail, enqueue_email, with_recipients, enqueue, dict_or, text_or, list_or,
  items_of, object, field_lines,
}
use bots_infra_be.Handover.Escalation.{value_or_blank, transcript_of, if_text, details}

-- A new job of the tenant, that waits for its first attempt.
abbrev pub IsQueued : Context → String → Job → Type 0
IsQueued ctx kind j =
    (j.tenant ≡ some ctx.tenant)
    × (j.kind ≡ kind)
    × (j.status ≡ Status.pending)
    × (j.attempts ≡ 0)
    × (j.run_after ≡ ctx.now)

-- A queue with such a job more when there is someone to send it to, and else the same.
abbrev pub Sends : (Job → Type 0) → Bool → Queue → Queue → Type 0
Sends IsSuch someone q q' =
    ((someone ≡ false) × (q' ≡ q))
    ⊎ ((someone ≡ true) × ((j : Job) × (q' ≡ q ++ j ∷ []) × IsSuch j))

abbrev pub has_any : List String → Bool
has_any [] = false
has_any (x ∷ xs) = true

abbrev pub has_url : String → Bool
has_url url = if str_eq url "" then false else true

module _ (w : Words) (ctx : Context) where
  -- The job of a mail: its recipients, its subject, its text and its kind stand in the payload.
  abbrev pub IsMail : List String → (subject text kind : String) → Job → Type 0
  IsMail recipients subject text kind j =
      IsQueued ctx "email" j
      × (get j.payload "to" ≡ some (Value.arr (items_of recipients)))
      × (get j.payload "subject" ≡ some (Value.str (w.cut 200 subject)))
      × (get j.payload "text" ≡ some (Value.str (w.cut 20000 text)))
      × (get j.payload "kind" ≡ some (Value.str kind))

  -- The job of a webhook: its address, its secret, its event and its data stand in the payload.
  abbrev pub IsHook : (url secret event : String) → Fields → Job → Type 0
  IsHook url secret event content j =
      IsQueued ctx "webhook" j
      × (get j.payload "url" ≡ some (Value.str url))
      × (get j.payload "secret" ≡ some (Value.str secret))
      × (get j.payload "event" ≡ some (Value.str event))
      × (get j.payload "data" ≡ some (Value.obj content))

  pub enqueue_email-Sends :
      (m : Mail) (q : Queue)
      → Sends
          (IsMail (clean_recipients w.texts m.to) m.subject m.text m.kind)
          (has_any (clean_recipients w.texts m.to))
          q
          (enqueue_email w ctx m q).1
  unfolding enqueue_email get
  enqueue_email-Sends m q = by_recipients (clean_recipients w.texts m.to)
    where
      by_recipients :
          (rs : List String)
          → Sends
              (IsMail rs m.subject m.text m.kind)
              (has_any rs)
              q
              (with_recipients w ctx m q rs).1
      by_recipients [] = inl (refl, refl)
      by_recipients (r ∷ rs) =
          inr (refl, (_, refl, ((refl, refl, refl, refl, refl), refl, refl, refl, refl)))

  pub enqueue-Sends :
      (event : String) (content : Fields) (url secret : String) (q : Queue)
      → Sends
          (IsHook url secret event content)
          (has_url url)
          q
          (enqueue ctx event content url secret q)
  unfolding enqueue get
  enqueue-Sends event content url secret q = elim (Bool-cases (str_eq url "")) [
    | inl blank ↦ rw blank (inl (refl, refl))
    | inr set ↦
        rw set (inr (refl, (_, refl, ((refl, refl, refl, refl, refl), refl, refl, refl, refl))))
  ]

  -- What follows a lead: a mail to the tenant's valid recipients, with a line for each field, and then
  -- a webhook to the tenant's address, with the lead, the conversation and the fields.
  abbrev pub LeadSent : Fields → Queue → Queue → Type 0
  LeadSent fields q q' =
      let to = clean_recipients w.texts (list_or w (get ctx.config "lead_email_to")) in
      let url = text_or w "" (get ctx.config "lead_webhook_url") in
      let business = text_or w "your" (get ctx.config "business_name") in
      (between : Queue) × Sends
        (IsMail to (concat "New lead - " (text_or w "website" (get ctx.config "business_name")))
          (join "\n" (
            concat "New lead from the " (concat business " assistant.")
            ∷ ""
            ∷ field_lines w fields))
          "lead")
        (has_any to) q between
      × Sends
          (IsHook url (text_or w "" (get ctx.config "lead_webhook_secret")) "lead.captured" (
            object (
              ("lead_id", Value.str (w.show_id ctx.lead_id))
              ∷ ("conversation_id", Value.str (w.show_id ctx.conversation))
              ∷ ("fields", Value.obj fields)
              ∷ [])))
          (has_url url) between q'

  -- What follows a handover: a mail to the valid recipients of the tenant's escalations, with the
  -- reason, the summary, what was collected and the transcript, and then a webhook to their address.
  abbrev pub HandoverSent : Fields → List Message → Queue → Queue → Type 0
  HandoverSent args messages q q' =
      let escalation = dict_or (get ctx.config "escalation") in
      let to = clean_recipients w.texts (list_or w (get escalation "email_to")) in
      let url = text_or w "" (get escalation "webhook_url") in
      let business = text_or w "your" (get ctx.config "business_name") in
      let reason = value_or_blank (get args "reason") in
      let summary = value_or_blank (get args "summary") in
      let transcript = transcript_of w ctx messages in
      (between : Queue) × Sends
        (IsMail to
          (concat "Assistant handover - "
            (text_or w "website visitor" (get ctx.config "business_name")))
          (join "\n" (
            concat "A visitor on the " (concat business " assistant needs a person.")
              ∷ ""
              ∷ concat "Reason: "
                  (if str_eq (w.text_of reason) "" then "not given" else w.text_of reason)
              ∷ if_text (w.text_of summary) ("" ∷ concat "Summary: " (w.text_of summary) ∷ [])
            ++ details w ctx.intake
            ++ if_text transcript ("" ∷ "Conversation:" ∷ transcript ∷ [])))
          "escalation")
        (has_any to) q between
      × Sends
          (IsHook url (text_or w "" (get escalation "webhook_secret")) "conversation.escalated" (
            object (
              ("conversation_id", Value.str (w.show_id ctx.conversation))
              ∷ ("reason", reason)
              ∷ ("summary", summary)
              ∷ ("intake", Value.obj ctx.intake)
              ∷ [])))
          (has_url url) between q'
