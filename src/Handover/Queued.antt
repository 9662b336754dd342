-- ===== src/Handover/Queued.antt =====
-- What the two tools leave behind.
use mathlib.Core.List.{◌++◌}
use bots_infra_be.Common.{
  ◌≡◌, refl, Bool, true, false, not, ◌⊎◌, inl, inr, Option, none, some, List, [], ◌∷◌, ◌==◌, keep,
  Bool-cases,
}
use bots_infra_be.Common.First.{first, Single, first-others, first-update_self, keep-update_other}
use bots_infra_be.Common.Json.{Value, Fields, get}
use bots_infra_be.Graph.{ToolEnd}
use bots_infra_be.Chat.{Conversation}
use bots_infra_be.Console.{Lead}
use bots_infra_be.Handover.{
  Words, Context, Office, fields_of, with_fields, capture_lead, lead_mail, lead_body,
}
use bots_infra_be.Handover.Escalation.{
  mark_escalated, after_conversation, set_escalated, escalation_mail, escalation_body, escalate,
}
use bots_infra_be.Handover.Sent.{LeadSent, HandoverSent, enqueue_email-Sends, enqueue-Sends}

module _ (w : Words) (ctx : Context) where
  -- A new lead of the tenant and of the conversation, with the fields.
  abbrev pub IsLead : Fields → Lead → Type 0
  IsLead fields l =
      (l.tenant ≡ ctx.tenant)
      × (l.location ≡ ctx.location)
      × (l.conversation ≡ some ctx.conversation)
      × (l.fields ≡ fields)
      × (l.status ≡ "new")

  -- How `capture_lead` ends, for the fields that it is given.
  abbrev pub IsCaptured : Office → Value → ToolEnd × Office → Type 0
  IsCaptured office (Value.obj Fields.blank) (end, office') = office' ≡ office
  IsCaptured office (Value.obj (Fields.entry k v d)) (end, office') =
      ((l : Lead) × (office'.leads ≡ office.leads ++ l ∷ []) × IsLead (Fields.entry k v d) l)
      × (office'.conversations ≡ office.conversations)
      × (office'.messages ≡ office.messages)
      × LeadSent w ctx (Fields.entry k v d) office.queue office'.queue
  IsCaptured office _ (end, office') =
      (end ≡ ToolEnd.raised "AttributeError") × (office'.queue ≡ office.queue)

  with_fields-IsCaptured :
      (office : Office) (v : Value) → IsCaptured office v (with_fields w ctx office v)
  unfolding lead_body
  with_fields-IsCaptured office (Value.obj Fields.blank) = refl
  with_fields-IsCaptured office (Value.obj (Fields.entry k v d)) = (
    (_, refl, (refl, refl, refl, refl, refl)),
    refl,
    refl,
    (
      _,
      enqueue_email-Sends w ctx (lead_mail w ctx (Fields.entry k v d)) office.queue,
      enqueue-Sends w ctx "lead.captured" _ _ _ _,
    ),
  )
  with_fields-IsCaptured office Value.null = (refl, refl)
  with_fields-IsCaptured office (Value.flag b) = (refl, refl)
  with_fields-IsCaptured office (Value.num n) = (refl, refl)
  with_fields-IsCaptured office (Value.str s) = (refl, refl)
  with_fields-IsCaptured office (Value.arr items) = (refl, refl)

  abbrev pub is_target : Conversation → Bool
  is_target c = c.id == ctx.conversation

  abbrev pub is_foreign : Conversation → Bool
  is_foreign c = not (c.tenant == ctx.tenant)

  -- The conversation of the context is escalated, if it is the tenant's, and no other tenant's changes.
  abbrev pub IsMarked : List Conversation → List Conversation → Type 0
  IsMarked cs cs' =
      (keep is_foreign cs' ≡ keep is_foreign cs)
      × (((c : Conversation) × (first is_target cs ≡ some c)
            × ((c.tenant == ctx.tenant) ≡ true)
            × (first is_target cs' ≡ some (record c { status = "escalated" })))
          ⊎ ((cs' ≡ cs)
              × ((first is_target cs ≡ none)
                  ⊎ ((c : Conversation) × (first is_target cs ≡ some c)
                      × ((c.tenant == ctx.tenant) ≡ false)))))

  after_conversation-IsMarked :
      (cs : List Conversation)
      → Single (λ x y. y.id == x.id) cs
      → (o : Option Conversation) → first is_target cs ≡ o
      → IsMarked cs (after_conversation ctx.tenant cs o)
  after_conversation-IsMarked cs d none h = (refl, inr (refl, inl h))
  after_conversation-IsMarked cs d (some c) h = elim (Bool-cases (c.tenant == ctx.tenant)) [
    | inl own ↦ rw own (
      keep-update_other (λ x. x.id) set_escalated is_foreign c.id cs (λ x. refl)
          (first-others (λ x. x.id) is_target cs c d h is_foreign (rw own refl)),
      inl (c, h, own, first-update_self (λ x. x.id) set_escalated is_target cs c (λ x. refl) h),
    )
    | inr foreign ↦ rw foreign (refl, inr (refl, inr (c, h, foreign)))
  ]

  -- How `escalate` ends.
  abbrev pub IsEscalated : Fields → Office → Office → Type 0
  IsEscalated args office office' =
      (office'.leads ≡ office.leads)
      × (office'.messages ≡ office.messages)
      × IsMarked office.conversations office'.conversations
      × HandoverSent w ctx args office.messages office.queue office'.queue

  -- Conversations have distinct ids. The lead tool stores nothing if it is given no fields; else one new
  -- lead of the tenant and of the conversation with the fields, a mail to the valid recipients of the
  -- tenant's leads, if there is one, with a line for each field, and a webhook to the tenant's address,
  -- if there is one, with the lead, the conversation and the fields, and nothing more; fields that are no
  -- dict raise, and queue nothing. The handover escalates the conversation of the context, if it is the
  -- tenant's, changes no conversation of another tenant, and queues in the same way a mail with the
  -- reason, the summary, what was collected and the transcript, and a webhook with the first three. Each
  -- job is the tenant's, pending, and due at once, and its payload holds these values.
  pub tools-IsHandedOver :
      (args : Fields) (office : Office)
      → Single (λ x y. y.id == x.id) office.conversations
      → IsCaptured office (fields_of args (get args "fields")) (capture_lead w ctx args office)
        × IsEscalated args office (escalate w ctx args office).1
  unfolding capture_lead escalate mark_escalated escalation_body
  tools-IsHandedOver args office d = (
    with_fields-IsCaptured office (fields_of args (get args "fields")),
    (
      refl,
      refl,
      after_conversation-IsMarked office.conversations d (first is_target office.conversations)
          refl,
      (
        _,
        enqueue_email-Sends w ctx (escalation_mail w ctx args office.messages) office.queue,
        enqueue-Sends w ctx "conversation.escalated" _ _ _ _,
      ),
    ),
  )
