-- ===== src/Console/Reports.antt =====
-- The handlers that report: the conversations, the leads, the usage, and the key for the demo page.
use bots_infra_be.Common.{
  ℕ, ◌+◌, ◌*◌, ◌&&◌, ◌||◌, String, str_eq, Option, List, [], ◌∷◌, ◌++◌, map, ◌==◌, length, take,
  keep, max, if◌then◌else◌,
}
use bots_infra_be.Tenants.{Tenant}
use bots_infra_be.Chat.{Conversation, Message}
use bots_infra_be.Console.{
  Lead, State, Setup, Answer, authorized, tenant_with_key, tenant_or_404, session_scope,
}

-- `ORDER BY created_at DESC`
abbrev pub newest : {A : Type 0} → List A → List A
newest [] = []
newest (x ∷ xs) = newest xs ++ x ∷ []

-- The messages of a conversation: the second statement, scoped as the first is.
abbrev pub with_messages : ℕ → List Message → Conversation → Conversation × List Message
with_messages tenant messages c =
    (c, keep (λ m. (m.tenant == tenant) && (m.conversation == c.id)) messages)

abbrev pub conversation_rows :
    ℕ → Tenant → State → Answer (List (Conversation × List Message)) × State
conversation_rows limit t s =
    let rows = keep (λ c. c.tenant == t.id) s.database.chat.conversations in
    (Answer.ok (map (with_messages t.id s.database.chat.messages) (take limit (newest rows))), s)

-- `conversations`
unfoldable pub conversations :
    Setup → Option String → String → ℕ → State → Answer (List (Conversation × List Message)) × State
conversations setup key tenant_key limit s =
    authorized setup key
      (session_scope (λ s.
        tenant_or_404 (tenant_with_key tenant_key s.database.chat.tenants) (conversation_rows limit)
          s))
      s

abbrev pub lead_rows : Tenant → State → Answer (List Lead) × State
lead_rows t s = (Answer.ok (newest (keep (λ l. l.tenant == t.id) s.database.leads)), s)

-- `leads`
unfoldable pub leads : Setup → Option String → String → State → Answer (List Lead) × State
leads setup key tenant_key s =
    authorized setup key
      (session_scope
        (λ s. tenant_or_404 (tenant_with_key tenant_key s.database.chat.tenants) lead_rows s))
      s

-- The cost is in millionths of a dollar, and the share of the budget is a fraction.
pub record Usage : Type 0 where
  pub conversations : ℕ
  pub messages : ℕ
  pub tokens_in : ℕ
  pub tokens_out : ℕ
  pub cost_millionths : ℕ
  pub budget_tokens : ℕ
  pub budget_used_pct : ℕ × ℕ

-- `sum`
abbrev pub sum_of : {A : Type 0} → (A → ℕ) → List A → ℕ
sum_of f [] = 0
sum_of f (x ∷ xs) = f x + sum_of f xs

abbrev pub usage_row : Tenant → State → Answer Usage × State
usage_row t s =
    let rows = keep (λ m. m.tenant == t.id) s.database.chat.messages in
    let tokens_in = sum_of (λ m. m.tokens_in) rows in
    let tokens_out = sum_of (λ m. m.tokens_out) rows in
    (
      Answer.ok (record {
        conversations = length (keep (λ c. c.tenant == t.id) s.database.chat.conversations);
        messages = length rows;
        tokens_in = tokens_in;
        tokens_out = tokens_out;
        cost_millionths = tokens_in + tokens_out * 5;
        budget_tokens = t.monthly_token_budget;
        budget_used_pct = (100 * t.tokens_used_period, max t.monthly_token_budget 1);
      }),
      s,
    )

-- `usage`, but for the cost of one conversation, which is a quotient of two of its numbers.
unfoldable pub usage : Setup → Option String → String → State → Answer Usage × State
usage setup key tenant_key s =
    authorized setup key
      (session_scope
        (λ s. tenant_or_404 (tenant_with_key tenant_key s.database.chat.tenants) usage_row s))
      s

abbrev pub oldest_tenant : List Tenant → State → Answer Tenant × State
oldest_tenant [] s = (Answer.http 404 "no tenants seeded", s)
oldest_tenant (t ∷ _) s = (Answer.ok t, s)

-- `demo_key`; the answer shows the name and the two keys of the row.
unfoldable pub demo_key : Setup → State → Answer Tenant × State
demo_key setup s =
    if str_eq setup.env "dev" || str_eq setup.env "test"
    then session_scope (λ s. oldest_tenant s.database.chat.tenants s) s
    else (Answer.http 404 "not available", s)
