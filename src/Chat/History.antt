-- ===== src/Chat/History.antt =====
-- What the next turn is told of a turn that is closed.
use mathlib.Core.List.{◌++◌, append_assoc}
use bots_infra_be.Common.{
  if◌then◌else◌, ℕ, suc, zero, ◌+◌, ◌-◌, ◌≤◌, ◌≡◌, refl, ap, ◌∙◌, Bool, true, ◌&&◌, String, str_eq,
  List, [], ◌∷◌, ◌==◌, keep, drop, length, length-append, arith, Bool-cases, inl, inr,
}
use bots_infra_be.Graph
use bots_infra_be.Language
use bots_infra_be.Tenants.{Platform}
use bots_infra_be.Tenants.Resolve.{ResolvedTenant}
use bots_infra_be.Chat.{Conversation, Message, Envelope, Database, TurnContext}
use bots_infra_be.Chat.Turn.{
  is_in, last_of, replayed, replay, load_history, user_message, assistant_message, close_turn,
  open_in,
}

keep-append :
    {A : Type 0} (p : A → Bool) (xs ys : List A) → keep p (xs ++ ys) ≡ keep p xs ++ keep p ys
keep-append p [] ys = refl
keep-append p (x ∷ xs) ys = elim (Bool-cases (p x)) [
  | inl kept ↦ rw kept (ap (λ zs. x ∷ zs) (keep-append p xs ys))
  | inr dropped ↦ rw dropped (keep-append p xs ys)
]

drop-append :
    {A : Type 0} (n : ℕ) (xs ys : List A) → n ≤ length xs → drop n (xs ++ ys) ≡ drop n xs ++ ys
drop-append zero xs ys h = refl
drop-append (suc n) [] ys h = absurd (omega (arith, h))
drop-append (suc n) (x ∷ xs) ys h = drop-append n xs ys (omega (arith, h))

replay-append :
    (strip : String → String) (xs ys : List Message)
    → replay strip (xs ++ ys) ≡ replay strip xs ++ replay strip ys
unfolding replay
replay-append strip [] ys = refl
replay-append strip (m ∷ ms) ys = elim (Bool-cases (str_eq (strip m.content) "")) [
  | inl blank ↦ rw blank (replay-append strip ms ys)
  | inr text ↦
      rw text (ap (λ zs. replayed m.role (strip m.content) ∷ zs) (replay-append strip ms ys))
]

-- The rows of a turn: the visitor's, and then the reply.
abbrev pub both_rows : TurnContext → Graph.AgentState → String → String → List Message
both_rows ctx final text reply =
    user_message ctx.tenant_id ctx.conversation_id text ∷ assistant_message ctx final reply ∷ []

last_of-append :
    {A : Type 0} (n : ℕ) (xs ys : List A)
    → length ys ≤ n
    → last_of n (xs ++ ys) ≡ last_of (n - length ys) xs ++ ys
last_of-append n xs ys h =
    ap (λ (k : ℕ). drop k (xs ++ ys)) (omega (arith, length-append xs ys, h))
    ∙ drop-append (length xs - (n - length ys)) xs ys (omega arith)

module _ (strip : String → String) (tenant conversation : ℕ) where
  -- Rows at the end of the table, of which some are of this conversation.
  load_history-append :
      (n : ℕ) (messages rows own : List Message)
      → keep (is_in tenant conversation) rows ≡ own
      → load_history strip tenant conversation (n + length own) (messages ++ rows)
        ≡ load_history strip tenant conversation n messages ++ replay strip own
  unfolding load_history
  load_history-append n messages rows own kept =
      let before = keep (is_in tenant conversation) messages in
      ap (λ ms. replay strip (last_of (n + length own) ms))
        (keep-append (is_in tenant conversation) messages rows ∙ ap (λ rs. before ++ rs) kept)
      ∙ ap (replay strip) (last_of-append (n + length own) before own (omega arith))
      ∙ ap (λ (k : ℕ). replay strip (last_of k before ++ own)) (omega arith)
      ∙ replay-append strip (last_of n before) own

-- The rows of a turn that are of a conversation: both or none.
abbrev pub own_rows : TurnContext → Graph.AgentState → String → String → ℕ → ℕ → List Message
own_rows ctx final text reply tenant conversation =
    if (ctx.tenant_id == tenant) && (ctx.conversation_id == conversation)
    then both_rows ctx final text reply
    else []

keep-both_rows :
    (ctx : TurnContext) (final : Graph.AgentState) (text reply : String) (tenant conversation : ℕ)
    → keep (is_in tenant conversation) (both_rows ctx final text reply)
      ≡ own_rows ctx final text reply tenant conversation
keep-both_rows ctx final text reply tenant conversation =
    elim (Bool-cases ((ctx.tenant_id == tenant) && (ctx.conversation_id == conversation))) [
      | inl its ↦ rw its refl
      | inr other ↦ rw other refl
    ]

rows-load_history :
    (p : Platform) (words : Language.Texts) (now n : ℕ) (resolved : ResolvedTenant) (e : Envelope)
    (db : Database) (c : Conversation) (cs : List Conversation) (final : Graph.AgentState)
    (reply : String) (tenant conversation : ℕ)
    → let (ctx, opened) = open_in p words now resolved e db (c, cs) in
      let own = own_rows ctx final e.text reply tenant conversation in
      load_history words.strip tenant conversation
        (n + length own)
        (close_turn ctx final reply opened).messages
      ≡ load_history words.strip tenant conversation n db.messages ++ replay words.strip own
unfolding open_in close_turn
rows-load_history p words now n resolved e db c cs final reply tenant conversation =
    let (ctx, opened) = open_in p words now resolved e db (c, cs) in
    let own = own_rows ctx final e.text reply tenant conversation in
    ap (load_history words.strip tenant conversation (n + length own)) (
      append_assoc db.messages (user_message ctx.tenant_id ctx.conversation_id e.text ∷ [])
        (assistant_message ctx final reply ∷ []))
    ∙ load_history-append words.strip tenant conversation n db.messages
        (both_rows ctx final e.text reply) own
        (keep-both_rows ctx final e.text reply tenant conversation)

-- A text that is not blank, as a message.
abbrev pub said : (String → String) → (String → Graph.Message) → String → List Graph.Message
said strip message text = if str_eq (strip text) "" then [] else message (strip text) ∷ []

-- What a turn adds to a history: the visitor's text and the reply to its own, and nothing to another.
abbrev pub heard : (String → String) → Bool → (text reply : String) → List Graph.Message
heard strip own text reply =
    if own
    then said strip Graph.Message.human text ++ said strip (λ s. Graph.Message.ai s []) reply
    else []

-- The rows that a turn adds to a history.
abbrev pub heard_count : Bool → ℕ
heard_count own = if own then 2 else 0

replay-both_rows :
    (strip : String → String) (ctx : TurnContext) (final : Graph.AgentState) (text reply : String)
    → replay strip (both_rows ctx final text reply) ≡ heard strip true text reply
unfolding replay
replay-both_rows strip ctx final text reply = elim (Bool-cases (str_eq (strip text) "")) [
  | inl blank ↦ rw blank refl
  | inr spoken ↦ rw spoken refl
]

-- Once a turn is opened and closed, the history of its conversation, which is that of the tenant and of
-- the row that was found, is the one of before followed by the visitor's text and then by the reply,
-- stripped and without the blank ones, the two rows more being allowed for; and the history of any other
-- conversation is the one of before.
pub close_turn-load_history :
    (p : Platform) (words : Language.Texts) (now n : ℕ) (resolved : ResolvedTenant) (e : Envelope)
    (db : Database) (c : Conversation) (cs : List Conversation) (final : Graph.AgentState)
    (reply : String) (tenant conversation : ℕ)
    → let (ctx, opened) = open_in p words now resolved e db (c, cs) in
      let own = (resolved.tenant.id == tenant) && (c.id == conversation) in
      load_history words.strip tenant conversation
        (n + heard_count own)
        (close_turn ctx final reply opened).messages
      ≡ load_history words.strip tenant conversation n db.messages
        ++ heard words.strip own e.text reply
unfolding open_in replay
close_turn-load_history p words now n resolved e db c cs final reply tenant conversation =
    let (ctx, opened) = open_in p words now resolved e db (c, cs) in
    let law = rows-load_history p words now n resolved e db c cs final reply tenant conversation in
    let before = load_history words.strip tenant conversation n db.messages in
    elim (Bool-cases ((resolved.tenant.id == tenant) && (c.id == conversation))) [
      | inl its ↦ rw its (
          (rw its at law)
          ∙ ap (λ ms. before ++ ms) (replay-both_rows words.strip ctx final e.text reply))
      | inr other ↦ rw other (rw other at law)
    ]
