-- ===== src/Chat/Answered.antt =====
-- A request to the chat endpoint, from the limits to the reply.
use mathlib.Core.List.{◌++◌}
use bots_infra_be.Common.{ℕ, ◌≡◌, ◌⊎◌, inl, inr, refl, String, none, List, [], ◌∷◌, Option-cases}
use bots_infra_be.Language
use bots_infra_be.Tenants.{Platform}
use bots_infra_be.Tenants.Resolve.{ok, raised}
use bots_infra_be.Graph
use bots_infra_be.Graph.Guards.{last, draft_of}
use bots_infra_be.Graph.Run.{Ending, run, extract_reply}
use bots_infra_be.Graph.Reply.{IsCleared, IsClearedAtEnd, run-IsCleared}
use bots_infra_be.Chat.{Database, Process, Now, TurnContext}
use bots_infra_be.Chat.Turn.{assistant_message, close_turn}
use bots_infra_be.Chat.Prepare.{Keys, Visit, Answer}
use bots_infra_be.Chat.Admitted.{IsAdmitted, IsAnswered, prepare-IsAnswered}
use bots_infra_be.Chat.Endpoint.{
  Response, error, answered, friendly_error, payload_of, begun, after_run, after_prepare, chat,
}

module _ (p : Platform) (words : Language.Texts) (keys : Keys) (now : Now) (fresh : ℕ) (v : Visit)
    (w : Graph.World) (config_of : TurnContext → Graph.AgentConfig) (proc : Process)
    (db : Database) where
  -- The request was admitted, and one message written for it.
  abbrev pub Admits : TurnContext → Database → Type 0
  Admits ctx db' = IsAdmitted p words keys now fresh v proc db ctx db'

  -- A reply is cleared by the guard, or the turn ends in no answer that is not blank.
  abbrev pub IsSafe : TurnContext → Graph.AgentState → String → Type 0
  IsSafe ctx final reply =
      (draft_of w (last final.messages) ≡ none) ⊎ IsCleared w (config_of ctx) final reply

  -- How a request ends.
  abbrev pub IsResponse : Response × Process × Database → Type 0
  IsResponse (error message status, proc', db') =
      (db'.conversations ≡ db.conversations) × (db'.messages ≡ db.messages)
  IsResponse (friendly_error, proc', db') = (ctx : TurnContext) × Admits ctx db'
  IsResponse (answered payload, proc', db') =
      (ctx : TurnContext) × (opened : Database) × (final : Graph.AgentState) × Admits ctx opened
      × (run w (config_of ctx) (begun p words keys now fresh v w config_of ctx)
          ≡ Ending.finished final)
      × (payload ≡ payload_of ctx final payload.reply)
      × (db'.messages ≡ opened.messages ++ assistant_message ctx final payload.reply ∷ [])
      × IsSafe ctx final payload.reply

  cleared :
      (ctx : TurnContext) (final : Graph.AgentState)
      → IsClearedAtEnd w (config_of ctx) (Ending.finished final)
      → IsSafe ctx final (extract_reply w final.messages)
  cleared ctx final h = elim (Option-cases (draft_of w (last final.messages))) [
    | inl blank ↦ inl blank
    | inr (reply, draft) ↦ let (same, clear) = h reply draft in rw same (inr clear)
  ]

  after_run-IsResponse :
      (ctx : TurnContext) (proc' : Process) (opened : Database)
      → Admits ctx opened
      → (end : Ending)
      → run w (config_of ctx) (begun p words keys now fresh v w config_of ctx) ≡ end
      → IsClearedAtEnd w (config_of ctx) end
      → IsResponse (after_run p words keys now fresh v w config_of ctx proc' opened end)
  unfolding close_turn
  after_run-IsResponse ctx proc' opened admitted (Ending.finished final) e h =
      (ctx, opened, final, admitted, e, refl, refl, cleared ctx final h)
  after_run-IsResponse ctx proc' opened admitted Ending.raised e h = (ctx, admitted)
  after_run-IsResponse ctx proc' opened admitted Ending.stuck e h = (ctx, admitted)

  after_prepare-IsResponse :
      ((ctx : TurnContext)
        → IsClearedAtEnd w
            (config_of ctx)
            (run w (config_of ctx) (begun p words keys now fresh v w config_of ctx)))
      → (answer : Answer) → IsAnswered p words keys now fresh v proc db answer
      → IsResponse (after_prepare p words keys now fresh v w config_of answer)
  after_prepare-IsResponse clears (raised e, proc', db') h = h
  after_prepare-IsResponse clears (ok ctx, proc', db') h =
      after_run-IsResponse ctx proc' db' h _ refl (clears ctx)

  -- Every tenant has a prohibition. A request that is answered by an error writes no conversation and no
  -- message. One whose graph raises was admitted, and leaves the visitor's message as the last one. One
  -- that is answered was admitted, ran through the graph to its end, and stores exactly the reply that
  -- it sends, behind the visitor's message; and that reply is the refusal, or the guard found no
  -- violation in this very text, or the trace says that the guard gave no verdict, unless the turn ends
  -- without an answer that is not blank.
  pub chat-IsResponse :
      (prohibition : TurnContext → String) (others : TurnContext → List String)
      → ((ctx : TurnContext) → (config_of ctx).prohibitions ≡ prohibition ctx ∷ others ctx)
      → IsResponse (chat p words keys now fresh v w config_of proc db)
  unfolding chat
  chat-IsResponse prohibition others h =
      after_prepare-IsResponse
        (λ ctx.
          run-IsCleared w (config_of ctx) (begun p words keys now fresh v w config_of ctx)
            (prohibition ctx) (others ctx) (h ctx))
        _ (prepare-IsAnswered p words keys now fresh v proc db)
