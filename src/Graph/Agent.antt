-- ===== src/Graph/Agent.antt =====
-- The answering node and the execution of its tools: app/graph/nodes/agent.py, and `schemas_for` and
-- `execute` of app/tools/registry.py.
use mathlib.Core.List.{◌++◌}
use bots_infra_be.Common.{
  ◌+◌, Bool, true, false, ◌||◌, ◌&&◌, String, str_eq, concat, Option, none, some, List, [], ◌∷◌,
  keep, if◌then◌else◌,
}
use bots_infra_be.Common.Json.{Value, Fields, get, put}
use bots_infra_be.Common.Dict
use bots_infra_be.Common.Dict.{elem}
use bots_infra_be.Rag.{format_context}
use bots_infra_be.Graph.{World, AgentConfig, AgentState, Message, ToolCall, ToolEnd, holds}
use bots_infra_be.Graph.Guards.{last}

-- `context_block`
abbrev pub context_block : String → String → String
context_block context question =
    concat "BUSINESS INFORMATION\n" (concat context (concat "\n\nCUSTOMER MESSAGE\n" question))

abbrev pub is_human : Message → Bool
is_human (Message.human s) = true
is_human _ = false

abbrev pub has_human : List Message → Bool
has_human [] = false
has_human (m ∷ ms) = is_human m || has_human ms

abbrev pub with_context : String → Message → Message
with_context context (Message.human s) = Message.human (context_block context s)
with_context context m = m

-- The loop of `_build_messages` from the end: the context goes into the latest human turn alone.
unfoldable pub fold_context : String → List Message → List Message
fold_context context [] = []
fold_context context (m ∷ ms) =
    let rest = fold_context context ms in
    if has_human ms then m ∷ rest else with_context context m ∷ ms

-- The reminder of what was collected, if anything was.
abbrev pub collected : World → Fields → List Message → List Message
collected w Fields.blank history = history
collected w (Fields.entry k v d) history =
    Message.system (
      concat "Already collected: "
        (concat (w.python.dumps (Fields.entry k v d)) ". Do not ask for these again."))
    ∷ history

-- `_build_messages`
unfoldable pub build_messages : World → AgentConfig → AgentState → List Message
unfolding fold_context
build_messages w cfg s =
    Message.system (w.system_prefix cfg s.channel s.locale)
    ∷ collected w s.intake (fold_context (format_context w.python.show s.retrieved) s.messages)

abbrev pub is_some {ℓ} : {A : Type ℓ} → Option A → Bool
is_some none = false
is_some (some x) = true

-- `schemas_for`: the enabled tools that are registered.
unfoldable pub schemas_for : World → List String → List String
schemas_for w enabled = keep (λ name. is_some (Dict.get w.registry name)) enabled

-- The node `agent`: `none` where the model raises, which ends the turn.
unfoldable pub agent : World → AgentConfig → AgentState → Option AgentState
agent w cfg s =
    if s.blocked
    then some (record s {
      messages = s.messages ++ Message.ai cfg.refusal_message [] ∷ [];
      trace = s.trace ++ "agent:refused" ∷ [];
      iterations = s.iterations + 1;
    })
    else elim (w.answer (if s.escalate then "escalate" else "answer") (schemas_for w cfg.tools)
        (build_messages w cfg s)) [
          | none ↦ none
          | some response ↦ some (record s {
            messages = s.messages ++ Message.ai response.content response.tool_calls ∷ [];
            usage = record {
              input = s.usage.input + response.usage.input;
              output = s.usage.output + response.usage.output;
            };
            trace = s.trace ++ "agent" ∷ [];
            iterations = s.iterations + 1;
          })
        ]

-- `{"ok": False, "error": …}`
abbrev pub failure : String → Fields
failure error =
    Fields.entry "ok" (Value.flag false) (Fields.entry "error" (Value.str error) Fields.blank)

-- The end of an executor: its result, beside the name of the tool, whose executor was called.
abbrev pub executed_call : String → ToolEnd → Fields × List String
executed_call name (ToolEnd.returned result) = (result, name ∷ [])
executed_call name (ToolEnd.raised error) = (failure error, name ∷ [])

-- `ToolRegistry.execute`: a failure of a tool is a result. Beside the result stand the names of the tools
-- whose executor, real or mock, was called.
unfoldable pub execute : World → ToolCall → Fields × List String
execute w call = elim (Dict.get w.registry call.name) [
  | none ↦ (failure (concat "unknown tool: " call.name), [])
  | some spec ↦
      executed_call call.name
        (if w.use_mock then spec.mock_executor call.args else spec.executor call.args)
]

-- `dict.update`
abbrev pub update : Fields → Fields → Fields
update d Fields.blank = d
update d (Fields.entry k v e) = update (put d k v) e

-- `result.get("captured") or {}`
abbrev pub captured : Option Value → Fields
captured (some (Value.obj d)) = d
captured _ = Fields.blank

-- One call of the loop in `tools`.
unfoldable pub run_call : World → AgentConfig → ToolCall → AgentState → AgentState
unfolding execute
run_call w cfg call s =
    let (result, called) =
      if elem call.name cfg.tools
      then execute w call
      else (failure (concat "tool '" (concat call.name "' is not enabled for this tenant")), []) in
    let ok = holds (get result "ok") in
    record s {
      messages = s.messages ++ Message.tool result call.id call.name ∷ [];
      intake =
          if str_eq call.name "capture_lead" && ok
          then update s.intake (captured (get result "captured"))
          else s.intake;
      escalate = (str_eq call.name "escalate_to_human" && ok) || s.escalate;
      executed = s.executed ++ called;
    }

unfoldable pub run_calls : World → AgentConfig → List ToolCall → AgentState → AgentState
unfolding run_call
run_calls w cfg [] s = s
run_calls w cfg (call ∷ calls) s = run_calls w cfg calls (run_call w cfg call s)

-- The calls that the last message asks for.
abbrev pub calls_of : Option Message → List ToolCall
calls_of (some (Message.ai content calls)) = calls
calls_of _ = []

-- The node `tools`.
unfoldable pub tools : World → AgentConfig → AgentState → AgentState
unfolding run_calls
tools w cfg s =
    let done = run_calls w cfg (calls_of (last s.messages)) s in
    record done { trace = done.trace ++ "tools" ∷ [] }
