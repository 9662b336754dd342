-- ===== src/Graph/Guards.antt =====
-- `_classify`, `_parse`, `guard_in` and `guard_out` of app/graph/nodes/guards.py, and the node
-- `retrieve` of app/graph/nodes/retrieve.py.
use mathlib.Core.List.{◌++◌, map}
use bots_infra_be.Common.{
  ℕ, zero, suc, ◌+◌, true, false, ◌||◌, String, str_eq, concat, Option, none, some, List, [], ◌∷◌,
  if◌then◌else◌,
}
use bots_infra_be.Common.Json.{Value, Fields, get}
use bots_infra_be.Rag.{join}
use bots_infra_be.Graph.{Python, World, AgentConfig, AgentState, Message, holds}

-- The last human message.
abbrev pub last_human : List Message → Option String
last_human [] = none
last_human (Message.human s ∷ ms) = elim (last_human ms) [ none ↦ some s | some t ↦ some t ]
last_human (m ∷ ms) = last_human ms

-- `messages[-1] if messages else None`
abbrev pub last {ℓ} : {A : Type ℓ} → List A → Option A
last [] = none
last (m ∷ ms) = elim (last ms) [ none ↦ some m | some x ↦ some x ]

-- `raw.split("```")[1]`, of a text that begins with a fence and so has two parts.
abbrev second : List String → String
second (x ∷ y ∷ rest) = y
second _ = ""

-- The text between the fences, if the answer is fenced.
unfoldable pub unfence : Python → String → String
unfence py raw =
    let text = py.strip raw in
    if py.is_fenced text then py.strip (py.remove_json (second (py.split_fences text))) else text

-- `json.loads(raw[start : end + 1])`, with `{}` for a `JSONDecodeError`.
abbrev pub loaded : Option Fields → Fields
loaded none = Fields.blank
loaded (some d) = d

-- `_parse`
unfoldable pub parse : Python → String → Fields
unfolding unfence
parse py raw =
    let text = unfence py raw in
    elim (py.find_open text) [
      | none ↦ Fields.blank
      | some start ↦ elim (py.find_close text) [
        | none ↦ Fields.blank
        | some end ↦ loaded (py.loads (py.slice text start (end + 1)))
      ]
    ]

-- A verdict, if it is not the empty object.
abbrev pub verdict_of : Fields → Option Fields
verdict_of Fields.blank = none
verdict_of (Fields.entry k v d) = some (Fields.entry k v d)

-- `_classify`, with the attempts that are left: `none` where no attempt gave a verdict.
unfoldable pub classify : World → ℕ → String → String → Option Fields
classify w zero system text = none
classify w (suc left) system text = elim (w.guard (suc left) system text) [
  | none ↦ classify w left system text
  | some raw ↦ elim (verdict_of (parse w.python raw)) [
    | none ↦ classify w left system text
    | some verdict ↦ some verdict
  ]
]

-- `"\n".join(f"- {s}" for s in xs) or default`
abbrev pub bullets : List String → String → String
bullets [] default = default
bullets (x ∷ xs) default = join "\n" (map (concat "- ") (x ∷ xs))

abbrev pub in_prompt : World → AgentConfig → String
in_prompt w cfg =
    w.fill_in (bullets cfg.scope "- general business questions")
      (bullets cfg.prohibitions "- (none)")

abbrev pub out_prompt : World → AgentConfig → String
out_prompt w cfg = w.fill_out (bullets cfg.prohibitions "")

-- `str(verdict.get(k, default))`
abbrev pub reason_of : World → Option Value → String → String
reason_of w none default = default
reason_of w (some v) default = w.python.text_of v

-- `guard_in`, on the verdict that it gets.
unfoldable pub judge_in : World → Option Fields → AgentState → AgentState
judge_in w none s = record s { blocked = false; trace = s.trace ++ "guard_in:unverified" ∷ [] }
judge_in w (some verdict) s =
    if holds (get verdict "asks_prohibited") || holds (get verdict "injection")
    then record s {
      blocked = true;
      block_reason = reason_of w (get verdict "reason") "out of scope";
      escalate = holds (get verdict "asks_prohibited");
      trace = s.trace ++ "guard_in" ∷ [];
    }
    else record s { blocked = false; trace = s.trace ++ "guard_in" ∷ [] }

unfoldable pub guard_in : World → AgentConfig → AgentState → AgentState
unfolding judge_in
guard_in w cfg s = elim (last_human s.messages) [
  | none ↦ record s { blocked = false; trace = s.trace ++ "guard_in" ∷ [] }
  | some latest ↦ judge_in w (classify w 2 (in_prompt w cfg) latest) s
]

-- The node `retrieve`: `none` where the search raises.
unfoldable pub retrieve : World → AgentState → Option AgentState
retrieve w s = elim (last_human s.messages) [
  | none ↦ some (record s { retrieved = []; trace = s.trace ++ "retrieve" ∷ [] })
  | some query ↦ elim (w.search query) [
    | none ↦ none
    | some hits ↦ some (record s { retrieved = hits; trace = s.trace ++ "retrieve" ∷ [] })
  ]
]

-- The draft that `guard_out` reads: an answer whose text is not blank.
abbrev pub draft_of : World → Option Message → Option String
draft_of w (some (Message.ai content calls)) =
    if str_eq (w.python.strip content) "" then none else some content
draft_of w _ = none

unfoldable pub judge_out : World → AgentConfig → Option Fields → AgentState → AgentState
judge_out w cfg none s = record s { trace = s.trace ++ "guard_out:unverified" ∷ [] }
judge_out w cfg (some verdict) s =
    if holds (get verdict "violates")
    then record s {
      messages = s.messages ++ Message.ai cfg.refusal_message [] ∷ [];
      blocked = true;
      block_reason = reason_of w (get verdict "which") "prohibited content";
      trace = s.trace ++ "guard_out:replaced" ∷ [];
    }
    else record s { trace = s.trace ++ "guard_out" ∷ [] }

-- `guard_out`, where there are prohibitions.
unfoldable pub check_draft : World → AgentConfig → AgentState → AgentState
unfolding judge_out
check_draft w cfg s = elim (draft_of w (last s.messages)) [
  | none ↦ record s { trace = s.trace ++ "guard_out" ∷ [] }
  | some draft ↦ judge_out w cfg (classify w 2 (out_prompt w cfg) draft) s
]

unfoldable pub guard_out : World → AgentConfig → AgentState → AgentState
unfolding check_draft
guard_out w cfg s = elim cfg.prohibitions [
  | [] ↦ record s { trace = s.trace ++ "guard_out" ∷ [] }
  | rule ∷ rules ↦ check_draft w cfg s
]
