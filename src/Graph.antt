-- ===== src/Graph.antt =====
-- The agent graph: app/graph and the registry of app/tools/registry.py. The state here; the nodes in
-- Guards and Agent; the edges, and a whole turn, in Run.
--
-- What the models answer, the string and JSON functions of Python, the templates of the prompts, the
-- vector search and the tools are the fields of `World`; a call that raises answers `none` or an error.
pub mod Guards
pub mod Agent
pub mod Run
pub mod Ends
pub mod Barred
pub mod Tools
pub mod Reply
pub mod Prompt
mod Examples
use bots_infra_be.Common.{
  ℕ, ◌+◌, Bool, true, false, String, str_eq, concat, Option, none, some, List, [], ◌∷◌, not, ltb,
}
use bots_infra_be.Common.Json.{Value, Fields, Items}
use bots_infra_be.Common.Dict.{Dict}
use bots_infra_be.Rag.{Hit}

pub record ToolCall : Type 0 where
  pub name : String
  pub args : Fields
  pub id : String

-- The messages of langchain_core, as far as the nodes read them.
pub data Message : Type 0 where
  human : String → Message
  system : String → Message
  ai : String → List ToolCall → Message
  tool : (result : Fields) (call_id name : String) → Message

-- The fields of `AgentConfig` that the nodes read.
pub record AgentConfig : Type 0 where
  pub scope : List String
  pub prohibitions : List String
  pub refusal_message : String
  pub tools : List String

pub record Usage : Type 0 where
  pub input : ℕ
  pub output : ℕ

-- `AgentState`, with the names of the tools whose executors ran, in their order.
pub record AgentState : Type 0 where
  pub channel : String
  pub locale : String
  pub messages : List Message
  pub retrieved : List Hit
  pub intake : Fields
  pub blocked : Bool
  pub block_reason : String
  pub escalate : Bool
  pub iterations : ℕ
  pub usage : Usage
  pub trace : List String
  pub executed : List String

-- An executor returns a result, or raises.
pub data ToolEnd : Type 0 where
  returned : Fields → ToolEnd
  raised : String → ToolEnd

-- A tool, with its two executors.
pub record ToolSpec : Type 0 where
  pub executor : Fields → ToolEnd
  pub mock_executor : Fields → ToolEnd

-- What the answering model says.
pub record Response : Type 0 where
  pub content : String
  pub tool_calls : List ToolCall
  pub usage : Usage

-- The functions of `str` and `json` that `_parse` calls: `startswith("```")`, `split("```")`,
-- `removeprefix("json")`, `find("{")`, `rfind("}")`, a slice, and `loads` of a text in braces.
pub record Python : Type 0 where
  pub strip : String → String
  pub is_fenced : String → Bool
  pub split_fences : String → List String
  pub remove_json : String → String
  pub find_open : String → Option ℕ
  pub find_close : String → Option ℕ
  pub slice : String → ℕ → ℕ → String
  pub loads : String → Option Fields
  pub dumps : Fields → String
  pub show : ℕ → String
  pub text_of : Value → String

pub record World : Type 0 where
  pub python : Python
  pub fill_in : (scope prohibitions : String) → String
  pub fill_out : (prohibitions : String) → String
  pub system_prefix : AgentConfig → (channel locale : String) → String
  pub guard : (attempts_left : ℕ) (system text : String) → Option String
  pub search : String → Option (List Hit)
  pub answer : (role : String) (offered : List String) (prompt : List Message) → Option Response
  pub registry : Dict ToolSpec
  pub use_mock : Bool
  pub max_graph_iterations : ℕ

-- Python's `bool(v)`, and `bool(d.get(k))`.
abbrev pub truthy : Value → Bool
truthy Value.null = false
truthy (Value.flag b) = b
truthy (Value.num n) = ltb 0 n
truthy (Value.str s) = not (str_eq s "")
truthy (Value.obj Fields.blank) = false
truthy (Value.obj (Fields.entry k v d)) = true
truthy (Value.arr Items.nothing) = false
truthy (Value.arr (Items.item v xs)) = true

abbrev pub holds : Option Value → Bool
holds none = false
holds (some v) = truthy v
