-- ===== src/Graph/Run.antt =====
-- The edges of the graph, app/graph/build.py, a turn through it, and the state that a turn begins with
-- and the reply that is read from its end, app/services/turn.py.
use mathlib.Core.List.{◌++◌}
use bots_infra_be.Common.{
  ℕ, zero, suc, ◌≡◌, refl, String, str_eq, Option, none, some, List, [], ◌∷◌, leb, false,
  if◌then◌else◌,
}
use bots_infra_be.Common.Json.{Fields}
use bots_infra_be.Graph.{World, AgentConfig, AgentState, Message}
use bots_infra_be.Graph.Guards.{last, draft_of, guard_in, guard_out, retrieve}
use bots_infra_be.Graph.Agent.{agent, tools, calls_of}

pub data Next : Type 0 where
  end to_guard_out to_tools : Next

-- `_after_agent`
unfoldable pub after_agent : World → AgentState → Next
after_agent w s =
    if s.blocked
    then end
    else if leb w.max_graph_iterations s.iterations
    then to_guard_out
    else elim (calls_of (last s.messages)) [ [] ↦ to_guard_out | call ∷ calls ↦ to_tools ]

-- How a turn ends: `raised` where a node raised, `stuck` where the fuel is spent.
pub data Ending : Type 0 where
  finished : AgentState → Ending
  raised : Ending
  stuck : Ending

-- From `agent` on, around the loop of tools, with fuel.
unfoldable pub loop : ℕ → World → AgentConfig → AgentState → Ending
unfolding after_agent
loop zero w cfg s = stuck
loop (suc fuel) w cfg s = elim (agent w cfg s) [
  | none ↦ raised
  | some s' ↦ elim (after_agent w s') [
    | end ↦ finished s'
    | to_guard_out ↦ finished (guard_out w cfg s')
    | to_tools ↦ loop fuel w cfg (tools w cfg s')
  ]
]

-- How to show a property of the end of the loop from an invariant of its rounds, with the fuel.
pub record LoopRule (w : World) (cfg : AgentConfig) (Inv : ℕ → AgentState → Type 0)
    (P : Ending → Type 0) : Type 0 where
  pub spent : (s : AgentState) → Inv 0 s → P stuck
  pub fails : P raised
  pub ends :
      (fuel : ℕ) (s t : AgentState)
      → Inv (suc fuel) s
      → agent w cfg s ≡ some t
      → after_agent w t ≡ end
      → P (finished t)
  pub checks :
      (fuel : ℕ) (s t : AgentState)
      → Inv (suc fuel) s
      → agent w cfg s ≡ some t
      → after_agent w t ≡ to_guard_out
      → P (finished (guard_out w cfg t))
  pub goes :
      (fuel : ℕ) (s t : AgentState)
      → Inv (suc fuel) s
      → agent w cfg s ≡ some t
      → after_agent w t ≡ to_tools
      → Inv fuel (tools w cfg t)

module _ {w : World} {cfg : AgentConfig} {Inv : ℕ → AgentState → Type 0} {P : Ending → Type 0}
    (rule : LoopRule w cfg Inv P) where
  loop_step :
      (fuel : ℕ) (s : AgentState)
      → Inv (suc fuel) s
      → ((t : AgentState) → Inv fuel t → P (loop fuel w cfg t))
      → P (loop (suc fuel) w cfg s)
  unfolding loop
  loop_step fuel s inv rest = go (agent w cfg s) refl
    where
      next :
          (t : AgentState)
          → agent w cfg s ≡ some t
          → (n : Next) → after_agent w t ≡ n
          → P (loop (suc fuel) w cfg s)
      next t e end at = rw (e, loop) (rw (at, loop) (rule.ends fuel s t inv e at))
      next t e to_guard_out at = rw (e, loop) (rw (at, loop) (rule.checks fuel s t inv e at))
      next t e to_tools at =
          rw (e, loop) (rw (at, loop) (rest (tools w cfg t) (rule.goes fuel s t inv e at)))

      go : (o : Option AgentState) → agent w cfg s ≡ o → P (loop (suc fuel) w cfg s)
      go none e = rw (e, loop) rule.fails
      go (some t) e = next t e (after_agent w t) refl

  pub loop_lem : (fuel : ℕ) (s : AgentState) → Inv fuel s → P (loop fuel w cfg s)
  loop_lem zero s inv = unfold loop in rule.spent s inv
  loop_lem (suc fuel) s inv = loop_step fuel s inv (λ t h. loop_lem fuel t h)

-- The compiled graph: `guard_in` and `retrieve`, which write different fields, and then the loop. The
-- fuel is one more than the limit on iterations.
unfoldable pub run : World → AgentConfig → AgentState → Ending
unfolding loop
run w cfg s = elim (retrieve w (guard_in w cfg s)) [
  | none ↦ raised
  | some s' ↦ loop (suc w.max_graph_iterations) w cfg s'
]

-- `initial_state`
unfoldable pub initial_state :
    (history : List Message) (intake : Fields) (channel resolved declared text : String)
    → AgentState
initial_state history intake channel resolved declared text = record {
  channel = channel;
  locale = if str_eq resolved "" then declared else resolved;
  messages = history ++ Message.human text ∷ [];
  retrieved = [];
  intake = intake;
  blocked = false;
  block_reason = "";
  escalate = false;
  iterations = 0;
  usage = record { input = 0; output = 0 };
  trace = [];
  executed = [];
}

-- The last answer whose text is not blank.
unfoldable pub find_reply : World → List Message → Option String
find_reply w [] = none
find_reply w (m ∷ ms) = elim (find_reply w ms) [ none ↦ draft_of w (some m) | some r ↦ some r ]

-- `extract_reply`
unfoldable pub extract_reply : World → List Message → String
unfolding find_reply
extract_reply w ms = elim (find_reply w ms) [ none ↦ "" | some reply ↦ reply ]
