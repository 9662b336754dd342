-- ===== src/Graph/Tools.antt =====
-- Only tools that the tenant has enabled are executed, and a failure of a tool never ends a turn.
use bots_infra_be.Common.{
  suc, ◌≡◌, if◌then◌else◌, refl, true, String, Option, none, some, List, [], ◌∷◌, All, All-append,
  arith, Bool-cases, Option-cases, inl, inr,
}
use bots_infra_be.Common.Dict
use bots_infra_be.Common.Dict.{elem}
use bots_infra_be.Graph.{World, AgentConfig, AgentState, ToolCall, ToolEnd, ToolSpec}
use bots_infra_be.Graph.Guards.{
  last, guard_in, guard_out, check_draft, judge_in, judge_out, retrieve,
}
use bots_infra_be.Graph.Agent.{agent, tools, run_calls, run_call, calls_of, execute, executed_call}
use bots_infra_be.Graph.Barred.{with_others, run-same}
use bots_infra_be.Graph.Run.{Ending, LoopRule, loop_lem, run}

-- Each tool that has been executed is enabled.
abbrev pub IsEnabled : AgentConfig → List String → Type 0
IsEnabled cfg executed = All (λ name. elem name cfg.tools ≡ true) executed

abbrev pub IsEnabledAtEnd : AgentConfig → Ending → Type 0
IsEnabledAtEnd cfg (Ending.finished s) = IsEnabled cfg s.executed
IsEnabledAtEnd cfg _ = Unit

-- The tools that a call of an enabled tool runs are enabled.
execute-IsEnabled :
    (w : World) (cfg : AgentConfig) (call : ToolCall)
    → elem call.name cfg.tools ≡ true
    → IsEnabled cfg (execute w call).1
unfolding execute
execute-IsEnabled w cfg call enabled = elim (Option-cases (Dict.get w.registry call.name)) [
  | inl missing ↦ rw (missing, execute) tt
  | inr (spec, e) ↦
      rw (e, execute)
        (by_end (if w.use_mock then spec.mock_executor call.args else spec.executor call.args))
]
  where
    by_end : (o : ToolEnd) → IsEnabled cfg (executed_call call.name o).1
    by_end (ToolEnd.returned result) = (enabled, tt)
    by_end (ToolEnd.raised error) = (enabled, tt)

run_call-IsEnabled :
    (w : World) (cfg : AgentConfig) (call : ToolCall) (s : AgentState)
    → IsEnabled cfg s.executed
    → IsEnabled cfg (run_call w cfg call s).executed
unfolding run_call
run_call-IsEnabled w cfg call s h = elim (Bool-cases (elem call.name cfg.tools)) [
  | inl enabled ↦ rw enabled (All-append _ s.executed _ h (execute-IsEnabled w cfg call enabled))
  | inr barred ↦ rw barred (All-append _ s.executed [] h tt)
]

run_calls-IsEnabled :
    (w : World) (cfg : AgentConfig) (calls : List ToolCall) (s : AgentState)
    → IsEnabled cfg s.executed
    → IsEnabled cfg (run_calls w cfg calls s).executed
unfolding run_calls
run_calls-IsEnabled w cfg [] s h = h
run_calls-IsEnabled w cfg (call ∷ calls) s h =
    run_calls-IsEnabled w cfg calls (run_call w cfg call s) (run_call-IsEnabled w cfg call s h)

agent-executed :
    (w : World) (cfg : AgentConfig) (s t : AgentState)
    → agent w cfg s ≡ some t
    → t.executed ≡ s.executed
unfolding agent
agent-executed w cfg s t h = ground arith

judge_out-executed :
    (w : World) (cfg : AgentConfig) (v : Option _) (s : AgentState)
    → (judge_out w cfg v s).executed ≡ s.executed
unfolding judge_out
judge_out-executed w cfg none s = refl
judge_out-executed w cfg (some v) s = ground arith

guard_out-executed :
    (w : World) (cfg : AgentConfig) (s : AgentState) → (guard_out w cfg s).executed ≡ s.executed
unfolding guard_out check_draft
guard_out-executed w cfg s = grind (arith, judge_out-executed)

judge_in-executed :
    (w : World) (v : Option _) (s : AgentState) → (judge_in w v s).executed ≡ s.executed
unfolding judge_in
judge_in-executed w none s = refl
judge_in-executed w (some v) s = ground arith

guard_in-executed :
    (w : World) (cfg : AgentConfig) (s : AgentState) → (guard_in w cfg s).executed ≡ s.executed
unfolding guard_in
guard_in-executed w cfg s = grind (arith, judge_in-executed)

retrieve-executed : (w : World) (s t : AgentState) → retrieve w s ≡ some t → t.executed ≡ s.executed
unfolding retrieve
retrieve-executed w s t h = ground arith

rule :
    (w : World) (cfg : AgentConfig)
    → LoopRule w cfg (λ fuel s. IsEnabled cfg s.executed) (IsEnabledAtEnd cfg)
unfolding tools
rule w cfg = record {
  spent = λ s h. tt;
  fails = tt;
  ends = λ fuel s t h e at. rw (agent-executed w cfg s t e) h;
  checks = λ fuel s t h e at. rw (guard_out-executed w cfg t, agent-executed w cfg s t e) h;
  goes = λ fuel s t h e at.
      run_calls-IsEnabled w cfg (calls_of (last t.messages)) t (rw (agent-executed w cfg s t e) h);
}

run_enabled :
    (w : World) (cfg : AgentConfig) (s : AgentState)
    → IsEnabled cfg s.executed
    → IsEnabledAtEnd cfg (run w cfg s)
unfolding run
run_enabled w cfg s h = elim (Option-cases (retrieve w (guard_in w cfg s))) [
  | inl raised ↦ rw (raised, run) tt
  | inr (t, e) ↦
      rw (e, run)
        (loop_lem (rule w cfg) (suc w.max_graph_iterations) t
          (rw (retrieve-executed w (guard_in w cfg s) t e, guard_in-executed w cfg s) h))
]

-- Whatever the models ask for, in a turn that ends the tools whose executor was called, real or mock,
-- are enabled for the tenant, if this holds of the state that the turn begins with; and a turn ends in
-- the same way whatever the executors of the tools that are not enabled would do.
pub run-IsEnabled :
    (w : World) (cfg : AgentConfig) (s : AgentState) (other : String → ToolSpec)
    → IsEnabled cfg s.executed
    → IsEnabledAtEnd cfg (run w cfg s) × (run (with_others other cfg w) cfg s ≡ run w cfg s)
run-IsEnabled w cfg s other h = (run_enabled w cfg s h, run-same other w cfg s)
