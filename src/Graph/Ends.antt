-- ===== src/Graph/Ends.antt =====
-- Every turn ends, within the limit on iterations, and a blocked one ends at once.
use bots_infra_be.Common.{
  ℕ, suc, ◌+◌, ◌≤◌, ◌≡◌, refl, ◌∙◌, inl, inr, Option, none, some, List, [], ◌∷◌, arith, max,
  Option-cases,
}
use bots_infra_be.Common.Json.{Fields}
use bots_infra_be.Graph.{World, AgentConfig, AgentState}
use bots_infra_be.Graph.Guards.{
  last, draft_of, classify, out_prompt, guard_in, guard_out, check_draft, judge_in, judge_out,
  retrieve,
}
use bots_infra_be.Graph.Agent.{agent, tools, run_calls, run_call, calls_of}
use bots_infra_be.Graph.Run.{Next, Ending, LoopRule, after_agent, loop_lem, run}

-- A turn that ends with at most `n` calls of the answering node, or by an exception.
abbrev pub EndsWithin : ℕ → Ending → Type 0
EndsWithin n (Ending.finished s) = s.iterations ≤ n
EndsWithin n Ending.raised = Unit
EndsWithin n Ending.stuck = ⊥

agent-iterations :
    (w : World) (cfg : AgentConfig) (s t : AgentState)
    → agent w cfg s ≡ some t
    → t.iterations ≡ s.iterations + 1
unfolding agent
agent-iterations w cfg s t h = ground arith

run_calls-iterations :
    (w : World) (cfg : AgentConfig) (calls : List _) (s : AgentState)
    → (run_calls w cfg calls s).iterations ≡ s.iterations
unfolding run_calls
run_calls-iterations w cfg [] s = refl
run_calls-iterations w cfg (call ∷ calls) s =
    ground (arith, run_calls-iterations w cfg calls (run_call w cfg call s))

tools-iterations :
    (w : World) (cfg : AgentConfig) (s : AgentState) → (tools w cfg s).iterations ≡ s.iterations
unfolding tools
tools-iterations w cfg s = run_calls-iterations w cfg (calls_of (last s.messages)) s

judge_out-iterations :
    (w : World) (cfg : AgentConfig) (v : Option _) (s : AgentState)
    → (judge_out w cfg v s).iterations ≡ s.iterations
unfolding judge_out
judge_out-iterations w cfg none s = refl
judge_out-iterations w cfg (some v) s = ground arith

check_draft-iterations :
    (w : World) (cfg : AgentConfig) (s : AgentState)
    → (check_draft w cfg s).iterations ≡ s.iterations
unfolding check_draft
check_draft-iterations w cfg s = elim (Option-cases (draft_of w (last s.messages))) [
  | inl blank ↦ rw (blank, check_draft) refl
  | inr (draft, e) ↦
      rw (e, check_draft) (judge_out-iterations w cfg (classify w 2 (out_prompt w cfg) draft) s)
]

guard_out-iterations :
    (w : World) (cfg : AgentConfig) (s : AgentState) → (guard_out w cfg s).iterations ≡ s.iterations
unfolding guard_out
guard_out-iterations w cfg s = ground (arith, check_draft-iterations w cfg s)

after_agent-tools :
    (w : World) (s : AgentState)
    → after_agent w s ≡ Next.to_tools
    → suc s.iterations ≤ w.max_graph_iterations
unfolding after_agent
after_agent-tools w s h = ground arith

-- The loop from a state that has room for one more call of the model.
abbrev Room : World → ℕ → AgentState → Type 0
Room w fuel s =
    (suc s.iterations ≤ max 1 w.max_graph_iterations)
    × (1 ≤ fuel)
    × (w.max_graph_iterations ≤ s.iterations + fuel)

rule :
    (w : World) (cfg : AgentConfig)
    → LoopRule w cfg (Room w) (EndsWithin (max 1 w.max_graph_iterations))
rule w cfg = record {
  spent = λ s (room, some_left, enough). absurd (omega arith);
  fails = tt;
  ends = λ fuel s t room e at. omega (arith, room.0, agent-iterations w cfg s t e);
  checks = λ fuel s t room e at.
      omega (arith, room.0, agent-iterations w cfg s t e, guard_out-iterations w cfg t);
  goes = λ fuel s t room e at. omega (
    arith,
    room.0,
    room.2,
    agent-iterations w cfg s t e,
    tools-iterations w cfg t,
    after_agent-tools w t at,
  );
}

retrieve-iterations :
    (w : World) (s t : AgentState) → retrieve w s ≡ some t → t.iterations ≡ s.iterations
unfolding retrieve
retrieve-iterations w s t h = ground arith

judge_in-iterations :
    (w : World) (v : Option Fields) (s : AgentState) → (judge_in w v s).iterations ≡ s.iterations
unfolding judge_in
judge_in-iterations w none s = refl
judge_in-iterations w (some v) s = ground arith

guard_in-iterations :
    (w : World) (cfg : AgentConfig) (s : AgentState) → (guard_in w cfg s).iterations ≡ s.iterations
unfolding guard_in
guard_in-iterations w cfg s = grind (arith, judge_in-iterations)

-- A turn from its initial state never runs out of fuel: it ends, or a node raises, and the answering
-- node is called at most as often as the limit on iterations says, and once where the limit is 0.
pub run-EndsWithin :
    (w : World) (cfg : AgentConfig) (s : AgentState)
    → s.iterations ≡ 0
    → EndsWithin (max 1 w.max_graph_iterations) (run w cfg s)
unfolding run
run-EndsWithin w cfg s zero_at = elim (Option-cases (retrieve w (guard_in w cfg s))) [
  | inl raised ↦ rw (raised, run) tt
  | inr (t, e) ↦
      let same : t.iterations ≡ 0 =
        retrieve-iterations w (guard_in w cfg s) t e ∙ guard_in-iterations w cfg s ∙ zero_at in
      rw (e, run)
        (loop_lem (rule w cfg) (suc w.max_graph_iterations) t
          (omega (arith, same), omega arith, omega (arith, same)))
]
