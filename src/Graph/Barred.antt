-- ===== src/Graph/Barred.antt =====
-- What the executors of tools that a tenant has not enabled would do makes no difference to a turn.
use bots_infra_be.Common.{
  ℕ, zero, suc, ◌≡◌, refl, ap, ◌∙◌, Bool, true, String, str_eq, eq_iff, none, some, List, [], ◌∷◌,
  keep, arith, if◌then◌else◌, Bool-cases, Option-cases, inl, inr,
}
use bots_infra_be.Common.Dict
use bots_infra_be.Common.Dict.{Dict, elem}
use bots_infra_be.Graph.{World, AgentConfig, AgentState, ToolSpec, ToolCall}
use bots_infra_be.Graph.Guards.{
  last, classify, guard_in, guard_out, check_draft, judge_in, judge_out, retrieve,
}
use bots_infra_be.Graph.Agent.{
  agent, build_messages, schemas_for, is_some, execute, run_call, run_calls, tools, calls_of,
}
use bots_infra_be.Graph.Run.{Ending, Next, after_agent, loop, run}

-- A registry with the same names, where the tools that are not enabled have other executors.
unfoldable pub swapped : (String → ToolSpec) → List String → Dict ToolSpec → Dict ToolSpec
swapped other enabled [] = []
swapped other enabled ((k, spec) ∷ d) =
    (k, if elem k enabled then spec else other k) ∷ swapped other enabled d

-- The world with such a registry.
abbrev pub with_others : (String → ToolSpec) → AgentConfig → World → World
with_others other cfg w = record w { registry = swapped other cfg.tools w.registry }

get-swapped :
    (other : String → ToolSpec) (enabled : List String) (d : Dict ToolSpec) (k : String)
    → elem k enabled ≡ true
    → Dict.get (swapped other enabled d) k ≡ Dict.get d k
unfolding swapped Dict.get
get-swapped other enabled [] k h = refl
get-swapped other enabled ((j, spec) ∷ d) k h =
    ground (arith, eq_iff j k, h, get-swapped other enabled d k h)

is_some-swapped :
    (other : String → ToolSpec) (enabled : List String) (d : Dict ToolSpec) (k : String)
    → is_some (Dict.get (swapped other enabled d) k) ≡ is_some (Dict.get d k)
unfolding swapped Dict.get
is_some-swapped other enabled [] k = refl
is_some-swapped other enabled ((j, spec) ∷ d) k = elim (Bool-cases (str_eq j k)) [
  | inl same ↦ rw same refl
  | inr apart ↦ rw apart (is_some-swapped other enabled d k)
]

keep-same :
    {A : Type 0} (p q : A → Bool) (xs : List A) → ((x : A) → p x ≡ q x) → keep p xs ≡ keep q xs
keep-same p q [] h = refl
keep-same p q (x ∷ xs) h = rw (h x, keep-same p q xs h) refl

module _ (other : String → ToolSpec) (w : World) (cfg : AgentConfig) where
  abbrev others : World
  others = with_others other cfg w

  schemas_for-same : schemas_for others cfg.tools ≡ schemas_for w cfg.tools
  unfolding schemas_for
  schemas_for-same = keep-same _ _ cfg.tools (is_some-swapped other cfg.tools w.registry)

  agent-same : (s : AgentState) → agent others cfg s ≡ agent w cfg s
  unfolding agent build_messages
  agent-same s = rw schemas_for-same refl

  execute-same :
      (call : ToolCall) → elem call.name cfg.tools ≡ true → execute others call ≡ execute w call
  unfolding execute
  execute-same call h = rw (get-swapped other cfg.tools w.registry call.name h, execute) refl

  run_call-same :
      (call : ToolCall) (s : AgentState) → run_call others cfg call s ≡ run_call w cfg call s
  unfolding run_call
  run_call-same call s = elim (Bool-cases (elem call.name cfg.tools)) [
    | inl enabled ↦ rw (enabled, execute-same call enabled) refl
    | inr barred ↦ rw barred refl
  ]

  run_calls-same :
      (calls : List ToolCall) (s : AgentState)
      → run_calls others cfg calls s ≡ run_calls w cfg calls s
  unfolding run_calls
  run_calls-same [] s = refl
  run_calls-same (call ∷ calls) s =
      run_calls-same calls (run_call others cfg call s)
      ∙ ap (λ t. run_calls w cfg calls t) (run_call-same call s)

  tools-same : (s : AgentState) → tools others cfg s ≡ tools w cfg s
  unfolding tools
  tools-same s = rw (run_calls-same (calls_of (last s.messages)) s) refl

  guard_in-same : (s : AgentState) → guard_in others cfg s ≡ guard_in w cfg s
  unfolding guard_in judge_in classify
  guard_in-same s = refl

  guard_out-same : (s : AgentState) → guard_out others cfg s ≡ guard_out w cfg s
  unfolding guard_out check_draft judge_out classify
  guard_out-same s = refl

  -- After the answering node.
  after-same :
      (fuel : ℕ)
      → ((s : AgentState) → loop fuel others cfg s ≡ loop fuel w cfg s)
      → (t : AgentState) (n : Next)
      → (elim n as (λ x. Ending) [
        | Next.end ↦ Ending.finished t
        | Next.to_guard_out ↦ Ending.finished (guard_out others cfg t)
        | Next.to_tools ↦ loop fuel others cfg (tools others cfg t)
      ])
        ≡ (elim n as (λ x. Ending) [
          | Next.end ↦ Ending.finished t
          | Next.to_guard_out ↦ Ending.finished (guard_out w cfg t)
          | Next.to_tools ↦ loop fuel w cfg (tools w cfg t)
        ])
  after-same fuel rest t Next.end = refl
  after-same fuel rest t Next.to_guard_out = ap Ending.finished (guard_out-same t)
  after-same fuel rest t Next.to_tools =
      rest (tools others cfg t) ∙ ap (loop fuel w cfg) (tools-same t)

  loop-same : (fuel : ℕ) (s : AgentState) → loop fuel others cfg s ≡ loop fuel w cfg s
  unfolding loop after_agent
  loop-same zero s = refl
  loop-same (suc fuel) s = elim (Option-cases (agent w cfg s)) [
    | inl e ↦ let e' : agent others cfg s ≡ none = agent-same s ∙ e in rw (e', e, loop) refl
    | inr (t, e) ↦
        let e' : agent others cfg s ≡ some t = agent-same s ∙ e in
        rw (e', e, loop) (after-same fuel (λ u. loop-same fuel u) t (after_agent w t))
  ]

  retrieve-same : (s : AgentState) → retrieve others s ≡ retrieve w s
  unfolding retrieve
  retrieve-same s = refl

  pub run-same : (s : AgentState) → run others cfg s ≡ run w cfg s
  unfolding run
  run-same s =
      let e : retrieve others (guard_in others cfg s) ≡ retrieve w (guard_in w cfg s) =
        retrieve-same (guard_in others cfg s) ∙ ap (λ t. retrieve w t) (guard_in-same s) in
      elim (Option-cases (retrieve w (guard_in w cfg s))) [
        | inl raised ↦
            let e' : retrieve others (guard_in others cfg s) ≡ none = e ∙ raised in
            rw (e', raised, run) refl
        | inr (t, found) ↦
            let e' : retrieve others (guard_in others cfg s) ≡ some t = e ∙ found in
            rw (e', found, run) (loop-same (suc w.max_graph_iterations) t)
      ]
