-- ===== src/Graph/Reply.antt =====
-- What the visitor is told: a blocked turn is refused, and every other answer is checked.
use mathlib.Core.List.{◌++◌}
use bots_infra_be.Common.{
  ℕ, suc, ◌≡◌, ◌⊎◌, refl, ◌∙◌, true, false, String, Option, none, some, List, [], ◌∷◌, arith,
  Bool-cases, Option-cases, inl, inr, subst, sym, ap,
}
use bots_infra_be.Common.Json.{Fields, get}
use bots_infra_be.Graph.{World, AgentConfig, AgentState, Message, holds}
use bots_infra_be.Graph.Guards.{
  last, last_human, draft_of, classify, out_prompt, guard_in, guard_out, check_draft, judge_in,
  judge_out, retrieve,
}
use bots_infra_be.Graph.Agent.{agent}
use bots_infra_be.Graph.Run.{
  Ending, Next, LoopRule, after_agent, loop, loop_lem, run, find_reply, extract_reply,
}

last-append {ℓ} : {A : Type ℓ} (xs : List A) (x : A) → last (xs ++ x ∷ []) ≡ some x
last-append [] x = refl
last-append (y ∷ xs) x = rw (last-append xs x) refl

last-cons {ℓ} : {A : Type ℓ} (x y : A) (xs : List A) → last (x ∷ y ∷ xs) ≡ last (y ∷ xs)
last-cons x y xs = elim (Option-cases (last xs)) [
  | inl empty ↦ rw empty refl
  | inr (z, e) ↦ rw e refl
]

-- The reply is the last message, if that is an answer whose text is not blank.
find_reply-last :
    (w : World) (ms : List Message) (reply : String)
    → draft_of w (last ms) ≡ some reply
    → find_reply w ms ≡ some reply
unfolding find_reply
find_reply-last w [] reply h = h
find_reply-last w (m ∷ []) reply h = h
find_reply-last w (m ∷ n ∷ ms) reply h =
    let rest = find_reply-last w (n ∷ ms) reply (rw (last-cons m n ms) at h) in cc rest

-- A reply is cleared: it is the refusal, the guard found no violation in it, or the trace says that
-- the guard gave no verdict.
abbrev pub IsCleared : World → AgentConfig → AgentState → String → Type 0
IsCleared w cfg s reply =
    (reply ≡ cfg.refusal_message)
    ⊎ ((verdict : Fields) × (classify w 2 (out_prompt w cfg) reply ≡ some verdict)
        × (holds (get verdict "violates") ≡ false))
    ⊎ (last s.trace ≡ some "guard_out:unverified")

abbrev pub IsClearedAtEnd : World → AgentConfig → Ending → Type 0
IsClearedAtEnd w cfg (Ending.finished s) =
    (reply : String)
    → draft_of w (last s.messages) ≡ some reply
    → (extract_reply w s.messages ≡ reply) × IsCleared w cfg s reply
IsClearedAtEnd w cfg _ = Unit

refusal_reply :
    (w : World) (cfg : AgentConfig) (ms : List Message) (reply : String)
    → draft_of w (last (ms ++ Message.ai cfg.refusal_message [] ∷ [])) ≡ some reply
    → reply ≡ cfg.refusal_message
refusal_reply w cfg ms reply h = go (rw (last-append ms (Message.ai cfg.refusal_message [])) at h)
  where
    go :
        draft_of w (some (Message.ai cfg.refusal_message [])) ≡ some reply
        → reply ≡ cfg.refusal_message
    go e = ground arith

same_text : {a b : String} → some a ≡ some b → a ≡ b
same_text e = cc

judge_out-IsCleared :
    (w : World) (cfg : AgentConfig) (s : AgentState) (draft : String) (v : Option Fields)
    → draft_of w (last s.messages) ≡ some draft
    → classify w 2 (out_prompt w cfg) draft ≡ v
    → (reply : String) → draft_of w (last (judge_out w cfg v s).messages) ≡ some reply
    → IsCleared w cfg (judge_out w cfg v s) reply
unfolding judge_out
judge_out-IsCleared w cfg s draft none d e reply h = inr (inr (last-append s.trace _))
judge_out-IsCleared w cfg s draft (some v) d e reply h =
    elim (Bool-cases (holds (get v "violates"))) [
      | inl bad ↦ inl (refusal_reply w cfg s.messages reply (rw bad at h))
      | inr good ↦
          let same = same_text (sym d ∙ (rw good at h)) in
          inr (inl (v, subst (λ x. classify w 2 (out_prompt w cfg) x ≡ some v) same e, good))
    ]

check_draft-IsCleared :
    (w : World) (cfg : AgentConfig) (s : AgentState) (reply : String)
    → draft_of w (last (check_draft w cfg s).messages) ≡ some reply
    → IsCleared w cfg (check_draft w cfg s) reply
unfolding check_draft
check_draft-IsCleared w cfg s reply h = elim (Option-cases (draft_of w (last s.messages))) [
  | inl blank ↦ absurd (nothing blank (rw (blank, check_draft) at h))
  | inr (draft, e) ↦
      rw (e, check_draft)
        (judge_out-IsCleared w cfg s draft (classify w 2 (out_prompt w cfg) draft) e refl reply
          (rw (e, check_draft) at h))
]
  where
    nothing : draft_of w (last s.messages) ≡ none → draft_of w (last s.messages) ≡ some reply → ⊥
    nothing e e' = ground arith

-- The guard answers where there are prohibitions.
guard_out-check :
    (w : World) (cfg : AgentConfig) (s : AgentState) (p : String) (ps : List String)
    → cfg.prohibitions ≡ p ∷ ps
    → guard_out w cfg s ≡ check_draft w cfg s
unfolding guard_out
guard_out-check w cfg s p ps e = ground arith

-- The answering node ends a turn by the refusal alone.
agent-end :
    (w : World) (cfg : AgentConfig) (s t : AgentState)
    → agent w cfg s ≡ some t
    → after_agent w t ≡ Next.end
    → t.messages ≡ s.messages ++ Message.ai cfg.refusal_message [] ∷ []
unfolding agent after_agent
agent-end w cfg s t e at = ground arith

IsCleared-refusal :
    (w : World) (cfg : AgentConfig) (s t : AgentState)
    → t.messages ≡ s.messages ++ Message.ai cfg.refusal_message [] ∷ []
    → (reply : String) → draft_of w (last t.messages) ≡ some reply
    → IsCleared w cfg t reply
IsCleared-refusal w cfg s t e reply h = inl (refusal_reply w cfg s.messages reply (rw e at h))

with_reply :
    (w : World) (cfg : AgentConfig) (t : AgentState)
    → ((reply : String) → draft_of w (last t.messages) ≡ some reply → IsCleared w cfg t reply)
    → IsClearedAtEnd w cfg (Ending.finished t)
unfolding extract_reply
with_reply w cfg t cleared reply h =
    (rw (find_reply-last w t.messages reply h, extract_reply) refl, cleared reply h)

rule :
    (w : World) (cfg : AgentConfig) (p : String) (ps : List String)
    → cfg.prohibitions ≡ p ∷ ps
    → LoopRule w cfg (λ fuel s. Unit) (IsClearedAtEnd w cfg)
rule w cfg p ps some_rule = record {
  spent = λ s h. tt;
  fails = tt;
  ends = λ fuel s t h e at.
      with_reply w cfg t (IsCleared-refusal w cfg s t (agent-end w cfg s t e at));
  checks = λ fuel s t h e at.
      rw (guard_out-check w cfg t p ps some_rule)
        (with_reply w cfg (check_draft w cfg t) (check_draft-IsCleared w cfg t));
  goes = λ fuel s t h e at. tt;
}

-- Where a tenant has prohibitions, the reply of a turn that ends with an answer which is not blank is
-- that answer, and it is the refusal, or the guard gave a verdict on this very text that finds no
-- violation, or the trace ends by saying that the guard gave no verdict.
pub run-IsCleared :
    (w : World) (cfg : AgentConfig) (s : AgentState) (p : String) (ps : List String)
    → cfg.prohibitions ≡ p ∷ ps
    → IsClearedAtEnd w cfg (run w cfg s)
unfolding run
run-IsCleared w cfg s p ps some_rule = elim (Option-cases (retrieve w (guard_in w cfg s))) [
  | inl raised ↦ rw (raised, run) tt
  | inr (t, e) ↦
      rw (e, run) (loop_lem (rule w cfg p ps some_rule) (suc w.max_graph_iterations) t tt)
]

-- What a refused turn leaves: the refusal as the answer, no tool run and no token of the model used.
abbrev pub IsRefusedAtEnd : World → AgentConfig → AgentState → Ending → Type 0
IsRefusedAtEnd w cfg s (Ending.finished t) =
    (t.blocked ≡ true)
    × (t.messages ≡ s.messages ++ Message.ai cfg.refusal_message [] ∷ [])
    × (t.executed ≡ s.executed)
    × (t.usage ≡ s.usage)
IsRefusedAtEnd w cfg s Ending.raised = retrieve w (guard_in w cfg s) ≡ none
IsRefusedAtEnd w cfg s Ending.stuck = ⊥

-- The parts of the state that the first two nodes leave alone.
abbrev Same : AgentState → AgentState → Type 0
Same s t = (t.messages ≡ s.messages) × (t.executed ≡ s.executed) × (t.usage ≡ s.usage)

judge_in-Same : (w : World) (v : Option Fields) (s : AgentState) → Same s (judge_in w v s)
unfolding judge_in
judge_in-Same w none s = (refl, refl, refl)
judge_in-Same w (some v) s = ground arith

guard_in-Same : (w : World) (cfg : AgentConfig) (s : AgentState) → Same s (guard_in w cfg s)
unfolding guard_in
guard_in-Same w cfg s = elim (Option-cases (last_human s.messages)) [
  | inl silent ↦ rw (silent, guard_in) (refl, refl, refl)
  | inr (latest, e) ↦ rw (e, guard_in) (judge_in-Same w _ s)
]

retrieve-Same :
    (w : World) (s t : AgentState) → retrieve w s ≡ some t → Same s t × (t.blocked ≡ s.blocked)
unfolding retrieve
retrieve-Same w s t h = ground arith

loop-IsRefused :
    (fuel : ℕ) (w : World) (cfg : AgentConfig) (s t : AgentState)
    → t.blocked ≡ true
    → Same s t
    → IsRefusedAtEnd w cfg s (loop (suc fuel) w cfg t)
unfolding loop agent after_agent
loop-IsRefused fuel w cfg s t blocked same =
    rw (blocked, loop)
      (refl, ap (λ ms. ms ++ Message.ai cfg.refusal_message [] ∷ []) same.0, same.1, same.2)

-- A message that the guard blocks is answered by the refusal, with no tool run and no call of the
-- answering model; the turn raises only where the search of the documents raised.
pub run-IsRefused :
    (w : World) (cfg : AgentConfig) (s : AgentState)
    → (guard_in w cfg s).blocked ≡ true
    → IsRefusedAtEnd w cfg s (run w cfg s)
unfolding run
run-IsRefused w cfg s blocked = elim (Option-cases (retrieve w (guard_in w cfg s))) [
  | inl raised ↦ subst (IsRefusedAtEnd w cfg s) (sym (ended raised)) raised
  | inr (t, e) ↦
      let (same, kept) = retrieve-Same w (guard_in w cfg s) t e in
      let before = guard_in-Same w cfg s in
      rw (e, run)
        (loop-IsRefused w.max_graph_iterations w cfg s t (kept ∙ blocked)
          (same.0 ∙ before.0, same.1 ∙ before.1, same.2 ∙ before.2))
]
  where
    ended : retrieve w (guard_in w cfg s) ≡ none → run w cfg s ≡ Ending.raised
    ended raised = rw (raised, run) refl
