-- ===== src/Graph/Prompt.antt =====
-- What the answering model reads: the prefix, and the history with the sources in its latest question.
use mathlib.Core.List.{◌++◌}
use bots_infra_be.Common.{◌≡◌, refl, ap, ◌∙◌, true, false, String, List, [], ◌∷◌, arith}
use bots_infra_be.Rag.{format_context}
use bots_infra_be.Graph.{World, AgentConfig, AgentState, Message}
use bots_infra_be.Graph.Agent.{build_messages, collected, context_block, fold_context, has_human}

has_human-append :
    (before after : List Message) (q : String)
    → has_human (before ++ Message.human q ∷ after) ≡ true
has_human-append [] after q = refl
has_human-append (m ∷ before) after q = ground (arith, has_human-append before after q)

fold_context-append :
    (context q : String) (before after : List Message)
    → has_human after ≡ false
    → fold_context context (before ++ Message.human q ∷ after)
      ≡ before ++ Message.human (context_block context q) ∷ after
unfolding fold_context
fold_context-append context q [] after h = rw h refl
fold_context-append context q (m ∷ before) after h =
    rw (has_human-append before after q)
      (ap (λ ms. m ∷ ms) (fold_context-append context q before after h))

-- The sources go into the latest human turn alone: every message before it and after it is given to
-- the model as it stands, behind the prefix and what was collected.
build_messages-append :
    (w : World) (cfg : AgentConfig) (s : AgentState) (before after : List Message) (q : String)
    → s.messages ≡ before ++ Message.human q ∷ after
    → has_human after ≡ false
    → build_messages w cfg s
      ≡ Message.system (w.system_prefix cfg s.channel s.locale)
        ∷ collected w s.intake (
            before
            ++ Message.human (context_block (format_context w.python.show s.retrieved) q) ∷ after)
unfolding build_messages
build_messages-append w cfg s before after q split latest =
    ap (λ ms. Message.system (w.system_prefix cfg s.channel s.locale) ∷ collected w s.intake ms)
      (ap (fold_context (format_context w.python.show s.retrieved)) split
        ∙ fold_context-append (format_context w.python.show s.retrieved) q before after latest)
