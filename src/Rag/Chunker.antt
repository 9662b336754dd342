-- ===== src/Rag/Chunker.antt =====
-- The chunker: app/rag/chunker.py.
use mathlib.Core.List.{◌++◌}
use bots_infra_be.Common.{
  ℕ, zero, suc, ◌+◌, ◌-◌, true, false, String, str_eq, List, [], ◌∷◌, ltb, leb, keep, if◌then◌else◌,
}

-- `len`, the text without its outer blanks and long runs of line ends, the sentences of a text, stripped
-- and without the empty ones, `f"{a} {b}".strip()`, `s[i : j]`, `s[-n:]`.
pub record Texts : Type 0 where
  pub size : String → ℕ
  pub clean : String → String
  pub sentences : String → List String
  pub glue : String → String → String
  pub slice : ℕ → ℕ → String → String
  pub tail : ℕ → String → String

module _ (texts : Texts) (target overlap : ℕ) where
  -- `for i in range(0, len(piece), target_chars - overlap_chars)`, with fuel: each round moves on.
  unfoldable pub windows : ℕ → ℕ → String → List String
  windows zero i piece = []
  windows (suc fuel) i piece =
      let rest = windows fuel (i + (target - overlap)) piece in
      if ltb i (texts.size piece) then texts.slice i (i + target) piece ∷ rest else []

  -- `chunks.append(current)`, if there is one.
  abbrev pub flush : String → List String
  flush current = if str_eq current "" then [] else current ∷ []

  -- The chunks of the pieces that are left, given the current one.
  unfoldable pub chunk_pieces : String → List String → List String
  unfolding windows
  chunk_pieces current [] = flush current
  chunk_pieces current (piece ∷ pieces) =
      elim (leb (texts.size current + texts.size piece + 1) target) [
        | true ↦ chunk_pieces (texts.glue current piece) pieces
        | false ↦ elim (ltb target (texts.size piece)) [
          | true ↦ flush current ++ (windows (texts.size piece) 0 piece ++ chunk_pieces "" pieces)
          | false ↦
              flush current
              ++ chunk_pieces
                  (texts.glue (if str_eq current "" then "" else texts.tail overlap current) piece)
                  pieces
        ]
      ]

  -- `chunk_text`
  unfoldable pub chunk_text : String → List String
  unfolding chunk_pieces
  chunk_text text =
      let cleaned = texts.clean text in
      if str_eq cleaned ""
      then []
      else if leb (texts.size cleaned) target
      then cleaned ∷ []
      else keep (λ c. ltb 40 (texts.size c)) (chunk_pieces "" (texts.sentences cleaned))
