-- ===== src/Rag/Pieces.antt =====
-- The size of a chunk.
use bots_infra_be.Common.{
  ℕ, zero, suc, ◌+◌, ◌-◌, ◌≤◌, ◌<◌, ◌≡◌, refl, ap, false, String, str_eq, List, [], ◌∷◌, ltb, leb,
  All, All-append, All-keep, All-map, arith, if-intro, Bool-cases, inl, inr, if◌then◌else◌,
}
use bots_infra_be.Rag.Chunker.{Texts, windows, flush, chunk_pieces, chunk_text}

-- What Python says of the lengths of texts.
pub record Lengths (texts : Texts) : Type 0 where
  pub size-empty : texts.size "" ≡ 0
  pub size-glue : (a b : String) → texts.size (texts.glue a b) ≤ texts.size a + texts.size b + 1
  pub size-slice : (i n : ℕ) (s : String) → texts.size (texts.slice i (i + n) s) ≤ n
  pub size-tail : (n : ℕ) (s : String) → texts.size (texts.tail n s) ≤ n

module _ (texts : Texts) (lengths : Lengths texts) (target overlap : ℕ) where
  abbrev Fits : String → Type 0
  Fits c = texts.size c ≤ target + overlap + 1

  windows-Fits :
      (fuel i : ℕ) (piece : String) → All Fits (windows texts target overlap fuel i piece)
  unfolding windows
  windows-Fits zero i piece = tt
  windows-Fits (suc fuel) i piece =
      if-intro (All Fits) (ltb i (texts.size piece)) _ _
        (λ more. (
          omega (arith, lengths.size-slice i target piece),
          windows-Fits fuel (i + (target - overlap)) piece,
        ))
        (λ done. tt)

  flush-Fits : (current : String) → Fits current → All Fits (flush texts target overlap current)
  flush-Fits current h = if-intro (All Fits) (str_eq current "") _ _ (λ e. tt) (λ e. (h, tt))

  tail-small :
      (current : String)
      → texts.size (if str_eq current "" then "" else texts.tail overlap current) ≤ overlap
  tail-small current =
      if-intro (λ s. texts.size s ≤ overlap) (str_eq current "") _ _
        (λ e. omega (arith, lengths.size-empty)) (λ e. lengths.size-tail overlap current)

  chunk_pieces-Fits :
      (pieces : List String) (current : String)
      → Fits current
      → All Fits (chunk_pieces texts target overlap current pieces)
  unfolding chunk_pieces
  chunk_pieces-Fits [] current h = flush-Fits current h
  chunk_pieces-Fits (piece ∷ pieces) current h =
      elim (Bool-cases (leb (texts.size current + texts.size piece + 1) target)) [
        | inl small ↦
            rw (small, chunk_pieces)
              (chunk_pieces-Fits pieces (texts.glue current piece)
                (ground (arith, small, lengths.size-glue current piece)))
        | inr full ↦ elim (Bool-cases (ltb target (texts.size piece))) [
          | inl long ↦
              rw (full, chunk_pieces)
                (rw long (
                  All-append Fits (flush texts target overlap current) _ (flush-Fits current h) (
                    All-append Fits (windows texts target overlap (texts.size piece) 0 piece) _
                      (windows-Fits (texts.size piece) 0 piece)
                      (chunk_pieces-Fits pieces "" (omega (arith, lengths.size-empty))))))
          | inr fits ↦
              let rest = if str_eq current "" then "" else texts.tail overlap current in
              rw (full, chunk_pieces)
                (rw fits (
                  All-append Fits (flush texts target overlap current) _ (flush-Fits current h) (
                    chunk_pieces-Fits pieces (texts.glue rest piece)
                      (ground (arith, fits, lengths.size-glue rest piece, tail-small current)))))
        ]
      ]

  -- No chunk of a text has more characters than the target, the overlap and a blank. The lengths of
  -- texts are Python's.
  chunk_text-Fits :
      (text : String)
      → All (λ c. texts.size c ≤ target + overlap + 1) (chunk_text texts target overlap text)
  unfolding chunk_text
  chunk_text-Fits text =
      let cleaned = texts.clean text in
      if-intro (All Fits) (str_eq cleaned "") _ _ (λ blank. tt)
        (λ something.
          if-intro (All Fits) (leb (texts.size cleaned) target) _ _
            (λ short. (ground (arith, short), tt))
            (λ long.
              All-map _ Fits (λ c h. h.0) _
                (All-keep Fits (λ c. ltb 40 (texts.size c)) _
                  (chunk_pieces-Fits (texts.sentences cleaned) ""
                    (omega (arith, lengths.size-empty))))))

-- As much fuel as the rest of the piece has characters is enough: more of it gives the same windows.
pub windows_enough :
    (texts : Texts) (target overlap more fuel i : ℕ) (piece : String)
    → overlap < target
    → texts.size piece ≤ i + fuel
    → fuel ≤ more
    → windows texts target overlap more i piece ≡ windows texts target overlap fuel i piece
unfolding windows
windows_enough texts target overlap zero zero i piece step enough le = refl
windows_enough texts target overlap zero (suc fuel) i piece step enough le =
    absurd (omega (arith, le))
windows_enough texts target overlap (suc more) zero i piece step enough le =
    let end : ltb i (texts.size piece) ≡ false = ground (arith, enough) in rw end refl
windows_enough texts target overlap (suc more) (suc fuel) i piece step enough le =
    ap (λ rest. if ltb i (texts.size piece) then texts.slice i (i + target) piece ∷ rest else [])
      (windows_enough texts target overlap more fuel (i + (target - overlap)) piece step
        (omega (arith, step, enough)) (omega (arith, le)))
