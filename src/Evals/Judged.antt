-- ===== src/Evals/Judged.antt =====
-- What the judge says of a case.
use bots_infra_be.Common.{
  ℕ, zero, suc, ◌≤◌, ◌≡◌, refl, sym, subst, String, Option, none, some, arith, Option-cases, inl,
  inr, ◌⊎◌,
}
use bots_infra_be.Common.Json.{Value, Fields, get}
use bots_infra_be.Graph.{Python}
use bots_infra_be.Evals.{
  Float, Reply, Judge, Scores, Verdict, parse_verdict, clamped, score_of, judge_with, judge,
}

-- No score is above 1.0.
abbrev pub IsBounded : Scores → Type 0
IsBounded s =
    (s.correctness ≤ 1000000)
    × (s.grounded ≤ 1000000)
    × (s.scope_adherence ≤ 1000000)
    × (s.prohibition_safe ≤ 1000000)

-- An attempt that gives no verdict: the model raises, or its answer does not parse.
abbrev pub Fails : Python → Reply → Type 0
Fails py (Reply.raises e) = Unit
Fails py (Reply.text raw) = parse_verdict py raw ≡ none

abbrev pub Parses : Python → Reply → Type 0
Parses py (Reply.raises e) = ⊥
Parses py (Reply.text raw) = (parsed : Fields) × (parse_verdict py raw ≡ some parsed)

module _ (j : Judge) (py : Python) (question expected actual : String) where
  -- Scores are in their bounds, and come of an attempt that parses; an error, of none that does.
  abbrev pub IsJudged : ℕ → Verdict → Type 0
  IsJudged zero (Verdict.judge_error e) = Unit
  IsJudged zero (Verdict.scored reasoning s) = ⊥
  IsJudged (suc left) (Verdict.judge_error e) =
      Fails py (j.model (suc left) question expected actual) × IsJudged left (Verdict.judge_error e)
  IsJudged (suc left) (Verdict.scored reasoning s) =
      (Parses py (j.model (suc left) question expected actual) × IsBounded s)
      ⊎ (Fails py (j.model (suc left) question expected actual)
          × IsJudged left (Verdict.scored reasoning s))

  score_of-le : (v : Option Value) → score_of j v ≤ 1000000
  score_of-le none = omega arith
  score_of-le (some v) = by_float (j.as_float v)
    where
      by_float : (x : Option Float) → clamped x ≤ 1000000
      by_float none = omega arith
      by_float (some Float.nan) = omega arith
      by_float (some Float.negative) = omega arith
      by_float (some (Float.at n)) = omega arith

  step :
      (left : ℕ) (v : Verdict)
      → Fails py (j.model (suc left) question expected actual)
      → IsJudged left v
      → IsJudged (suc left) v
  step left (Verdict.judge_error e) fails rest = (fails, rest)
  step left (Verdict.scored reasoning s) fails rest = inr (fails, rest)

  judge_with-IsJudged :
      (left : ℕ) (e : String) → IsJudged left (judge_with j py question expected actual left e)
  unfolding judge_with
  judge_with-IsJudged zero e = tt
  judge_with-IsJudged (suc left) e =
      by_reply (j.model (suc left) question expected actual) refl (λ x. judge_with-IsJudged left x)
    where
      by_reply :
          (r : Reply)
          → j.model (suc left) question expected actual ≡ r
          → ((x : String) → IsJudged left (judge_with j py question expected actual left x))
          → IsJudged (suc left) (judge_with j py question expected actual (suc left) e)
      by_reply (Reply.raises x) eq rest =
          rw (eq, judge_with) (step left _ (subst (Fails py) (sym eq) tt) (rest x))
      by_reply (Reply.text raw) eq rest = elim (Option-cases (parse_verdict py raw)) [
        | inl fails ↦
            rw (eq, judge_with, fails) (step left _ (subst (Fails py) (sym eq) fails) (rest _))
        | inr (parsed, parses) ↦
            rw (eq, judge_with, parses)
              (inl (
                subst (Parses py) (sym eq) (parsed, parses),
                (
                  score_of-le (get parsed "correctness"),
                  score_of-le (get parsed "grounded"),
                  score_of-le (get parsed "scope_adherence"),
                  score_of-le (get parsed "prohibition_safe"),
                ),
              ))
      ]

  pub IsJudged-IsBounded :
      (left : ℕ) (reasoning : String) (s : Scores)
      → IsJudged left (Verdict.scored reasoning s)
      → IsBounded s
  IsJudged-IsBounded zero reasoning s none_left = absurd none_left
  IsJudged-IsBounded (suc left) reasoning s (inl (parses, bounded)) = bounded
  IsJudged-IsBounded (suc left) reasoning s (inr (fails, later)) =
      IsJudged-IsBounded left reasoning s later

  -- A case that `judge` scores has scores from 0 to 1 in every dimension, by the first of the two
  -- attempts whose answer parses; it returns an error exactly when neither parses.
  pub judge-IsJudged : IsJudged 2 (judge j py question expected actual)
  unfolding judge
  judge-IsJudged = judge_with-IsJudged 2 ""
