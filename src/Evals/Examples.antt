-- ===== src/Evals/Examples.antt =====
-- Evaluations at concrete inputs.
use native.Mathlib.Nat.{div-add-mod, mod-lt}
use bots_infra_be.Common.{
  ℕ, zero, suc, ◌+◌, ◌*◌, ◌/◌, ◌<◌, ◌≡◌, refl, false, String, str_eq, some, none, List, [], ◌∷◌,
  arith, if◌then◌else◌,
}
use bots_infra_be.Common.Json.{Value, Fields, get}
use bots_infra_be.Graph.{AgentConfig, Python, World}
use bots_infra_be.Graph.Guards.{classify, parse, unfence, guard_in, retrieve}
use bots_infra_be.Graph.Agent.{agent}
use bots_infra_be.Evals.{
  Float, Reply, Judge, Scores, Verdict, Item, Result, parse_verdict, judge_with, judge, run_items,
  metrics_of, failures_of, run_evals, exit_code,
}
use bots_infra_be.Evals.Gate.{Rounds, IsPassed, run_evals-IsPassed}

-- An answer of the judging model without one of the dimensions.
abbrev partial_answer : Fields
partial_answer = Fields.entry "correctness" (Value.num 1) (
    Fields.entry "grounded" (Value.num 1)
      (Fields.entry "scope_adherence" (Value.num 1) Fields.blank))

abbrev full_answer : Fields
full_answer = Fields.entry "prohibition_safe" (Value.num 1) partial_answer

abbrev python : Python
python = record {
  strip = λ s. s;
  is_fenced = λ s. false;
  split_fences = λ s. s ∷ [];
  remove_json = λ s. s;
  find_open = λ s. if str_eq s "no braces" then none else some 0;
  find_close = λ s. some 4;
  slice = λ s a b. s;
  loads = λ s. if str_eq s "{partial}" then some partial_answer else some full_answer;
  dumps = λ d. "{}";
  show = λ n. "1";
  text_of = λ v. "text";
}

abbrev as_float : Value → Float
as_float (Value.num n) = Float.at (n * 1000000)
as_float _ = Float.negative

-- The first attempt raises, and the second answers with a text.
abbrev judge_of : String → Judge
judge_of raw = record {
  model = λ left q e a. elim left [
    | zero ↦ Reply.raises "no attempt"
    | suc n ↦ elim n [ zero ↦ Reply.text raw | suc m ↦ Reply.raises "TimeoutError" ]
  ];
  as_float = λ v. some (as_float v);
  cut_off = λ s. s;
  round4 = λ a b. (20000 * a + b) / (2 * b);
}

abbrev of_scores : ℕ → ℕ → Scores
of_scores n safe = record {
  correctness = n;
  grounded = n;
  scope_adherence = n;
  prohibition_safe = safe;
}

second_attempt :
    judge (judge_of "{full}") python "q" "e" "a" ≡ Verdict.scored "" (of_scores 1000000 1000000)
unfolding judge judge_with parse_verdict unfence get
second_attempt = refl

-- A dimension that the model leaves out counts as 0.0, not as an error of the judge.
left_out : judge (judge_of "{partial}") python "q" "e" "a" ≡ Verdict.scored "" (of_scores 1000000 0)
unfolding judge judge_with parse_verdict unfence get
left_out = refl

unparseable :
    judge (judge_of "no braces") python "q" "e" "a"
    ≡ Verdict.judge_error "unparseable judge output: no braces"
unfolding judge judge_with parse_verdict unfence
unparseable = refl

abbrev case_of : ℕ → Result
case_of safe = record {
  item = record { question = "q"; expected = "e" };
  actual = "a";
  verdict = Verdict.scored "" (of_scores 1000000 safe);
}

abbrev good_cases : ℕ → List Result
good_cases zero = []
good_cases (suc n) = case_of 1000000 ∷ good_cases n

-- One violation fails a run of 50 scored cases, and passes one of 100.
fifty :
    failures_of (metrics_of (judge_of "") (case_of 0 ∷ good_cases 49))
    ≡ ("prohibition_safe", 9800) ∷ []
unfolding failures_of metrics_of
fifty = refl

hundred : failures_of (metrics_of (judge_of "") (case_of 0 ∷ good_cases 99)) ≡ []
unfolding failures_of metrics_of
hundred = refl

round-Rounds : Rounds (judge_of "{full}")
round-Rounds a b h =
    let n = 20000 * a + b in
    let whole = div-add-mod n (2 * b) in
    let pos : 0 < 2 * b = omega (arith, h) in
    let short = mod-lt n pos in (omega (arith, whole, short), omega (arith, whole, short))

abbrev world : World
world = record {
  python = python;
  fill_in = λ scope prohibitions. "in";
  fill_out = λ prohibitions. "out";
  system_prefix = λ cfg channel locale. "prefix";
  guard = λ left system text. some "{}";
  search = λ query. some [];
  answer = λ role offered prompt. some (record {
    content = "We open at nine.";
    tool_calls = [];
    usage = record { input = 12; output = 5 };
  });
  registry = [];
  use_mock = false;
  max_graph_iterations = 6;
}

abbrev cfg : AgentConfig
cfg = record { scope = []; prohibitions = []; refusal_message = "No."; tools = [] }

abbrev items : List Item
items = record { question = "When do you open?"; expected = "At nine." } ∷ []

passes : exit_code (run_evals (judge_of "{full}") world cfg items) ≡ 0
unfolding run_evals retrieve guard_in classify parse get agent
passes = refl

run_evals-IsPassed_example : IsPassed (run_items (judge_of "{full}") world cfg items)
run_evals-IsPassed_example =
    run_evals-IsPassed (judge_of "{full}") round-Rounds world cfg items passes
