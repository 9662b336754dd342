-- ===== src/RateLimit/Examples.antt =====
-- Runs of the rate limiter, and the theorems at concrete inputs.
use bots_infra_be.Common.{◌+◌, ◌-◌, ◌*◌, ◌≤◌, ◌≡◌, refl, true, false, List, [], ◌∷◌, arith}
use bots_infra_be.Common.Dict.{get, put, pop, pop_all, keys_where}
use bots_infra_be.RateLimit.{Request, token, make, allow, serve, per_session}
use bots_infra_be.RateLimit.Spec.{full, admit_all}
use bots_infra_be.RateLimit.Sweep.{serve-eq-admit_all}
use bots_infra_be.RateLimit.Bound.{count_for, count_for-serve-le}

-- Seven calls at once from one session: the burst of six passes, the seventh does not. A call of
-- another session 20 minutes later sweeps the idle bucket, and the first starts afresh.
abbrev burst_of_seven : List Request
burst_of_seven =
    ("s", 0)
    ∷ ("s", 0)
    ∷ ("s", 0)
    ∷ ("s", 0)
    ∷ ("s", 0)
    ∷ ("s", 0)
    ∷ ("s", 0)
    ∷ ("t", 1200000)
    ∷ ("s", 1200001)
    ∷ []

serve_burst :
    (serve per_session burst_of_seven).0
    ≡ true ∷ true ∷ true ∷ true ∷ true ∷ true ∷ false ∷ true ∷ true ∷ []
unfolding serve allow make get put pop pop_all keys_where
serve_burst = refl

serve-eq-admit_all_example :
    (serve (make 12 6 0) burst_of_seven).0
    ≡ (admit_all 12 (6 * token) (full (6 * token)) burst_of_seven).0
serve-eq-admit_all_example =
    serve-eq-admit_all 12 6 0 burst_of_seven (omega arith) (omega arith) (omega arith)

abbrev minute : List Request
minute = ("s", 1000) ∷ ("u", 30000) ∷ ("s", 60000) ∷ []

count_for-serve-le_example :
    count_for "s" minute (serve (serve (make 12 6 0) (("s", 0) ∷ [])).1 minute).0 * token
    ≤ 6 * token + (60000 - 500) * 12
count_for-serve-le_example =
    count_for-serve-le 12 6 0 500 60000 "s" (("s", 0) ∷ []) minute (omega arith) (omega arith)
      (omega arith) (omega arith) (omega arith) (omega arith)
