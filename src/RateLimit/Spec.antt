-- ===== src/RateLimit/Spec.antt =====
-- The token bucket as a textbook has it: one bucket for each key, full at the start, never dropped.
use bots_infra_be.Common.{ℕ, Bool, String, str_eq, List, [], ◌∷◌, if◌then◌else◌}
use bots_infra_be.RateLimit.{Bucket, Request, refill, take_token}

abbrev pub Buckets : Type 0
Buckets = String → Bucket

abbrev pub full : ℕ → Buckets
full burst key = record { tokens = burst; updated = 0 }

abbrev pub update : Buckets → String → Bucket → Buckets
update m key b j = if str_eq key j then b else m j

unfoldable pub admit : ℕ → ℕ → Buckets → String → ℕ → Bool × Buckets
admit rate burst m key now =
    let (answer, b) =
      take_token now (record { tokens = refill rate burst (m key) now; updated = now }) in
    (answer, update m key b)

unfoldable pub admit_all : ℕ → ℕ → Buckets → List Request → List Bool × Buckets
admit_all rate burst m [] = ([], m)
admit_all rate burst m ((key, now) ∷ rest) =
    let (answer, m') = admit rate burst m key now in
    let (answers, m'') = admit_all rate burst m' rest in (answer ∷ answers, m'')
