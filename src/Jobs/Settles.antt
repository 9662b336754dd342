-- ===== src/Jobs/Settles.antt =====
-- The worker gets through every queue: passes that are spaced by more than the longest backoff leave no
-- row pending.
use bots_infra_be.Common.{ℕ, ◌+◌, ◌≤◌, ◌≡◌, true, false, [], ◌∷◌}
use bots_infra_be.Jobs.{Job, is_pending}
use bots_infra_be.Jobs.Worker.{Passes}

-- Sixteen minutes.
abbrev pub longest_backoff : ℕ
longest_backoff = 960

-- Each time is at least the longest backoff after the one before it.
abbrev pub Spaced : ℕ → Passes → Type 0
Spaced t [] = Unit
Spaced t ((now, fx) ∷ passes) = (t + longest_backoff ≤ now) × Spaced now passes

-- A pending row is due at `t + longest_backoff`.
abbrev pub DueBy : ℕ → Job → Type 0
DueBy t j = is_pending j.status ≡ true → j.run_after ≤ t + longest_backoff

-- No row waits for the worker.
abbrev pub IsSettled : Job → Type 0
IsSettled j = is_pending j.status ≡ false
