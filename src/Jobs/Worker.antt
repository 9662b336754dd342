-- ===== src/Jobs/Worker.antt =====
-- One pass of `loop` in app/rag/worker.py over the queue, and runs of the worker.
use bots_infra_be.Common.{ℕ, ◌+◌, none, some, List, [], ◌∷◌, leb, if◌then◌else◌}
use bots_infra_be.Jobs.{
  Status, Job, Queue, claim, finish, retry, backoff, update_where, max_attempts,
}
use bots_infra_be.Jobs.Handle.{Effects, Handled, settled, handle}

-- What is written back for a claimed row: the handler's status, or after an exception `failed` at the
-- last attempt and a retry before it. `now` is the time at which the retry is planned.
unfoldable pub resolve : ℕ → Job → Handled → Job → Job
resolve now j (settled s e) = finish s e
resolve now j (Handled.raised e) =
    if leb max_attempts j.attempts
    then finish Status.failed e
    else retry e (now + backoff j.attempts)

-- Claim a row, handle it, write the outcome. Without a due row the worker sleeps.
unfoldable pub work : Effects → ℕ → Queue → Queue
unfolding claim resolve update_where
work fx now q =
    let (claimed, q') = claim now q in
    elim claimed [ none ↦ q' | some j ↦ update_where j.id (resolve now j (handle fx j)) q' ]

-- Passes of the worker, each with its time and with the answers that the world gives at that pass.
abbrev pub Passes : Type 0
Passes = List (ℕ × Effects)

-- The passes, one after the other.
unfoldable pub work_at : Passes → Queue → Queue
work_at [] q = q
work_at ((now, fx) ∷ passes) q = work_at passes (work fx now q)

-- How many of these passes claim a row.
unfoldable pub claims_at : Passes → Queue → ℕ
claims_at [] q = 0
claims_at ((now, fx) ∷ passes) q =
    (elim (claim now q).0 [ none ↦ 0 | some j ↦ 1 ]) + claims_at passes (work fx now q)
