-- ===== src/Jobs.antt =====
-- The job queue of app/rag/worker.py: rows of `job_queue`, and the statements that change them.
-- Times are seconds. A row is found by its id; ids are compared and nothing else.
pub mod Handle
pub mod Worker
pub mod Claim
pub mod Attempts
pub mod Settles
pub mod Final
pub mod Retention
mod Examples
use bots_infra_be.Common.{
  ℕ, ◌+◌, ◌*◌, ◌≡◌, Bool, true, false, ◌&&◌, String, Option, none, some, List, [], ◌∷◌, min, ltb,
  leb, ◌==◌, if◌then◌else◌,
}
use bots_infra_be.Common.Json

pub data Status : Type 0 where
  pending running done failed : Status

pub record Job : Type 0 where
  pub id : ℕ
  pub tenant : Option ℕ
  pub kind : String
  pub payload : Json.Fields
  pub status : Status
  pub attempts : ℕ
  pub run_after : ℕ
  pub last_error : String

abbrev pub Queue : Type 0
Queue = List Job

abbrev pub max_attempts : ℕ
max_attempts = 5

-- `session.add(JobQueue(…))`: a new row takes the defaults of the columns.
abbrev pub new_job : ℕ → Option ℕ → String → Json.Fields → ℕ → Job
new_job id tenant kind payload now = record {
  id = id;
  tenant = tenant;
  kind = kind;
  payload = payload;
  status = Status.pending;
  attempts = 0;
  run_after = now;
  last_error = "";
}

-- `_backoff`, in seconds.
pub backoff : ℕ → ℕ
backoff attempts = min attempts 4 * min attempts 4 * 60

abbrev pub is_pending : Status → Bool
is_pending Status.pending = true
is_pending _ = false

-- `WHERE status = 'pending' AND run_after <= now()`
pub is_due : ℕ → Job → Bool
is_due now j = is_pending j.status && leb j.run_after now

-- `ORDER BY run_after LIMIT 1`: the earlier of a row and the best of the rows below it.
abbrev pub earlier : Job → Option Job → Job
earlier j none = j
earlier j (some k) = if ltb k.run_after j.run_after then k else j

pub next_due : ℕ → Queue → Option Job
next_due now [] = none
next_due now (j ∷ q) =
    let best = next_due now q in if is_due now j then some (earlier j best) else best

-- `UPDATE job_queue SET … WHERE id = …`
pub update_where : ℕ → (Job → Job) → Queue → Queue
update_where i f [] = []
update_where i f (j ∷ q) = (if j.id == i then f j else j) ∷ update_where i f q

abbrev pub start : Job → Job
start j = record j { status = Status.running; attempts = j.attempts + 1 }

-- `CLAIM`: one atomic statement; it returns the row as it is after the update.
pub claim : ℕ → Queue → Option Job × Queue
claim now q = elim (next_due now q) [
  | none ↦ (none, q)
  | some j ↦ (some (start j), update_where j.id start q)
]

-- `FINISH` and `RETRY`.
abbrev pub finish : Status → String → Job → Job
finish s e j = record j { status = s; last_error = e }

abbrev pub retry : String → ℕ → Job → Job
retry e run_after j = record j { status = Status.pending; last_error = e; run_after = run_after }
