-- ===== src/Jobs/Examples.antt =====
-- The queue at work, and the theorems at concrete inputs.
use bots_infra_be.Common.{
  ◌⊎◌, false, ℕ, ◌+◌, ◌≤◌, ◌≡◌, refl, true, none, some, List, [], ◌∷◌, All, arith, leb, map,
  if◌then◌else◌,
}
use bots_infra_be.Common.Json
use bots_infra_be.Common.Json.{Value}
use bots_infra_be.Email.{Texts}
use bots_infra_be.Jobs.{Status, Job, Queue, new_job, claim, next_due, is_due, update_where, backoff}
use bots_infra_be.Jobs.Handle.{Effects, Response, handle}
use bots_infra_be.Jobs.Worker.{resolve, work, work_at, claims_at, Passes}
use bots_infra_be.Jobs.Claim.{Distinct}
use bots_infra_be.Jobs.Attempts.{IsSound, total, work_at_bounds}
use bots_infra_be.Jobs.Final.{find, work_at-find}
use bots_infra_be.Jobs.Retention.{
  RetentionTenant, keeps_window, purge_count, schedule, schedule-IsScheduled,
}

abbrev texts : Texts
texts = record { strip = λ s. s; lower = λ s. s; matches_email = λ s. true }

-- Every webhook is answered by 500 and every purge succeeds.
abbrev effects : Effects
effects = record {
  texts = texts;
  ingest = λ tenant url pages. some "TimeoutError";
  purge = λ tenant days. none;
  to_int = λ v. some 30;
  show = λ n. "500";
  post_webhook = λ w. Response.status 500;
  post_mail = λ m. Response.status 200;
  raise_for_status = λ n. if leb 400 n then some "HTTPStatusError" else none;
  has_mail_key = true;
  read_mail = λ p. record { to = []; subject = ""; text = ""; reply_to = "" };
}

abbrev mended : Effects
mended = record effects { post_webhook = λ w. Response.status 200 }

abbrev hook : Json.Fields
hook =
    Json.Fields.entry "url" (Value.str "https://x")
      (Json.Fields.entry "event" (Value.str "lead.captured") Json.Fields.blank)

abbrev purge_job : Job
purge_job = record (new_job 2 (some 7) "retention" Json.Fields.blank 0) {
  status = Status.done;
  attempts = 1;
}

abbrev queue : Queue
queue = new_job 1 (some 7) "webhook" hook 0 ∷ purge_job ∷ []

abbrev refused : List ℕ → Passes
refused times = map (λ now. (now, effects)) times

-- Three passes of refusals, and then the receiver is mended.
abbrev passes : Passes
passes =
    (960, effects)
    ∷ (1920, effects)
    ∷ (2880, effects)
    ∷ (3840, mended)
    ∷ (4800, mended)
    ∷ (5760, mended)
    ∷ (6720, mended)
    ∷ (7680, mended)
    ∷ (8640, mended)
    ∷ (9600, mended)
    ∷ []

queue-Distinct : Distinct queue
queue-Distinct = ((refl, tt), (tt, tt))

queue-IsSound : All IsSound queue
queue-IsSound = ground arith

found_purge : find 2 queue ≡ some purge_job
unfolding find
found_purge = refl

none_held : (i : ℕ) → purge_count i [] ≤ 1
unfolding purge_count
none_held i = omega arith

work_at_bounds_example :
    All IsSound (work_at passes queue)
    × (claims_at passes queue + total (work_at passes queue) ≤ total queue)
work_at_bounds_example = work_at_bounds passes queue queue-Distinct queue-IsSound

work_at-find_example : find 2 (work_at passes queue) ≡ some purge_job
work_at-find_example = work_at-find passes queue 2 purge_job queue-Distinct found_purge refl

abbrev tenants : List RetentionTenant
tenants = record { id = 7; status = "active"; retention_days = 30 } ∷ []

schedule-IsScheduled_example :
    ((i : ℕ) → purge_count i (schedule 5 (λ i. i) tenants []).1 ≤ 1)
    × All
        (λ t. (keeps_window t ≡ false) ⊎ (purge_count t.id (schedule 5 (λ i. i) tenants []).1 ≡ 1))
        tenants
    × (schedule 9 (λ i. i) tenants (schedule 5 (λ i. i) tenants []).1
        ≡ (0, (schedule 5 (λ i. i) tenants []).1))
schedule-IsScheduled_example = schedule-IsScheduled 5 9 (λ i. i) (λ i. i) tenants [] none_held

-- The delivery that is always refused is tried five times, and then given up.
gives_up : claims_at (refused (960 ∷ 1920 ∷ 2880 ∷ 3840 ∷ 4800 ∷ 5760 ∷ 6720 ∷ 7680 ∷ [])) queue ≡ 5
unfolding claims_at work claim next_due is_due update_where handle resolve backoff Json.get
gives_up = refl

-- Refused three times, it is delivered at the fourth attempt, and is not claimed again.
delivers_later : claims_at passes queue ≡ 4
unfolding claims_at work claim next_due is_due update_where handle resolve backoff Json.get
delivers_later = refl
