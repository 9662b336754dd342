-- ===== src/Reminders/Sweep.antt =====
-- `send_due`, turn by turn, with the claim, the checks at send time, and the retry.
use bots_infra_be.Common.{
  ℕ, ◌+◌, Bool, true, false, not, ◌&&◌, String, str_eq, Option, none, some, List, [], ◌∷◌, leb,
  if◌then◌else◌,
}
use bots_infra_be.Common.Rows.{update_where, oldest}
use bots_infra_be.Email.{Texts, clean_recipients}
use bots_infra_be.Reminders.{Status, Reminder}
use bots_infra_be.Reminders.Plan.{Table}

-- The columns of an appointment that the sweep reads.
pub record Appointment : Type 0 where
  pub status : String
  pub starts_at : ℕ
  pub email : String

-- Where a turn raises, if it does: before a mail is queued, or in `_finish`.
pub data Fault : Type 0 where
  clear : Fault
  early late : String → Fault

-- What one turn of the loop meets: the time, the live appointments, and a fault.
pub record World : Type 0 where
  pub now : ℕ
  pub appointment : ℕ → Option Appointment
  pub texts : Texts
  pub fault : Fault

pub record Tally : Type 0 where
  pub sent : ℕ
  pub cancelled : ℕ
  pub failed : ℕ
  pub skipped : ℕ

-- The reminders, the mails that were queued (by the ids of their reminders, last first), the tally.
pub record State : Type 0 where
  pub table : Table
  pub mails : List ℕ
  pub tally : Tally

abbrev pub is_planned : Status → Bool
is_planned Status.planned = true
is_planned _ = false

-- `WHERE status = 'planned' AND send_at <= now()`
unfoldable pub is_due : ℕ → Reminder → Bool
is_due now r = is_planned r.status && leb r.send_at now

abbrev pub start : Reminder → Reminder
start r = record r { status = Status.sending; attempts = r.attempts + 1 }

-- `_finish`
abbrev pub finish : ℕ → Status → String → Reminder → Reminder
finish now s e r = record r {
  status = s;
  last_error = e;
  sent_at = elim s [ Status.sent ↦ some now | _ ↦ r.sent_at ];
}

-- The update of the `except` branch before the last attempt: again in ten minutes.
abbrev pub retry : ℕ → String → Reminder → Reminder
retry now e r = record r { status = Status.planned; last_error = e; send_at = now + 600 }

-- What the `try` block comes to: the row's end, with its column of the tally, or an exception.
pub data Outcome : Type 0 where
  ended : Status → String → Outcome
  raised : String → Outcome

pub data Decision : Type 0 where
  cancel : String → Decision
  mail : Decision
  skip : Decision

-- The checks against the live row, and whether `enqueue_email` finds a recipient.
unfoldable pub decide_send : World → Option Appointment → Decision
decide_send w none = cancel "appointment no longer booked"
decide_send w (some a) =
    if not (str_eq a.status "booked")
    then cancel "appointment no longer booked"
    else if leb a.starts_at w.now
    then cancel "appointment already started"
    else elim (clean_recipients w.texts (a.email ∷ [])) [ [] ↦ skip | to ∷ rest ↦ mail ]

-- The `_finish` that follows, which a late fault stops.
abbrev pub recorded : Fault → Status → String → Outcome
recorded (late e) s text = raised e
recorded _ s text = ended s text

abbrev pub end_of : Fault → Decision → Outcome
end_of f (cancel why) = recorded f Status.cancelled why
end_of f mail = recorded f Status.sent ""
end_of f skip = recorded f Status.failed "no valid recipient"

-- The `try` block: whether a mail was queued, and how it ends.
unfoldable pub attempt : World → Reminder → Bool × Outcome
unfolding decide_send
attempt w r = elim w.fault [
  | early e ↦ (false, raised e)
  | clear ↦ (
    elim (decide_send w (w.appointment r.appointment)) [ mail ↦ true | _ ↦ false ],
    end_of clear (decide_send w (w.appointment r.appointment)),
  )
  | late e ↦ (
    elim (decide_send w (w.appointment r.appointment)) [ mail ↦ true | _ ↦ false ],
    end_of (late e) (decide_send w (w.appointment r.appointment)),
  )
]

-- What is written back for a claimed row.
unfoldable pub resolve : ℕ → Reminder → Outcome → Reminder → Reminder
resolve now r (ended s e) = finish now s e
resolve now r (raised e) = if leb 3 r.attempts then finish now Status.failed e else retry now e

unfoldable pub count_outcome : Reminder → Outcome → Tally → Tally
count_outcome r (ended Status.sent e) t = record t { sent = t.sent + 1 }
count_outcome r (ended Status.cancelled e) t = record t { cancelled = t.cancelled + 1 }
count_outcome r (ended _ e) t = record t { skipped = t.skipped + 1 }
count_outcome r (raised e) t = if leb 3 r.attempts then record t { failed = t.failed + 1 } else t

-- A turn that has claimed a row.
unfoldable pub send_claimed : World → Reminder → State → State
unfolding attempt resolve count_outcome
send_claimed w r s =
    let (mailed, outcome) = attempt w r in
    record {
      table = update_where (λ x. x.id) r.id (resolve w.now r outcome) s.table;
      mails = if mailed then r.id ∷ s.mails else s.mails;
      tally = count_outcome r outcome s.tally;
    }

-- One turn: `none` where nothing is due, which ends the loop.
unfoldable pub send_one : World → State → Option State
unfolding send_claimed is_due
send_one w s = elim (oldest (is_due w.now) (λ x. x.send_at) s.table) [
  | none ↦ none
  | some r ↦
      some (
        send_claimed w (start r) (record s { table = update_where (λ x. x.id) r.id start s.table }))
]

-- `send_due`: a turn for each world, as many as `limit`, and `break` where nothing is due.
unfoldable pub send_due : List World → State → State
unfolding send_one
send_due [] s = s
send_due (w ∷ worlds) s = elim (send_one w s) [ none ↦ s | some s' ↦ send_due worlds s' ]
