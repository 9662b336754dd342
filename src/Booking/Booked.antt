-- ===== src/Booking/Booked.antt =====
-- What a booking leaves behind.
use mathlib.Core.List.{◌++◌}
use bots_infra_be.Common.{
  if-intro, ℕ, ◌+◌, ◌≤◌, ◌≡◌, refl, String, Option, none, some, List, [], ◌∷◌, ltb, arith,
}
use bots_infra_be.Booking.{Event, Calendar}
use bots_infra_be.Reminders.{ReminderCfg}
use bots_infra_be.Reminders.Plan.{Table, IsUnique, plan_for_appointment-IsUnique}
use bots_infra_be.Booking.Book.{
  Args, Appointment, Texts, Context, Store, Source, Booked, Result, local, google,
  local_after_calendar_error, refused, booked, event_of, answered, add_event, appointment_of, plan,
  is_not_google, book_at, book_from, book_real,
}

module _ (texts : Texts) where
  -- What an event of a source leaves: the event was sent and accepted, sent and refused, or there is no
  -- calendar.
  abbrev pub IsTold : Option Calendar → Event → Source → List Event → Type 0
  IsTold calendar event local events = (calendar ≡ none) × (events ≡ [])
  IsTold calendar event google events =
      (c : Calendar) × (ref : String) × (calendar ≡ some c)
      × (c.insert_event event ≡ some ref)
      × (events ≡ event ∷ [])
  IsTold calendar event local_after_calendar_error events =
      (c : Calendar) × (calendar ≡ some c) × (c.insert_event event ≡ none) × (events ≡ event ∷ [])

  answered-IsTold :
      (c : Calendar) (event : Event) (answer : Option String)
      → c.insert_event event ≡ answer
      → let ((ref, source), events) = answered texts event answer in
        IsTold (some c) event source events
  answered-IsTold c event none e = (c, refl, e, refl)
  answered-IsTold c event (some ref) e = (c, ref, refl, e, refl)

  add_event-IsTold :
      (calendar : Option Calendar) (event : Event)
      → let ((ref, source), events) = add_event texts calendar event in
        IsTold calendar event source events
  unfolding add_event
  add_event-IsTold none event = (refl, refl)
  add_event-IsTold (some c) event = answered-IsTold c event (c.insert_event event) refl

  plan-IsUnique :
      (ctx : Context) (now starts_at : ℕ) (cfg : Option ReminderCfg) (t : Table)
      → IsUnique t
      → IsUnique (plan texts ctx now starts_at cfg t)
  unfolding plan
  plan-IsUnique ctx now starts_at none t u = u
  plan-IsUnique ctx now starts_at (some cfg) t u = (plan_for_appointment-IsUnique now _ cfg t u).0

  -- What a booking leaves behind.
  pub record IsKept (ctx : Context) (now : ℕ) (before after : Store) (answer : Booked)
      : Type 0 where
    pub row : Appointment
    pub event : Event
    pub events : List Event
    pub fresh_enough : now ≤ answer.starts_at + 300
    pub added : after.appointments ≡ before.appointments ++ row ∷ []
    pub sent : after.sent ≡ before.sent ++ events
    pub for_tenant : row.tenant ≡ ctx.tenant
    pub in_conversation : row.conversation ≡ ctx.conversation
    pub at_time : row.starts_at ≡ answer.starts_at
    pub same_time : event.start ≡ answer.starts_at
    pub one_slot : event.end ≡ answer.starts_at + ctx.slot
    pub named : row.external_ref ≡ answer.confirmation
    pub told : IsTold ctx.calendar event answer.source events
    pub noted : answer.note ≡ is_not_google texts answer.source
    pub one_each : IsUnique after.reminders

  -- An answer of either kind.
  abbrev pub IsAnswered : Context → ℕ → Store → Result → Store → Type 0
  IsAnswered ctx now before (refused e) after = after ≡ before
  IsAnswered ctx now before (booked answer) after = IsKept ctx now before after answer

  book_at-IsKept :
      (ctx : Context) (now : ℕ) (args : Args) (starts_at : ℕ) (store : Store)
      → now ≤ starts_at + 300
      → IsUnique store.reminders
      → let (result, after) = book_at texts ctx now args starts_at store in
        IsAnswered ctx now store result after
  unfolding book_at appointment_of
  book_at-IsKept ctx now args starts_at store le unique =
      let event = event_of texts ctx args starts_at in
      let ((ref, source), events) = add_event texts ctx.calendar event in
      record {
        row = appointment_of texts ctx args starts_at ref;
        event = event;
        events = events;
        fresh_enough = le;
        added = refl;
        sent = refl;
        for_tenant = refl;
        in_conversation = refl;
        at_time = refl;
        same_time = refl;
        one_slot = refl;
        named = refl;
        told = add_event-IsTold ctx.calendar event;
        noted = refl;
        one_each = plan-IsUnique ctx now starts_at ctx.reminders store.reminders unique;
      }

  book_from-IsAnswered :
      (ctx : Context) (now : ℕ) (args : Args) (start : Option ℕ) (store : Store)
      → IsUnique store.reminders
      → let (result, after) = book_from texts ctx now args start store in
        IsAnswered ctx now store result after
  unfolding book_from
  book_from-IsAnswered ctx now args none store unique = refl
  book_from-IsAnswered ctx now args (some starts_at) store unique =
      if-intro (λ (result, after). IsAnswered ctx now store result after)
        (ltb (starts_at + 300) now) _ _ (λ past. refl)
        (λ ahead. book_at-IsKept ctx now args starts_at store (ground (arith, ahead)) unique)

  -- Let no rule of an appointment have two reminders. A booking that is refused changes nothing. One
  -- that is confirmed starts no more than five minutes ago, and adds one row, of this tenant,
  -- conversation and time, whose reference is the confirmation; it is said to be in the calendar, and
  -- carries no note, exactly where the calendar has accepted an event of one slot at that time; and
  -- still no rule of an appointment has two reminders.
  pub book_real-IsAnswered :
      (ctx : Context) (now : ℕ) (args : Args) (store : Store)
      → IsUnique store.reminders
      → let (result, after) = book_real texts ctx now args store in
        IsAnswered ctx now store result after
  unfolding book_real
  book_real-IsAnswered ctx now args store unique =
      book_from-IsAnswered ctx now args (texts.parse_iso_aware args.starts_at) store unique
