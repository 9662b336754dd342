-- ===== src/Booking/Book.antt =====
-- `_book_real`: a calendar event where there is a calendar, the row of the appointment, its reminders.
use mathlib.Core.List.{◌++◌}
use bots_infra_be.Common.{
  ℕ, ◌+◌, Bool, true, false, String, str_eq, Option, none, some, List, [], ◌∷◌, ltb, if◌then◌else◌,
}
use bots_infra_be.Booking.{Event, Calendar}
use bots_infra_be.Reminders.{ReminderCfg}
use bots_infra_be.Reminders.Plan.{Table, plan_for_appointment}

-- The arguments that the model gives, with `""` for a missing one.
pub record Args : Type 0 where
  pub starts_at : String
  pub name : String
  pub phone : String
  pub service : String
  pub email : String
  pub vehicle : String

-- A row of `appointments`.
pub record Appointment : Type 0 where
  pub id : ℕ
  pub tenant : ℕ
  pub location : Option ℕ
  pub conversation : ℕ
  pub starts_at : ℕ
  pub service : String
  pub name : String
  pub phone : String
  pub email : String
  pub external_ref : String

-- `parse_iso_aware`, `text[:n]`, `strip`, the match of `_EMAIL`, the two texts of an event, and
-- `str(id)[:8].upper()`.
pub record Texts : Type 0 where
  pub parse_iso_aware : String → Option ℕ
  pub clip : ℕ → String → String
  pub strip : String → String
  pub matches_email : String → Bool
  pub summary : (service name : String) → String
  pub short_ref : ℕ → String

-- What a call runs in. `reminders` is `none` where the configuration does not validate, so that nothing is
-- planned; a database error between two reminders, each of which has its own session, is left out. `id` is
-- the id of the new row.
pub record Context : Type 0 where
  pub tenant : ℕ
  pub location : Option ℕ
  pub conversation : ℕ
  pub slot : ℕ
  pub calendar : Option Calendar
  pub reminders : Option ReminderCfg
  pub local_time : ℕ → ℕ
  pub fresh : String → ℕ
  pub id : ℕ

-- The tables, and the events that were sent to the calendar.
pub record Store : Type 0 where
  pub appointments : List Appointment
  pub reminders : Table
  pub sent : List Event

pub data Source : Type 0 where
  local google local_after_calendar_error : Source

pub record Booked : Type 0 where
  pub confirmation : String
  pub starts_at : ℕ
  pub source : Source
  pub note : Bool

pub data Result : Type 0 where
  refused : String → Result
  booked : Booked → Result

module _ (texts : Texts) where
  unfoldable pub safe_email : String → String
  safe_email raw = if texts.matches_email (texts.strip raw) then texts.strip raw else ""

  -- `text or default`
  abbrev pub or_else : String → String → String
  or_else text default = if str_eq text "" then default else text

  abbrev pub event_of : Context → Args → ℕ → Event
  event_of ctx args starts_at = record {
    start = starts_at;
    end = starts_at + ctx.slot;
    summary =
        texts.summary (or_else (texts.clip 120 args.service) "Appointment")
          (or_else (texts.clip 120 args.name) "Customer");
    attendee = safe_email args.email;
  }

  abbrev pub answered : Event → Option String → (String × Source) × List Event
  answered event none = (("", local_after_calendar_error), event ∷ [])
  answered event (some ref) = ((ref, google), event ∷ [])

  -- The reference and the source, and the events that were sent.
  unfoldable pub add_event : Option Calendar → Event → (String × Source) × List Event
  add_event none event = (("", local), [])
  add_event (some calendar) event = answered event (calendar.insert_event event)

  unfoldable pub appointment_of : Context → Args → ℕ → String → Appointment
  unfolding safe_email
  appointment_of ctx args starts_at ref = record {
    id = ctx.id;
    tenant = ctx.tenant;
    location = ctx.location;
    conversation = ctx.conversation;
    starts_at = starts_at;
    service = texts.clip 120 args.service;
    name = texts.clip 120 args.name;
    phone = texts.clip 40 args.phone;
    email = safe_email args.email;
    external_ref = or_else ref (texts.short_ref ctx.id);
  }

  unfoldable pub plan : Context → ℕ → ℕ → Option ReminderCfg → Table → Table
  plan ctx now starts_at none t = t
  plan ctx now starts_at (some cfg) t =
      (plan_for_appointment now
        (record {
          tenant = ctx.tenant;
          appointment = ctx.id;
          starts_at = starts_at;
          local_time = ctx.local_time;
          clip = texts.clip 48;
          fresh = ctx.fresh;
        })
        cfg t).1

  abbrev pub is_google : Source → Bool
  is_google google = true
  is_google _ = false

  abbrev pub is_not_google : Source → Bool
  is_not_google google = false
  is_not_google _ = true

  -- From the call of the calendar on.
  unfoldable pub book_at : Context → ℕ → Args → ℕ → Store → Result × Store
  unfolding add_event appointment_of plan
  book_at ctx now args starts_at store =
      let ((ref, source), events) = add_event ctx.calendar (event_of ctx args starts_at) in
      let row = appointment_of ctx args starts_at ref in
      (
        booked (record {
          confirmation = row.external_ref;
          starts_at = starts_at;
          source = source;
          note = is_not_google source;
        }),
        record {
          appointments = store.appointments ++ row ∷ [];
          reminders = plan ctx now starts_at ctx.reminders store.reminders;
          sent = store.sent ++ events;
        },
      )

  -- A start may lie five minutes back.
  unfoldable pub book_from : Context → ℕ → Args → Option ℕ → Store → Result × Store
  unfolding book_at
  book_from ctx now args none store = (refused "starts_at must be an ISO-8601 datetime", store)
  book_from ctx now args (some starts_at) store =
      if ltb (starts_at + 300) now
      then (refused "that time is in the past", store)
      else book_at ctx now args starts_at store

  -- `_book_real`
  unfoldable pub book_real : Context → ℕ → Args → Store → Result × Store
  unfolding book_from
  book_real ctx now args store = book_from ctx now args (texts.parse_iso_aware args.starts_at) store
