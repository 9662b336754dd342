-- ===== src/Booking.antt =====
-- The appointment tools: app/tools/booking.py. The search for availability in Search, the booking in
-- Book. Times are seconds; a wall time is one of the location's zone.
--
-- The calendar of app/integrations/google_calendar.py is reached through `Calendar`: what the remote
-- side answers, with `none` for the errors that the tools catch.
pub mod Search
pub mod Book
pub mod Booked
mod Examples
use bots_infra_be.Common.{ℕ, Bool, String, Option, List}
use bots_infra_be.Scheduling.{Range}

pub record Event : Type 0 where
  pub start : ℕ
  pub end : ℕ
  pub summary : String
  pub attendee : String

pub record Calendar : Type 0 where
  pub free_busy : (start end : ℕ) → Option (List Range)
  pub insert_event : Event → Option String
