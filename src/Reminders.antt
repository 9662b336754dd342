-- ===== src/Reminders.antt =====
-- Appointment reminders: app/services/reminders.py. Times are seconds.
--
-- What a time zone makes of an instant (`zoneinfo`) is the argument `local_time`, in seconds of the
-- local day. `hours_before` is a float of hours in the source and a number of seconds here.
pub mod Quiet
pub mod Plan
pub mod Sweep
pub mod Once
mod Examples
use bots_infra_be.Common.{ℕ, Bool, String, Option, List}

pub data Status : Type 0 where
  planned sending sent cancelled failed : Status

-- A row of `reminders`.
pub record Reminder : Type 0 where
  pub id : ℕ
  pub tenant : ℕ
  pub appointment : ℕ
  pub rule_key : String
  pub send_at : ℕ
  pub status : Status
  pub attempts : ℕ
  pub sent_at : Option ℕ
  pub last_error : String

-- A local time of the day range, by its two ends.
abbrev pub Range : Type 0
Range = ℕ × ℕ

pub record ReminderRule : Type 0 where
  pub key : String
  pub before : ℕ

pub record ReminderCfg : Type 0 where
  pub enabled : Bool
  pub rules : List ReminderRule
  pub max_per_appointment : ℕ
  pub quiet_hours : List Range
