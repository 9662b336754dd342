-- ===== src/Reminders/Examples.antt =====
-- Reminders at work, and the theorems at concrete inputs. A working day begins at local second 0 here.
use bots_infra_be.Common.{
  ℕ, ◌+◌, ◌%◌, ◌*◌, ◌≤◌, ◌<◌, ◌≡◌, refl, String, true, false, ◌⊎◌, none, some, List, [], ◌∷◌,
  length, arith,
}
use bots_infra_be.Email.{Texts, clean_recipients, valid_email}
use bots_infra_be.Reminders.{Status, Reminder, Range, ReminderCfg}
use bots_infra_be.Reminders.Quiet.{in_quiet_hours, shift_out_of_quiet, shift_out_of_quiet_first}
use bots_infra_be.Reminders.Plan.{
  Booking, IsUnique, plan_for_appointment, plan_for_appointment-IsUnique, plan_for_appointment_idem,
}
use bots_infra_be.Reminders.Sweep.{Fault, World, State, start, decide_send, attempt, send_due}
use bots_infra_be.Reminders.Once.{IsOnce, send_due-IsOnce}

abbrev texts : Texts
texts = record { strip = λ s. s; lower = λ s. s; matches_email = λ s. true }

abbrev second_of_day : ℕ → ℕ
second_of_day t = t % 86400

-- From 20:00 to 08:00.
abbrev night : List Range
night = (72000, 28800) ∷ []

abbrev cfg : ReminderCfg
cfg = record {
  enabled = true;
  rules = record { key = "day"; before = 86400 } ∷ record { key = "hour"; before = 3600 } ∷ [];
  max_per_appointment = 3;
  quiet_hours = night;
}

abbrev visit : Booking
visit = record {
  tenant = 7;
  appointment = 1;
  starts_at = 208800;
  local_time = second_of_day;
  clip = λ s. s;
  fresh = λ s. 5;
}

abbrev reminder : ℕ → String → Reminder
reminder i key = record {
  id = i;
  tenant = 7;
  appointment = 1;
  rule_key = key;
  send_at = 100;
  status = Status.planned;
  attempts = 0;
  sent_at = none;
  last_error = "";
}

abbrev world : ℕ → World
world now = record {
  now = now;
  appointment = λ i. some (record { status = "booked"; starts_at = 208800; email = "a@b.c" });
  texts = texts;
  fault = Fault.clear;
}

abbrev state : State
state = record {
  table = reminder 1 "day" ∷ reminder 2 "hour" ∷ [];
  mails = [];
  tally = record { sent = 0; cancelled = 0; failed = 0; skipped = 0 };
}

shift_out_of_quiet_first_example :
    ((k : ℕ) × (k < 24)
      × (shift_out_of_quiet second_of_day 75000 night ≡ 75000 + k * 3600)
      × (in_quiet_hours second_of_day (shift_out_of_quiet second_of_day 75000 night) night ≡ false)
      × ((i : ℕ) → i < k → in_quiet_hours second_of_day (75000 + i * 3600) night ≡ true))
    ⊎ ((shift_out_of_quiet second_of_day 75000 night ≡ 75000)
        × ((i : ℕ) → i < 24 → in_quiet_hours second_of_day (75000 + i * 3600) night ≡ true))
shift_out_of_quiet_first_example = shift_out_of_quiet_first second_of_day 75000 night

plan_for_appointment-IsUnique_example :
    IsUnique (plan_for_appointment 0 visit cfg []).1
    × (length (plan_for_appointment 0 visit cfg []).1 ≡ 0 + (plan_for_appointment 0 visit cfg []).0)
    × ((plan_for_appointment 0 visit cfg []).0 ≤ 3)
plan_for_appointment-IsUnique_example = plan_for_appointment-IsUnique 0 visit cfg [] tt

plan_for_appointment_idem_example :
    plan_for_appointment 9 visit cfg (plan_for_appointment 0 visit cfg []).1
    ≡ (0, (plan_for_appointment 0 visit cfg []).1)
plan_for_appointment_idem_example = plan_for_appointment_idem 0 9 visit cfg [] (omega arith)

abbrev turns : List World
turns = world 200 ∷ world 300 ∷ world 400 ∷ []

send_due-IsOnce_example : IsOnce (send_due turns state)
send_due-IsOnce_example =
    send_due-IsOnce turns state (tt, (tt, (tt, tt))) (((refl, tt), (tt, tt)), (refl, (refl, tt)))

is_mailed : (attempt (world 200) (start (reminder 1 "day"))).0 ≡ true
unfolding attempt decide_send clean_recipients valid_email
is_mailed = refl
