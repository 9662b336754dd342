-- ===== src/Booking/Examples.antt =====
-- Offers and bookings, and the theorems at concrete inputs. The zone is UTC; the day 0 is a Thursday.
use bots_infra_be.Common.{
  ℕ, ◌≤◌, ◌≡◌, refl, true, false, String, str_eq, none, some, List, [], ◌∷◌, All, length, ltb, keep,
  if◌then◌else◌,
}
use bots_infra_be.Common.Dict.{get}
use bots_infra_be.Scheduling.{Zone, Clock, Range, day_windows}
use bots_infra_be.Scheduling.Slots.{candidate_starts}
use bots_infra_be.Scheduling.Slots
use bots_infra_be.Scheduling.Sound.{IsOpen}
use bots_infra_be.Scheduling.Busy.{subtract_busy, overlaps}
use bots_infra_be.Booking.{Calendar}
use bots_infra_be.Booking.Search.{
  search_real, search_real-IsOpen, IsFree, overfetched, reported, source_of,
}
use bots_infra_be.Booking.Book
use bots_infra_be.Booking.Book.{book_real}
use bots_infra_be.Booking.Booked.{book_real-IsAnswered, IsAnswered}

abbrev zone : Zone
zone = record { instant = λ t. t; wall = λ t. t }

-- Every range is 09:00 to 11:00.
abbrev clock : Clock
clock = record {
  cut_dash = λ s. some ("09:00", "11:00");
  split_colons = λ s. (if str_eq s "09:00" then "09" else "11") ∷ "00" ∷ [];
  strip = λ s. s;
  to_int = λ s. if str_eq s "09" then some 9 else if str_eq s "11" then some 11 else some 0;
  isoformat = λ day. "";
}

abbrev search : Slots.Search
search = record {
  hours = ("thu", "09:00-11:00" ∷ []) ∷ [];
  closed_dates = [];
  horizon_days = 1;
  slot = 3600;
  slot_step = 1800;
  lead_time = 0;
  max_slots = 2;
}

-- A calendar that reports the blocks of a list that meet the window it is asked for.
abbrev blocks_in : List Range → ℕ → ℕ → List Range
blocks_in blocks start end = keep (λ (b0, b1). if ltb b0 end then ltb start b1 else false) blocks

abbrev calendar : List Range → Calendar
calendar blocks = record {
  free_busy = λ start end. some (blocks_in blocks start end);
  insert_event = λ event.
      if ltb 0 (length (blocks_in blocks event.start event.end)) then none else some "event-1";
}

offered : Calendar → ℕ → List ℕ
unfolding search_real candidate_starts day_windows subtract_busy overlaps get
offered cal buffer = (search_real clock zone search buffer (some cal) 0).slots

-- A meeting from 09:30 to 10:00 leaves the slot at 10:00.
one_meeting : offered (calendar ((34200, 36000) ∷ [])) 0 ≡ 36000 ∷ []
unfolding offered
one_meeting = refl

-- A meeting that ends at 09:00, where the first slot begins, is not asked for: the slot at 09:00 is
-- offered, although a buffer of ten minutes is set.
unasked_meeting : offered (calendar ((28800, 32400) ∷ [])) 600 ≡ 32400 ∷ 34200 ∷ []
unfolding offered
unasked_meeting = refl

search_real-IsOpen_example :
    let offer = search_real clock zone search 600 (some (calendar ((34200, 36000) ∷ []))) 0 in
    let answer =
      reported zone 3600
        (some (calendar ((34200, 36000) ∷ [])))
        (candidate_starts clock zone (overfetched search) 0) in
    All
      (λ c. IsOpen clock zone (overfetched search) 0 1 0 c × IsFree zone 3600 600 answer c)
      offer.slots
    × (length offer.slots ≤ 2)
    × (offer.source ≡ source_of answer)
search_real-IsOpen_example =
    search_real-IsOpen clock zone search 600 (some (calendar ((34200, 36000) ∷ []))) 0

abbrev texts : Book.Texts
texts = record {
  parse_iso_aware = λ s. if str_eq s "10:00" then some 36000 else none;
  clip = λ n s. s;
  strip = λ s. s;
  matches_email = λ s. str_eq s "ann@example.org";
  summary = λ service name. service;
  short_ref = λ id. "0000ABCD";
}

abbrev context : List Range → Book.Context
context blocks = record {
  tenant = 7;
  location = none;
  conversation = 3;
  slot = 3600;
  calendar = some (calendar blocks);
  reminders = none;
  local_time = λ t. t;
  fresh = λ s. 5;
  id = 1;
}

abbrev args : String → Book.Args
args start = record {
  starts_at = start;
  name = "Ann";
  phone = "5550100";
  service = "";
  email = "ann@example.org";
  vehicle = "";
}

abbrev empty : Book.Store
empty = record { appointments = []; reminders = []; sent = [] }

-- A booking that the calendar accepts.
accepted :
    (book_real texts (context []) 0 (args "10:00") empty).0
    ≡ Book.Result.booked (record {
      confirmation = "event-1";
      starts_at = 36000;
      source = Book.Source.google;
      note = false;
    })
unfolding book_real
accepted = refl

-- One that it refuses is recorded all the same, and said to be.
recorded :
    (book_real texts (context ((36000, 37000) ∷ [])) 0 (args "10:00") empty).0
    ≡ Book.Result.booked (record {
      confirmation = "0000ABCD";
      starts_at = 36000;
      source = Book.Source.local_after_calendar_error;
      note = true;
    })
unfolding book_real
recorded = refl

past :
    (book_real texts (context []) 36301 (args "10:00") empty).0
    ≡ Book.Result.refused "that time is in the past"
unfolding book_real
past = refl

book_real-IsAnswered_example :
    let (result, after) = book_real texts (context []) 100 (args "10:00") empty in
    IsAnswered texts (context []) 100 empty result after
book_real-IsAnswered_example = book_real-IsAnswered texts (context []) 100 (args "10:00") empty tt
