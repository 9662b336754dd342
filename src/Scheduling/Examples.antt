-- ===== src/Scheduling/Examples.antt =====
-- A search for slots, and the theorem at a concrete input. The zone is UTC; the day 0 is a Thursday.
use bots_infra_be.Common.{
  ◌≡◌, refl, max, String, str_eq, Option, none, some, [], ◌∷◌, take, ◌==◌, if◌then◌else◌,
}
use bots_infra_be.Common.Dict.{get}
use bots_infra_be.Scheduling.{Zone, Clock, parse_ranges, parse_ranges_wrapping, day_windows}
use bots_infra_be.Scheduling.Slots.{Search, candidate_starts}
use bots_infra_be.Scheduling.Open.{open_slots, candidate_starts-eq-take}
use bots_infra_be.Scheduling.Busy.{subtract_busy, overlaps}

abbrev zone : Zone
zone = record { instant = λ t. t; wall = λ t. t }

abbrev cut_dash : String → Option (String × String)
cut_dash s =
    if str_eq s "09:00-11:00"
    then some ("09:00", "11:00")
    else if str_eq s "11:00-09:00"
    then some ("11:00", "09:00")
    else none

abbrev clock : Clock
clock = record {
  cut_dash = cut_dash;
  split_colons = λ s. if str_eq s "09:00" then "09" ∷ "00" ∷ [] else "11" ∷ "00" ∷ [];
  strip = λ s. s;
  to_int = λ s. if str_eq s "09" then some 9 else if str_eq s "11" then some 11 else some 0;
  isoformat = λ day. if day == 0 then "1970-01-01" else "1970-01-08";
}

abbrev search : Search
search = record {
  hours = ("thu", "09:00-11:00" ∷ "soon" ∷ []) ∷ [];
  closed_dates = [];
  horizon_days = 8;
  slot = 3600;
  slot_step = 1800;
  lead_time = 7200;
  max_slots = 2;
}

-- At 07:30 with a lead of two hours, 09:30 and 10:00.
slots : candidate_starts clock zone search 27000 ≡ 34200 ∷ 36000 ∷ []
unfolding candidate_starts day_windows get
slots = refl

-- At 08:30, the last slot of this Thursday is too early, and the search goes on to the next one.
next_week : candidate_starts clock zone search 30600 ≡ 637200 ∷ 639000 ∷ []
unfolding candidate_starts day_windows get
next_week = refl

-- An inverted range is dropped, unless it may wrap.
inverted : parse_ranges clock ("11:00-09:00" ∷ "soon" ∷ "09:00-11:00" ∷ []) ≡ (32400, 39600) ∷ []
unfolding parse_ranges
inverted = refl

wrapping : parse_ranges_wrapping clock ("11:00-09:00" ∷ []) ≡ (39600, 32400) ∷ []
unfolding parse_ranges_wrapping
wrapping = refl

-- A block that ends where a slot begins meets it only through the buffer.
busy : subtract_busy zone 3600 600 (34200 ∷ 36000 ∷ []) ((30600, 34200) ∷ []) ≡ 36000 ∷ []
unfolding subtract_busy overlaps
busy = refl

candidate_starts-eq-take_example :
    candidate_starts clock zone search 27000
    ≡ take (max 1 2) (open_slots zone search 34200 clock 8 0)
candidate_starts-eq-take_example = candidate_starts-eq-take clock zone search 27000
