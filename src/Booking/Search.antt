-- ===== src/Booking/Search.antt =====
-- `_search_real`: the slots that a visitor is offered.
use bots_infra_be.Common.{
  ℕ, refl, ◌+◌, ◌*◌, ◌/◌, ◌≤◌, ◌≡◌, Bool, true, false, Option, none, some, List, [], ◌∷◌, take,
  length, length-take, min, All, All-take, All-map, arith,
}
use bots_infra_be.Scheduling.{Zone, Clock, Range}
use bots_infra_be.Scheduling.Slots.{candidate_starts}
use bots_infra_be.Scheduling.Slots
use bots_infra_be.Scheduling.Sound.{IsOpen, candidate_starts-IsOpen}
use bots_infra_be.Scheduling.Busy.{subtract_busy, subtract_busy-All, collides}
use bots_infra_be.Booking.{Calendar}

-- Where the slots of an offer come from: the opening hours, or a calendar with its busy blocks.
pub data Source : Type 0 where
  hours : Source
  google : List Range → Source

pub record Offer : Type 0 where
  pub slots : List ℕ
  pub source : Source
  pub degraded : Bool

abbrev pub last_or : ℕ → List ℕ → ℕ
last_or c [] = c
last_or c (d ∷ ds) = last_or d ds

-- `overfetch = min(cfg.max_slots * 6, 150)`
abbrev pub overfetched : Slots.Search → Slots.Search
overfetched search = record search { max_slots = min (search.max_slots * 6) 150 }

-- Opening hours that no calendar has confirmed.
abbrev pub provisional : ℕ → List ℕ → Offer
provisional max_slots candidates = record {
  slots = take max_slots candidates;
  source = hours;
  degraded = true;
}

-- The offer, given what the calendar answers.
unfoldable pub offer_of : Zone → Slots.Search → ℕ → List ℕ → Option (List Range) → Offer
offer_of zone search buffer candidates none = provisional search.max_slots candidates
offer_of zone search buffer candidates (some busy) = record {
  slots = take search.max_slots (subtract_busy zone search.slot buffer candidates busy);
  source = google busy;
  degraded = false;
}

-- The slots are asked for between the first candidate and the end of the last.
unfoldable pub ask_calendar : Zone → Slots.Search → ℕ → Option Calendar → List ℕ → Offer
unfolding offer_of
ask_calendar zone search buffer calendar [] = record {
  slots = [];
  source = hours;
  degraded = false;
}
ask_calendar zone search buffer none (c ∷ cs) = provisional search.max_slots (c ∷ cs)
ask_calendar zone search buffer (some calendar) (c ∷ cs) =
    offer_of zone search buffer (c ∷ cs)
      (calendar.free_busy (zone.instant c) (zone.instant (last_or c cs + search.slot)))

unfoldable pub search_real :
    Clock → Zone → Slots.Search → (buffer : ℕ) → Option Calendar → (now : ℕ) → Offer
unfolding ask_calendar
search_real clock zone search buffer calendar now =
    ask_calendar zone search buffer calendar (candidate_starts clock zone (overfetched search) now)

-- The busy blocks that the calendar reports for the candidates: from the first one to the end of the
-- last. `none` where there is no calendar, no candidate or no answer.
abbrev pub reported : Zone → ℕ → Option Calendar → List ℕ → Option (List Range)
reported zone slot none candidates = none
reported zone slot (some calendar) [] = none
reported zone slot (some calendar) (c ∷ cs) =
    calendar.free_busy (zone.instant c) (zone.instant (last_or c cs + slot))

-- No block that the calendar reports collides with a slot and its buffer.
abbrev pub IsFree : Zone → ℕ → ℕ → Option (List Range) → ℕ → Type 0
IsFree zone slot buffer none c = Unit
IsFree zone slot buffer (some busy) c = All (λ b. collides zone slot buffer c b ≡ false) busy

-- What an offer says of its slots: they are the calendar's exactly if it answered.
abbrev pub source_of : Option (List Range) → Source
source_of none = hours
source_of (some busy) = google busy

-- What an offer holds, of candidates with a property and of what the calendar reports.
abbrev Holds : (ℕ → Type 0) → Zone → Slots.Search → ℕ → Option (List Range) → Offer → Type 0
Holds P zone search buffer answer offer =
    All (λ c. P c × IsFree zone search.slot buffer answer c) offer.slots
    × (length offer.slots ≤ search.max_slots)
    × (offer.source ≡ source_of answer)

provisional-Holds :
    (P : ℕ → Type 0) (zone : Zone) (search : Slots.Search) (buffer : ℕ) (candidates : List ℕ)
    → All P candidates
    → Holds P zone search buffer none (provisional search.max_slots candidates)
provisional-Holds P zone search buffer candidates h = (
  All-take _ search.max_slots candidates (All-map P _ (λ c p. (p, tt)) candidates h),
  omega (arith, length-take search.max_slots candidates),
  refl,
)

offer_of-Holds :
    (P : ℕ → Type 0) (zone : Zone) (search : Slots.Search) (buffer : ℕ) (candidates : List ℕ)
    (answer : Option (List Range))
    → All P candidates
    → Holds P zone search buffer answer (offer_of zone search buffer candidates answer)
unfolding offer_of
offer_of-Holds P zone search buffer candidates none h =
    provisional-Holds P zone search buffer candidates h
offer_of-Holds P zone search buffer candidates (some busy) h = (
  All-take _ search.max_slots _ (subtract_busy-All P zone search.slot buffer candidates busy h),
  omega
      (arith, length-take search.max_slots (subtract_busy zone search.slot buffer candidates busy)),
  refl,
)

ask_calendar-Holds :
    (P : ℕ → Type 0) (zone : Zone) (search : Slots.Search) (buffer : ℕ) (calendar : Option Calendar)
    (candidates : List ℕ)
    → All P candidates
    → Holds P zone search buffer
        (reported zone search.slot calendar candidates)
        (ask_calendar zone search buffer calendar candidates)
unfolding ask_calendar
ask_calendar-Holds P zone search buffer none [] h = (tt, omega arith, refl)
ask_calendar-Holds P zone search buffer (some calendar) [] h = (tt, omega arith, refl)
ask_calendar-Holds P zone search buffer none (c ∷ cs) h =
    provisional-Holds P zone search buffer (c ∷ cs) h
ask_calendar-Holds P zone search buffer (some calendar) (c ∷ cs) h =
    offer_of-Holds P zone search buffer (c ∷ cs) _ h

-- Every slot that a visitor is offered is open: it lies a number of steps after the start of a window
-- of the hours of a day of the horizon that is not closed, ends within the window and starts after the
-- lead time; no busy block that the calendar reports between the first candidate and the end of the last
-- meets the slot or its buffer; no more slots are offered than the setting says; and they are said to
-- come from the calendar exactly if it answered.
pub search_real-IsOpen :
    (clock : Clock) (zone : Zone) (search : Slots.Search) (buffer : ℕ) (calendar : Option Calendar)
    (now : ℕ)
    → let offer = search_real clock zone search buffer calendar now in
      let answer =
        reported zone search.slot calendar (candidate_starts clock zone (overfetched search) now) in
      All
        (λ c.
          IsOpen clock zone
            (overfetched search)
            (now + search.lead_time)
            search.horizon_days
            (zone.wall now / 86400)
            c
          × IsFree zone search.slot buffer answer c)
        offer.slots
      × (length offer.slots ≤ search.max_slots)
      × (offer.source ≡ source_of answer)
unfolding search_real
search_real-IsOpen clock zone search buffer calendar now =
    ask_calendar-Holds _ zone search buffer calendar _
      (candidate_starts-IsOpen clock zone (overfetched search) now)
