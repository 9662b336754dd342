-- ===== src/Scheduling.antt =====
-- Business hours and slots: app/services/scheduling.py. Ranges of hours here; the search for slots in
-- Slots, with its specification in Open; busy times in Busy.
--
-- Times are seconds. A local time of a zone counts from the midnight that begins the local day 0, a
-- Thursday, so a local day has 86400 seconds on the wall, as for `datetime` arithmetic within one zone;
-- what instant a wall time is (`zoneinfo`) is a field of `Zone`. `split`, `strip`, `int` and
-- `isoformat` are fields of `Clock`.
pub mod Slots
pub mod Open
pub mod Sound
pub mod Busy
mod Examples
use bots_infra_be.Common.{
  ℕ, zero, suc, ◌+◌, ◌*◌, ◌%◌, Bool, true, false, ◌&&◌, String, Option, none, some, List, [], ◌∷◌,
  ltb, if◌then◌else◌,
}
use bots_infra_be.Common.Dict.{Dict, get}

pub record Zone : Type 0 where
  pub instant : ℕ → ℕ
  pub wall : ℕ → ℕ

-- `split("-", 1)`, with `none` where there is no dash; the parts of a text at its colons; `int` of a
-- stripped text that holds a natural number; `date.isoformat`.
pub record Clock : Type 0 where
  pub cut_dash : String → Option (String × String)
  pub split_colons : String → List String
  pub strip : String → String
  pub to_int : String → Option ℕ
  pub isoformat : ℕ → String

abbrev pub Range : Type 0
Range = ℕ × ℕ

-- `time(hour, minute)`, in seconds of the day; it raises out of range.
abbrev pub time_of : ℕ → ℕ → Option ℕ
time_of hour minute =
    if ltb hour 24 && ltb minute 60 then some (hour * 3600 + minute * 60) else none

infixl 5 ◌>>=◌
abbrev ◌>>=◌ {ℓ κ} : {A : Type ℓ} {B : Type κ} → Option A → (A → Option B) → Option B
none >>= f = none
some a >>= f = f a

module _ (clock : Clock) where
  -- `h, m = (int(x) for x in text.strip().split(":"))`; `none` is a `ValueError`.
  abbrev pub clock_time : List String → Option ℕ
  clock_time (h ∷ m ∷ []) = do hour ← clock.to_int h; minute ← clock.to_int m; time_of hour minute
  clock_time _ = none

  abbrev pub parse_time : String → Option ℕ
  parse_time text = clock_time (clock.split_colons (clock.strip text))

  -- One item, by its two ends.
  unfoldable pub parse_range : String → Option Range
  parse_range item = do
    (start, end) ← clock.cut_dash item
    from ← parse_time start
    until ← parse_time end
    some (from, until)

  -- `parse_ranges_wrapping` of app/services/reminders.py: a malformed item is dropped.
  unfoldable pub parse_ranges_wrapping : List String → List Range
  unfolding parse_range
  parse_ranges_wrapping [] = []
  parse_ranges_wrapping (item ∷ spec) =
      let rest = parse_ranges_wrapping spec in
      elim (parse_range item) [ none ↦ rest | some range ↦ range ∷ rest ]

  -- `parse_ranges`, which drops an inverted one too.
  unfoldable pub parse_ranges : List String → List Range
  unfolding parse_range
  parse_ranges [] = []
  parse_ranges (item ∷ spec) =
      let rest = parse_ranges spec in
      elim (parse_range item) [
        | none ↦ rest
        | some (from, until) ↦ if ltb from until then (from, until) ∷ rest else rest
      ]

-- `WEEKDAY_KEYS`
abbrev pub weekday_keys : List String
weekday_keys = "mon" ∷ "tue" ∷ "wed" ∷ "thu" ∷ "fri" ∷ "sat" ∷ "sun" ∷ []

abbrev pub key_at : List String → ℕ → String
key_at [] i = ""
key_at (k ∷ ks) zero = k
key_at (k ∷ ks) (suc i) = key_at ks i

-- `(hours or {}).get(key, [])`
abbrev pub or_empty : Option (List String) → List String
or_empty none = []
or_empty (some spec) = spec

-- `day_windows`: the open windows of a day, in wall time.
abbrev pub windows_from : ℕ → List Range → List Range
windows_from midnight [] = []
windows_from midnight ((from, until) ∷ ranges) =
    (midnight + from, midnight + until) ∷ windows_from midnight ranges

unfoldable pub day_windows : Clock → ℕ → Dict (List String) → List Range
unfolding parse_ranges
day_windows clock day hours =
    windows_from (day * 86400)
      (parse_ranges clock (or_empty (get hours (key_at weekday_keys ((day + 3) % 7)))))
