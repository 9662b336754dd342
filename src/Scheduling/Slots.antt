-- ===== src/Scheduling/Slots.antt =====
-- `candidate_starts`: the search for open slots, with its early return.
use mathlib.Core.List.{◌++◌}
use bots_infra_be.Common.{
  ℕ, zero, suc, ◌+◌, ◌/◌, max, true, false, String, List, [], ◌∷◌, length, leb, if◌then◌else◌,
}
use bots_infra_be.Common.Dict.{Dict, elem}
use bots_infra_be.Scheduling.{Zone, Clock, Range, day_windows}

-- The settings of a search, in seconds but for the counts.
pub record Search : Type 0 where
  pub hours : Dict (List String)
  pub closed_dates : List String
  pub horizon_days : ℕ
  pub slot : ℕ
  pub slot_step : ℕ
  pub lead_time : ℕ
  pub max_slots : ℕ

-- `timedelta(minutes=max(m, 5))`
abbrev pub at_least_five : ℕ → ℕ
at_least_five seconds = max seconds 300

-- The slots that were found, and whether the search has returned.
pub data Found : Type 0 where
  more : List ℕ → Found
  returned : List ℕ → Found

abbrev pub slots_of : Found → List ℕ
slots_of (more out) = out
slots_of (returned out) = out

-- `out.append(cursor)`, and `return out` where there are enough.
abbrev pub append_slot : ℕ → ℕ → List ℕ → Found
append_slot max_slots cursor out =
    if leb max_slots (length (out ++ cursor ∷ []))
    then returned (out ++ cursor ∷ [])
    else more (out ++ cursor ∷ [])

module _ (zone : Zone) (search : Search) (earliest : ℕ) where
  -- One round of the `while` loop, but for `cursor += step`.
  unfoldable pub try_slot : ℕ → List ℕ → Found
  try_slot cursor out =
      if leb earliest (zone.instant cursor)
      then append_slot search.max_slots cursor out
      else more out

  -- `while cursor + length <= window_end`, with fuel; the step is at least five minutes.
  unfoldable pub scan_window : ℕ → ℕ → ℕ → List ℕ → Found
  unfolding try_slot
  scan_window zero end cursor out = more out
  scan_window (suc fuel) end cursor out =
      if leb (cursor + at_least_five search.slot) end
      then elim (try_slot cursor out) [
        | returned out' ↦ returned out'
        | more out' ↦ scan_window fuel end (cursor + at_least_five search.slot_step) out'
      ]
      else more out

  -- The windows of one day. A window is scanned in fewer rounds than its end has seconds.
  unfoldable pub scan_windows : List Range → List ℕ → Found
  unfolding scan_window
  scan_windows [] out = more out
  scan_windows ((start, end) ∷ windows) out = elim (scan_window (suc end) end start out) [
    | returned out' ↦ returned out'
    | more out' ↦ scan_windows windows out'
  ]

  -- The days that are left, `days` of them from `day` on.
  unfoldable pub scan_days : Clock → ℕ → ℕ → List ℕ → Found
  unfolding scan_windows
  scan_days clock zero day out = more out
  scan_days clock (suc days) day out = elim (elem (clock.isoformat day) search.closed_dates) [
    | true ↦ scan_days clock days (suc day) out
    | false ↦ elim (scan_windows (day_windows clock day search.hours) out) [
      | returned out' ↦ returned out'
      | more out' ↦ scan_days clock days (suc day) out'
    ]
  ]

-- `candidate_starts`, at the instant `now`.
unfoldable pub candidate_starts : Clock → Zone → Search → ℕ → List ℕ
unfolding scan_days
candidate_starts clock zone search now = slots_of (
    scan_days zone search (now + search.lead_time) clock search.horizon_days (zone.wall now / 86400)
      [])
