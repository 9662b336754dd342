-- ===== src/Scheduling/Sound.antt =====
-- What an open slot is, told by its day, its window and its step.
use bots_infra_be.Common.{
  ℕ, zero, suc, ◌+◌, ◌*◌, ◌/◌, subst, ◌≤◌, ◌<◌, ◌≡◌, refl, inl, inr, true, false, List, [], ◌∷◌,
  All, All-append, All-keep, All-map, All-take, In, max, leb, leb→le, arith, Bool-cases,
  if◌then◌else◌,
}
use bots_infra_be.Common.Dict.{elem}
use bots_infra_be.Scheduling.{Zone, Clock, Range, day_windows}
use bots_infra_be.Scheduling.Slots.{Search, at_least_five, candidate_starts}
use bots_infra_be.Scheduling.Open.{
  progression, fitting, fitting-suc, fitting-zero, open_in, open_in_all, open_slots,
  candidate_starts-eq-take,
}

module _ (clock : Clock) (zone : Zone) (search : Search) (earliest days day : ℕ) where
  -- A slot on a day that is not closed, within a window of its hours, a number of steps from the
  -- window's start, and not too early.
  pub record IsOpen (c : ℕ) : Type 0 where
    pub offset : ℕ
    pub steps : ℕ
    pub window : Range
    pub within : offset < days
    pub not_closed : elem (clock.isoformat (day + offset)) search.closed_dates ≡ false
    pub listed : In window (day_windows clock (day + offset) search.hours)
    pub starts : c ≡ window.0 + steps * at_least_five search.slot_step
    pub ends : c + at_least_five search.slot ≤ window.1
    pub late : earliest ≤ zone.instant c

module _ (zone : Zone) (search : Search) (earliest : ℕ) where
  -- A time that is a number of steps from a start, with room for a slot before an end.
  abbrev Fits : ℕ → ℕ → ℕ → Type 0
  Fits start end c =
      (k : ℕ) × (c ≡ start + k * at_least_five search.slot_step)
      × (c + at_least_five search.slot ≤ end)

  progression-Fits :
      (n j start from end : ℕ)
      → from ≡ start + j * at_least_five search.slot_step
      → n ≤ fitting zone search earliest from end
      → All (Fits start end) (progression from (at_least_five search.slot_step) n)
  progression-Fits zero j start from end e le = tt
  progression-Fits (suc n) j start from end e le =
      elim (Bool-cases (leb (from + at_least_five search.slot) end)) [
        | inl fits ↦ (
          (j, e, leb→le _ _ fits),
          progression-Fits n (suc j) start (from + at_least_five search.slot_step) end (grind arith)
              (omega (arith, le, fitting-suc zone search earliest from end (leb→le _ _ fits))),
        )
        | inr late ↦
            absurd
              (omega (arith, le, fitting-zero zone search earliest from end (ground (arith, late))))
      ]

  open_in-Fits :
      (start end : ℕ)
      → All
          (λ c. Fits start end c × (leb earliest (zone.instant c) ≡ true))
          (open_in zone search earliest (start, end))
  open_in-Fits start end =
      All-keep (Fits start end) (λ c. leb earliest (zone.instant c)) _
        (progression-Fits (fitting zone search earliest start end) 0 start start end (omega arith)
          (omega arith))

  -- The windows of a day that is not closed.
  open_in_all-IsOpen :
      (clock : Clock) (days day offset : ℕ) (windows : List Range)
      → offset < days
      → elem (clock.isoformat (day + offset)) search.closed_dates ≡ false
      → ((window : Range)
          → In window windows
          → In window (day_windows clock (day + offset) search.hours))
      → All (IsOpen clock zone search earliest days day) (open_in_all zone search earliest windows)
  open_in_all-IsOpen clock days day offset [] lt not_closed listed = tt
  open_in_all-IsOpen clock days day offset ((start, end) ∷ windows) lt not_closed listed =
      All-append _ (open_in zone search earliest (start, end)) _
        (All-map _ _
          (λ c (fits, late). record {
            offset = offset;
            steps = fits.0;
            window = (start, end);
            within = lt;
            not_closed = not_closed;
            listed = listed (start, end) (inl refl);
            starts = fits.1;
            ends = fits.2;
            late = leb→le _ _ late;
          })
          (open_in zone search earliest (start, end)) (open_in-Fits start end))
        (open_in_all-IsOpen clock days day offset windows lt not_closed
          (λ window i. listed window (inr i)))

  -- The days from an offset on.
  open_slots-IsOpen :
      (clock : Clock) (left days day offset : ℕ)
      → offset + left ≤ days
      → All
          (IsOpen clock zone search earliest days day)
          (open_slots zone search earliest clock left (day + offset))
  open_slots-IsOpen clock zero days day offset le = tt
  open_slots-IsOpen clock (suc left) days day offset le =
      All-append _ (if elem (clock.isoformat (day + offset)) search.closed_dates then [] else _) _
        (elim (Bool-cases (elem (clock.isoformat (day + offset)) search.closed_dates)) [
          | inl closed ↦ rw closed tt
          | inr not_closed ↦
              rw not_closed (
                open_in_all-IsOpen clock days day offset _ (omega arith) not_closed (λ window i. i))
        ])
        (subst
          (λ d.
            All (IsOpen clock zone search earliest days day)
              (open_slots zone search earliest clock left d))
          (omega arith) (open_slots-IsOpen clock left days day (suc offset) (omega arith)))

-- Every slot that the search returns is open.
pub candidate_starts-IsOpen :
    (clock : Clock) (zone : Zone) (search : Search) (now : ℕ)
    → All
        (IsOpen clock zone search
          (now + search.lead_time)
          search.horizon_days
          (zone.wall now / 86400))
        (candidate_starts clock zone search now)
candidate_starts-IsOpen clock zone search now =
    rw (candidate_starts-eq-take clock zone search now) (
      All-take _ (max 1 search.max_slots) _ (
        subst
          (λ d.
            All
              (IsOpen clock zone search (now + search.lead_time) search.horizon_days
                (zone.wall now / 86400))
              (open_slots zone search (now + search.lead_time) clock search.horizon_days d))
          (omega arith)
          (open_slots-IsOpen zone search (now + search.lead_time) clock search.horizon_days
            search.horizon_days (zone.wall now / 86400) 0 (omega arith))))
