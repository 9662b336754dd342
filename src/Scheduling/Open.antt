-- ===== src/Scheduling/Open.antt =====
-- The open slots, listed with no early return: the search finds the first of them.
use native.Mathlib.Nat.{div-eq-sub-div, div-eq_of_lt, div-le_self}
use mathlib.Core.Path.{fun_ext}
use mathlib.Core.List.{◌++◌, append_assoc, append-nil}
use bots_infra_be.Common.{
  ℕ, zero, suc, ◌+◌, ◌-◌, ◌/◌, ◌≤◌, ◌<◌, ◌≡◌, refl, sym, ap, ◌∙◌, max, List, [], ◌∷◌, length,
  length-append, take, keep, leb, if◌then◌else◌, arith, Bool-cases, leb→le, inl, inr,
}
use bots_infra_be.Common.Dict.{elem}
use bots_infra_be.Scheduling.{Zone, Clock, Range, day_windows}
use bots_infra_be.Scheduling.Slots.{
  Search, Found, more, returned, slots_of, append_slot, at_least_five, try_slot, scan_window,
  scan_windows, scan_days, candidate_starts,
}

abbrev and_then : Found → (List ℕ → Found) → Found
and_then found f = elim found [ returned out ↦ returned out | more out ↦ f out ]

-- The slots of a list, taken one after the other.
fill : ℕ → List ℕ → List ℕ → Found
fill m [] out = more out
fill m (x ∷ xs) out = elim (append_slot m x out) [
  | returned out' ↦ returned out'
  | more out' ↦ fill m xs out'
]

fill-append :
    (m : ℕ) (xs ys out : List ℕ) → fill m (xs ++ ys) out ≡ and_then (fill m xs out) (fill m ys)
unfolding fill
fill-append m [] ys out = refl
fill-append m (x ∷ xs) ys out = ground (arith, fill-append m xs ys (out ++ x ∷ []))

take-append-length : {A : Type 0} (n : ℕ) (xs ys : List A) → length xs ≡ n → take n (xs ++ ys) ≡ xs
take-append-length zero [] ys h = refl
take-append-length zero (x ∷ xs) ys h = absurd (omega (arith, h))
take-append-length (suc n) [] ys h = absurd (omega (arith, h))
take-append-length (suc n) (x ∷ xs) ys h =
    ap (λ zs. x ∷ zs) (take-append-length n xs ys (omega (arith, h)))

take-all : {A : Type 0} (n : ℕ) (xs : List A) → length xs ≤ n → take n xs ≡ xs
take-all zero [] h = refl
take-all zero (x ∷ xs) h = absurd (omega (arith, h))
take-all (suc n) [] h = refl
take-all (suc n) (x ∷ xs) h = ap (λ zs. x ∷ zs) (take-all n xs (omega (arith, h)))

-- As many as fit into the limit, and one where it is 0.
slots_of-fill :
    (m : ℕ) (xs out : List ℕ)
    → suc (length out) ≤ max 1 m
    → slots_of (fill m xs out) ≡ take (max 1 m) (out ++ xs)
unfolding fill
slots_of-fill m [] out room = rw append-nil (sym (take-all (max 1 m) out (omega (arith, room))))
slots_of-fill m (x ∷ xs) out room = elim (Bool-cases (leb m (length (out ++ x ∷ [])))) [
  | inl enough ↦
      rw (enough, slots_of)
        (sym (
            take-append-length (max 1 m) (out ++ x ∷ []) xs
              (omega (arith, length-append out (x ∷ []), room, leb→le _ _ enough)))
          ∙ ap (take (max 1 m)) (append_assoc out (x ∷ []) xs))
  | inr fewer ↦
      rw (fewer, slots_of)
        (slots_of-fill m xs (out ++ x ∷ []) (ground (arith, length-append out (x ∷ []), fewer))
          ∙ ap (take (max 1 m)) (append_assoc out (x ∷ []) xs))
]

-- The first `n` of the times `start`, `start + step`, …
abbrev pub progression : ℕ → ℕ → ℕ → List ℕ
progression start step zero = []
progression start step (suc n) = start ∷ progression (start + step) step n

module _ (zone : Zone) (search : Search) (earliest : ℕ) where
  -- How many slots fit between two times.
  abbrev pub fitting : ℕ → ℕ → ℕ
  fitting start end =
      (end + at_least_five search.slot_step - (start + at_least_five search.slot))
      / at_least_five search.slot_step

  -- The slots of a window, in steps from its start, that are late enough.
  abbrev pub open_in : Range → List ℕ
  open_in (start, end) =
      keep (λ c. leb earliest (zone.instant c))
        (progression start (at_least_five search.slot_step) (fitting start end))

  abbrev pub open_in_all : List Range → List ℕ
  open_in_all [] = []
  open_in_all (window ∷ windows) = open_in window ++ open_in_all windows

  -- The slots of `days` days from `day` on that are not closed.
  abbrev pub open_slots : Clock → ℕ → ℕ → List ℕ
  open_slots clock zero day = []
  open_slots clock (suc days) day =
      (if elem (clock.isoformat day) search.closed_dates
        then []
        else open_in_all (day_windows clock day search.hours))
      ++ open_slots clock days (suc day)

  pub fitting-suc :
      (start end : ℕ)
      → start + at_least_five search.slot ≤ end
      → fitting start end ≡ suc (fitting (start + at_least_five search.slot_step) end)
  fitting-suc start end fits = omega (
    arith,
    div-eq-sub-div {m = at_least_five search.slot_step}
        {n = end + at_least_five search.slot_step - (start + at_least_five search.slot)}
        (omega arith) (omega arith),
    ap (λ (x : ℕ). x / at_least_five search.slot_step) same,
  )
    where
      same :
          end
            + at_least_five search.slot_step
            - (start + at_least_five search.slot)
            - at_least_five search.slot_step
          ≡ end
            + at_least_five search.slot_step
            - (start + at_least_five search.slot_step + at_least_five search.slot)
      same = omega arith

  pub fitting-zero :
      (start end : ℕ) → end < start + at_least_five search.slot → fitting start end ≡ 0
  fitting-zero start end late = div-eq_of_lt (omega arith)

  -- One round, on a slot that fits.
  round :
      (cursor : ℕ) (later out : List ℕ) (rest : List ℕ → Found)
      → ((out' : List ℕ) → rest out' ≡ fill search.max_slots later out')
      → and_then (try_slot zone search earliest cursor out) rest
        ≡ fill search.max_slots
            (if leb earliest (zone.instant cursor) then cursor ∷ later else later)
            out
  unfolding try_slot fill
  round cursor later out rest ih = ground (arith, ih out, ih (out ++ cursor ∷ []))

  scan_window-eq-fill :
      (fuel end cursor : ℕ) (out : List ℕ)
      → fitting cursor end ≤ fuel
      → scan_window zone search earliest fuel end cursor out
        ≡ fill search.max_slots (open_in (cursor, end)) out
  unfolding scan_window fill
  scan_window-eq-fill zero end cursor out enough =
      let none_fits : fitting cursor end ≡ 0 = omega (arith, enough) in rw none_fits refl
  scan_window-eq-fill (suc fuel) end cursor out enough =
      elim (Bool-cases (leb (cursor + at_least_five search.slot) end)) [
        | inl fits ↦
            let step : fitting cursor end
                ≡ suc (fitting (cursor + at_least_five search.slot_step) end) =
              fitting-suc cursor end (leb→le _ _ fits) in
            rw (fits, step)
              (round cursor (open_in (cursor + at_least_five search.slot_step, end)) out
                (scan_window zone search earliest fuel end
                  (cursor + at_least_five search.slot_step))
                (λ out'.
                  scan_window-eq-fill fuel end (cursor + at_least_five search.slot_step) out'
                    (omega (arith, enough, step))))
        | inr late ↦
            let none_fits : fitting cursor end ≡ 0 =
              fitting-zero cursor end (ground (arith, late)) in
            rw (late, none_fits) refl
      ]

  fitting-le : (start end : ℕ) → fitting start end ≤ suc end
  fitting-le start end = elim (Bool-cases (leb (start + at_least_five search.slot) end)) [
    | inl fits ↦ omega (
      arith,
      fitting-suc start end (leb→le _ _ fits),
      div-le_self
          (end
            + at_least_five search.slot_step
            - (start + at_least_five search.slot_step + at_least_five search.slot))
          (at_least_five search.slot_step),
    )
    | inr late ↦ omega (arith, fitting-zero start end (ground (arith, late)))
  ]

  scan_windows-eq-fill :
      (windows : List Range) (out : List ℕ)
      → scan_windows zone search earliest windows out
        ≡ fill search.max_slots (open_in_all windows) out
  unfolding scan_windows
  scan_windows-eq-fill [] out = unfold fill in refl
  scan_windows-eq-fill ((start, end) ∷ windows) out =
      ap (λ found. and_then found (scan_windows zone search earliest windows))
        (scan_window-eq-fill (suc end) end start out (fitting-le start end))
      ∙ ap (and_then (fill search.max_slots (open_in (start, end)) out))
          (fun_ext (scan_windows-eq-fill windows))
      ∙ sym (fill-append search.max_slots (open_in (start, end)) (open_in_all windows) out)

  scan_days-eq-fill :
      (clock : Clock) (days day : ℕ) (out : List ℕ)
      → scan_days zone search earliest clock days day out
        ≡ fill search.max_slots (open_slots clock days day) out
  unfolding scan_days
  scan_days-eq-fill clock zero day out = unfold fill in refl
  scan_days-eq-fill clock (suc days) day out =
      elim (Bool-cases (elem (clock.isoformat day) search.closed_dates)) [
        | inl closed ↦ rw (closed, scan_days) (scan_days-eq-fill clock days (suc day) out)
        | inr open_day ↦
            let windows = day_windows clock day search.hours in
            rw (open_day, scan_days)
              (ap (λ found. and_then found (scan_days zone search earliest clock days (suc day)))
                  (scan_windows-eq-fill windows out)
                ∙ ap (and_then (fill search.max_slots (open_in_all windows) out))
                    (fun_ext (scan_days-eq-fill clock days (suc day)))
                ∙ sym (
                    fill-append search.max_slots (open_in_all windows)
                      (open_slots clock days (suc day)) out))
      ]

-- The search returns the first `max_slots` (the first one, if that is 0) of all the slots that are open:
-- on each day of the horizon that is not closed, in each window of its hours, the steps from the start
-- of the window that end within it and begin no earlier than the lead time allows.
pub candidate_starts-eq-take :
    (clock : Clock) (zone : Zone) (search : Search) (now : ℕ)
    → candidate_starts clock zone search now
      ≡ take (max 1 search.max_slots) (
          open_slots zone search
            (now + search.lead_time)
            clock
            search.horizon_days
            (zone.wall now / 86400))
unfolding candidate_starts
candidate_starts-eq-take clock zone search now =
    ap slots_of (
      scan_days-eq-fill zone search (now + search.lead_time) clock search.horizon_days
        (zone.wall now / 86400) [])
    ∙ slots_of-fill search.max_slots _ [] (omega arith)
