-- ===== src/Reminders/Quiet.antt =====
-- `in_quiet_hours` and `shift_out_of_quiet`.
use bots_infra_be.Common.{
  ℕ, zero, suc, ◌+◌, ◌*◌, ◌<◌, ◌≡◌, ◌⊎◌, inl, inr, refl, subst, Bool, true, false, ◌&&◌, ◌||◌, List,
  any_of, arith, ltb, leb, if◌then◌else◌, Bool-cases,
}
use bots_infra_be.Reminders.{Range}

-- The test of one range; an inverted one wraps midnight.
pub is_within : ℕ → Range → Bool
is_within local (start, end) =
    if leb start end then leb start local && ltb local end else leb start local || ltb local end

module _ (local_time : ℕ → ℕ) where
  -- `in_quiet_hours`, over the parsed ranges.
  unfoldable pub in_quiet_hours : ℕ → List Range → Bool
  unfolding is_within
  in_quiet_hours when quiet = any_of (is_within (local_time when)) quiet

  -- The loop of `shift_out_of_quiet`, with the tries that are left.
  pub shift : ℕ → ℕ → ℕ → List Range → ℕ
  shift zero candidate when quiet = when
  shift (suc tries) candidate when quiet =
      let rest = shift tries (candidate + 3600) when quiet in
      if in_quiet_hours candidate quiet then rest else candidate

  pub shift_out_of_quiet : ℕ → List Range → ℕ
  unfolding shift
  shift_out_of_quiet when quiet = shift 24 when when quiet

  one_more :
      (from k : ℕ) (quiet : List Range)
      → in_quiet_hours from quiet ≡ true
      → ((i : ℕ) → i < k → in_quiet_hours (from + 3600 + i * 3600) quiet ≡ true)
      → (i : ℕ) → i < suc k
      → in_quiet_hours (from + i * 3600) quiet ≡ true
  one_more from k quiet now all zero h =
      subst (λ t. in_quiet_hours t quiet ≡ true) (omega arith) now
  one_more from k quiet now all (suc i) h =
      subst (λ t. in_quiet_hours t quiet ≡ true) (omega arith) (all i (omega arith))

  shift_facts :
      (tries from when : ℕ) (quiet : List Range)
      → ((k : ℕ) × (k < tries)
          × (shift tries from when quiet ≡ from + k * 3600)
          × (in_quiet_hours (shift tries from when quiet) quiet ≡ false)
          × ((i : ℕ) → i < k → in_quiet_hours (from + i * 3600) quiet ≡ true))
        ⊎ ((shift tries from when quiet ≡ when)
            × ((i : ℕ) → i < tries → in_quiet_hours (from + i * 3600) quiet ≡ true))
  unfolding shift
  shift_facts zero from when quiet = inr (refl, λ i h. absurd (omega arith))
  shift_facts (suc tries) from when quiet = elim (Bool-cases (in_quiet_hours from quiet)) [
    | inr awake ↦
        inl (0, omega arith, rw awake (omega arith), rw awake awake, λ i h. absurd (omega arith))
    | inl asleep ↦ elim (shift_facts tries (from + 3600) when quiet) [
      | inl (k, less, at, out, all) ↦ inl (
        suc k,
        omega arith,
        rw asleep (omega (arith, at)),
        rw asleep out,
        one_more from k quiet asleep all,
      )
      | inr (at, all) ↦ inr (rw asleep at, one_more from tries quiet asleep all)
    ]
  ]

  -- The send time is moved by the least number of whole hours, below 24, that leads out of the quiet
  -- hours; if all 24 tries are quiet it is left as it was.
  pub shift_out_of_quiet_first :
      (when : ℕ) (quiet : List Range)
      → ((k : ℕ) × (k < 24)
          × (shift_out_of_quiet when quiet ≡ when + k * 3600)
          × (in_quiet_hours (shift_out_of_quiet when quiet) quiet ≡ false)
          × ((i : ℕ) → i < k → in_quiet_hours (when + i * 3600) quiet ≡ true))
        ⊎ ((shift_out_of_quiet when quiet ≡ when)
            × ((i : ℕ) → i < 24 → in_quiet_hours (when + i * 3600) quiet ≡ true))
  unfolding shift_out_of_quiet
  shift_out_of_quiet_first when quiet = shift_facts 24 when when quiet
