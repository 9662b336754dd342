-- ===== src/Scheduling/Busy.antt =====
-- `overlaps` and `subtract_busy`. The slots are wall times of the zone, the busy blocks are instants.
use bots_infra_be.Common.{
  ℕ, ◌+◌, ◌-◌, ◌≡◌, Bool, true, false, not, ◌&&◌, List, [], ◌∷◌, keep, any_of, All, All-keep,
  All-map, ltb, arith,
}
use bots_infra_be.Scheduling.{Zone, Range}

unfoldable pub overlaps : ℕ → ℕ → ℕ → ℕ → Bool
overlaps a0 a1 b0 b1 = ltb a0 b1 && ltb b0 a1

-- The slot at `c`, padded by the buffer, against one block.
abbrev pub collides : Zone → ℕ → ℕ → ℕ → Range → Bool
collides zone slot buffer c (b0, b1) =
    overlaps (zone.instant (c - buffer)) (zone.instant (c + slot + buffer)) b0 b1

-- Wall times lie more than a buffer after the day 0.
unfoldable pub subtract_busy : Zone → ℕ → ℕ → List ℕ → List Range → List ℕ
subtract_busy zone slot buffer candidates [] = candidates
subtract_busy zone slot buffer candidates (b ∷ busy) =
    keep (λ c. not (any_of (collides zone slot buffer c) (b ∷ busy))) candidates

any_of-false :
    {A : Type 0} (p : A → Bool) (xs : List A) → not (any_of p xs) ≡ true → All (λ x. p x ≡ false) xs
any_of-false p [] h = tt
any_of-false p (x ∷ xs) h = (ground arith, any_of-false p xs (ground arith))

-- What is left had a property before, and no block collides with it.
pub subtract_busy-All :
    (P : ℕ → Type 0) (zone : Zone) (slot buffer : ℕ) (candidates : List ℕ) (busy : List Range)
    → All P candidates
    → All
        (λ c. P c × All (λ b. collides zone slot buffer c b ≡ false) busy)
        (subtract_busy zone slot buffer candidates busy)
unfolding subtract_busy
subtract_busy-All P zone slot buffer candidates [] h = All-map P _ (λ c p. (p, tt)) candidates h
subtract_busy-All P zone slot buffer candidates (b ∷ busy) h =
    All-map _ _ (λ c (p, free). (p, any_of-false (collides zone slot buffer c) (b ∷ busy) free)) _
      (All-keep P (λ c. not (any_of (collides zone slot buffer c) (b ∷ busy))) candidates h)
