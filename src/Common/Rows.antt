-- ===== src/Common/Rows.antt =====
-- Tables as lists of rows: updates by id, and the `SELECT … ORDER BY … LIMIT 1 FOR UPDATE SKIP LOCKED`
-- that picks the row to claim.
use mathlib.Core.Path.{◌≡◌, refl, ap, subst}
use mathlib.Core.Logic.{◌⊎◌, inl, inr}
use mathlib.Core.Bool.{Bool, true, false}
use mathlib.Core.Option.{Option, none, some}
use mathlib.Core.List.{List, [], ◌∷◌, ◌++◌}
use Prim.Native.Nat.{ℕ}
use native.Mathlib.Omega.{arith}
use bots_infra_be.Common.Tests.{ltb, ◌==◌, ==_refl, if◌then◌else◌}
use bots_infra_be.Common.Lists.{All, All-split, All-append}

module _ {ℓ} {R : Type ℓ} (id : R → ℕ) where
  -- `UPDATE … SET … WHERE id = i`
  unfoldable pub update_where : ℕ → (R → R) → List R → List R
  update_where i f [] = []
  update_where i f (r ∷ t) = (if id r == i then f r else r) ∷ update_where i f t

  -- No two rows have one id.
  abbrev pub Distinct : List R → Type 0
  Distinct [] = Unit
  Distinct (r ∷ t) = All (λ s. (id s == id r) ≡ false) t × Distinct t

  -- A row in its place: an update by its id changes this row alone.
  pub record Placed (t : List R) (r : R) : Type ℓ where
    pub before : List R
    pub after : List R
    pub split : t ≡ before ++ r ∷ after
    pub update : (f : R → R) → update_where (id r) f t ≡ before ++ f r ∷ after

  update_where-absent :
      (i : ℕ) (f : R → R) (t : List R) → All (λ s. (id s == i) ≡ false) t → update_where i f t ≡ t
  unfolding update_where
  update_where-absent i f [] h = refl
  update_where-absent i f (r ∷ t) h = rw (h.0) (ap (λ u. r ∷ u) (update_where-absent i f t h.1))

  ==_sym : (a b : ℕ) → (a == b) ≡ false → (b == a) ≡ false
  ==_sym a b h = ground arith

  pub Placed-head : (r : R) (t : List R) → Distinct (r ∷ t) → Placed (r ∷ t) r
  unfolding update_where
  Placed-head r t d = record {
    before = [];
    after = t;
    split = refl;
    update = λ f. rw (==_refl (id r)) (ap (λ u. f r ∷ u) (update_where-absent (id r) f t d.0));
  }

  pub Placed-tail : (s r : R) (t : List R) → Distinct (s ∷ t) → Placed t r → Placed (s ∷ t) r
  unfolding update_where
  Placed-tail s r t d p = record {
    before = s ∷ p.before;
    after = p.after;
    split = ap (λ u. s ∷ u) p.split;
    update = λ f.
        rw
          (==_sym (id r) (id s)
            (All-split _ p.before (r ∷ p.after) (subst (All _) p.split d.0)).1.0)
          (ap (λ u. s ∷ u) (p.update f));
  }

  -- Replacing a row by one of the same id keeps the ids distinct.
  pub Distinct-replace :
      (p q : List R) (r s : R) → id s ≡ id r → Distinct (p ++ r ∷ q) → Distinct (p ++ s ∷ q)
  Distinct-replace [] q r s e d = (rw e d.0, d.1)
  Distinct-replace (x ∷ p) q r s e d =
      let (left, right) = All-split _ p (r ∷ q) d.0 in
      (All-append _ p (s ∷ q) left (rw e right.0, right.1), Distinct-replace p q r s e d.1)

module _ {ℓ} {R : Type ℓ} (due : R → Bool) (since : R → ℕ) where
  abbrev pub earlier : R → Option R → R
  earlier r none = r
  earlier r (some s) = if ltb (since s) (since r) then s else r

  -- The due row that has waited longest.
  unfoldable pub oldest : List R → Option R
  oldest [] = none
  oldest (r ∷ t) = let best = oldest t in if due r then some (earlier r best) else best

  pub oldest-cons :
      (s r : R) (t : List R)
      → oldest (s ∷ t) ≡ some r
      → ((due s ≡ true) × (s ≡ r)) ⊎ (oldest t ≡ some r)
  unfolding oldest
  oldest-cons s r t h = ground arith

module _ {ℓ} {R : Type ℓ} (id : R → ℕ) (due : R → Bool) (since : R → ℕ) where
  -- The row that is selected is due, and stands in the table.
  pub oldest-Placed :
      (t : List R) (r : R)
      → Distinct id t
      → oldest due since t ≡ some r
      → Placed id t r × (due r ≡ true)
  oldest-Placed [] r d h = unfold oldest in cc
  oldest-Placed (s ∷ t) r d h = elim (oldest-cons due since s r t h) [
    | inl (is_due, e) ↦
        subst (λ x. Placed id (s ∷ t) x × (due x ≡ true)) e (Placed-head id s t d, is_due)
    | inr later ↦
        let (placed, is_due) = oldest-Placed t r d.1 later in
        (Placed-tail id s r t d placed, is_due)
  ]

module _ {ℓ} {R : Type ℓ} (id : R → ℕ) where
  -- Two updates by one id are one.
  pub update_where-update_where :
      (i : ℕ) (f g : R → R) (t : List R)
      → ((x : R) → id (g x) ≡ id x)
      → update_where id i f (update_where id i g t) ≡ update_where id i (λ x. f (g x)) t
  unfolding update_where
  update_where-update_where i f g [] h = refl
  update_where-update_where i f g (x ∷ t) h =
      ground (arith, h x, update_where-update_where i f g t h)

  -- Beside a row of a table with distinct ids stand rows of other ids.
  pub Distinct-others :
      (p q : List R) (r : R)
      → Distinct id (p ++ r ∷ q)
      → All (λ s. (id s == id r) ≡ false) p × All (λ s. (id s == id r) ≡ false) q
  Distinct-others [] q r d = (tt, d.0)
  Distinct-others (x ∷ p) q r d =
      let (left, right) = All-split _ p (r ∷ q) d.0 in
      let (before, after) = Distinct-others p q r d.1 in
      ((==_sym id (id r) (id x) right.0, before), after)
