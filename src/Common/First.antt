-- ===== src/Common/First.antt =====
-- Tables whose rows differ in a key: the first row that a `SELECT … WHERE` finds, after an insert, an
-- update of that row, or its deletion.
use mathlib.Core.Path.{◌≡◌, refl, sym, ◌∙◌, ap, subst}
use mathlib.Core.Logic.{◌⊎◌, inl, inr}
use mathlib.Core.Bool.{Bool, true, false}
use mathlib.Core.Option.{Option, none, some}
use mathlib.Core.List.{List, [], ◌∷◌, ◌++◌}
use Prim.Native.Nat.{ℕ}
use native.Mathlib.Omega.{arith}
use bots_infra_be.Common.Tests.{◌==◌, if◌then◌else◌, Bool-cases}
use bots_infra_be.Common.Lists.{All, All-append, All-map, keep}
use bots_infra_be.Common.Rows.{update_where}

module _ {ℓ} {R : Type ℓ} where
  -- `scalar_one_or_none` of a statement that one row at most satisfies, and `LIMIT 1`.
  unfoldable pub first : (R → Bool) → List R → Option R
  first p [] = none
  first p (r ∷ t) = let rest = first p t in if p r then some r else rest

  -- No two rows are the same to a test.
  abbrev pub Single : (R → R → Bool) → List R → Type 0
  Single same [] = Unit
  Single same (r ∷ t) = All (λ s. same r s ≡ false) t × Single same t

  pub first-cons :
      (p : R → Bool) (s r : R) (t : List R)
      → first p (s ∷ t) ≡ some r
      → ((p s ≡ true) × (s ≡ r)) ⊎ ((p s ≡ false) × (first p t ≡ some r))
  unfolding first
  first-cons p s r t h = ground arith

  -- The row that is found passes the test, and has what all rows have.
  pub first-All {κ} :
      (P : R → Type κ) (p : R → Bool) (t : List R) (r : R)
      → first p t ≡ some r
      → All P t
      → (p r ≡ true) × P r
  first-All P p [] r h all = absurd (unfold first in ground arith)
  first-All P p (s ∷ t) r h all = elim (first-cons p s r t h) [
    | inl (pass, e) ↦ subst (λ x. (p x ≡ true) × P x) e (pass, all.0)
    | inr (fail, later) ↦ first-All P p t r later all.1
  ]

  pub first-pass : (p : R → Bool) (t : List R) (r : R) → first p t ≡ some r → p r ≡ true
  first-pass p [] r h = absurd (unfold first in ground arith)
  first-pass p (s ∷ t) r h = elim (first-cons p s r t h) [
    | inl (pass, e) ↦ subst (λ x. p x ≡ true) e pass
    | inr (fail, later) ↦ first-pass p t r later
  ]

  pub first-none : (p : R → Bool) (t : List R) → All (λ r. p r ≡ false) t → first p t ≡ none
  unfolding first
  first-none p [] h = refl
  first-none p (r ∷ t) h = rw (h.0) (first-none p t h.1)

  pub none-first : (p : R → Bool) (t : List R) → first p t ≡ none → All (λ r. p r ≡ false) t
  unfolding first
  none-first p [] h = tt
  none-first p (r ∷ t) h = (ground arith, none-first p t (ground arith))

  -- A row that does not pass may be added without effect; one that passes is found, if none was.
  pub first-append_other :
      (p : R → Bool) (t : List R) (x : R) → p x ≡ false → first p (t ++ x ∷ []) ≡ first p t
  unfolding first
  first-append_other p [] x h = rw h refl
  first-append_other p (r ∷ t) x h = ground (arith, first-append_other p t x h)

  pub first-append_self :
      (p : R → Bool) (t : List R) (x : R)
      → p x ≡ true
      → first p t ≡ none
      → first p (t ++ x ∷ []) ≡ some x
  unfolding first
  first-append_self p [] x h e = rw h refl
  first-append_self p (r ∷ t) x h e = ground (arith, first-append_self p t x h)

  pub Single-append :
      (same : R → R → Bool) (t : List R) (x : R)
      → Single same t
      → All (λ r. same r x ≡ false) t
      → Single same (t ++ x ∷ [])
  Single-append same [] x d h = (tt, tt)
  Single-append same (r ∷ t) x d h =
      (All-append _ t (x ∷ []) d.0 (h.0, tt), Single-append same t x d.1 h.1)

  pub All-keep_sub {κ} : (P : R → Type κ) (p : R → Bool) (t : List R) → All P t → All P (keep p t)
  All-keep_sub P p [] h = tt
  All-keep_sub P p (r ∷ t) h = elim (Bool-cases (p r)) [
    | inl pass ↦ rw pass (h.0, All-keep_sub P p t h.1)
    | inr fail ↦ rw fail (All-keep_sub P p t h.1)
  ]

  pub Single-keep :
      (same : R → R → Bool) (p : R → Bool) (t : List R) → Single same t → Single same (keep p t)
  Single-keep same p [] d = tt
  Single-keep same p (r ∷ t) d = elim (Bool-cases (p r)) [
    | inl pass ↦ rw pass (All-keep_sub _ p t d.0, Single-keep same p t d.1)
    | inr fail ↦ rw fail (Single-keep same p t d.1)
  ]

  -- What is kept is found as before by a test that the others fail.
  pub first-keep_other :
      (p q : R → Bool) (t : List R)
      → All (λ r. (q r ≡ true) ⊎ (p r ≡ false)) t
      → first p (keep q t) ≡ first p t
  unfolding first
  first-keep_other p q [] h = refl
  first-keep_other p q (r ∷ t) h = elim h.0 [
    | inl kept ↦ rw (kept, first-keep_other p q t h.1) refl
    | inr fails ↦ elim (Bool-cases (q r)) [
      | inl kept ↦ rw (kept, first-keep_other p q t h.1) refl
      | inr dropped ↦ rw (dropped, fails) (first-keep_other p q t h.1)
    ]
  ]

module _ {ℓ} {R : Type ℓ} (id : R → ℕ) (f : R → R) where
  -- An update by the id of the row that is found, where the test does not see the update.
  pub first-update_self :
      (p : R → Bool) (t : List R) (r : R)
      → ((x : R) → p (f x) ≡ p x)
      → first p t ≡ some r
      → first p (update_where id (id r) f t) ≡ some (f r)
  unfolding first update_where
  first-update_self p [] r same h = absurd (ground arith)
  first-update_self p (s ∷ t) r same h = elim (first-cons p s r t h) [
    | inl (pass, e) ↦ ground (arith, same s, ap id e, ap f e)
    | inr (fail, later) ↦ ground (arith, same s, first-update_self p t r same later)
  ]

  -- The rows of that id fail another test.
  pub first-update_other :
      (p : R → Bool) (i : ℕ) (t : List R)
      → ((x : R) → p (f x) ≡ p x)
      → All (λ x. ((id x == i) ≡ false) ⊎ (p x ≡ false)) t
      → first p (update_where id i f t) ≡ first p t
  unfolding first update_where
  first-update_other p i [] same h = refl
  first-update_other p i (s ∷ t) same h =
      ground (arith, h.0, same s, first-update_other p i t same h.1)

  -- Rows that a filter drops may change unseen.
  pub keep-update_other :
      (p : R → Bool) (i : ℕ) (t : List R)
      → ((x : R) → p (f x) ≡ p x)
      → All (λ x. ((id x == i) ≡ false) ⊎ (p x ≡ false)) t
      → keep p (update_where id i f t) ≡ keep p t
  unfolding update_where
  keep-update_other p i [] same h = refl
  keep-update_other p i (s ∷ t) same h =
      ground (arith, h.0, same s, keep-update_other p i t same h.1)

  pub All-update {κ} :
      (P : R → Type κ) (i : ℕ) (t : List R)
      → ((x : R) → P x → P (f x))
      → All P t
      → All P (update_where id i f t)
  unfolding update_where
  All-update P i [] g h = tt
  All-update P i (s ∷ t) g h = elim (Bool-cases (id s == i)) [
    | inl hit ↦ rw hit (g s h.0, All-update P i t g h.1)
    | inr miss ↦ rw miss (h.0, All-update P i t g h.1)
  ]

  pub Single-update :
      (same : R → R → Bool) (i : ℕ) (t : List R)
      → ((x y : R) → same (f x) y ≡ same x y)
      → ((x y : R) → same x (f y) ≡ same x y)
      → Single same t
      → Single same (update_where id i f t)
  unfolding update_where
  Single-update same i [] l r d = tt
  Single-update same i (s ∷ t) l r d = elim (Bool-cases (id s == i)) [
    | inl hit ↦ rw hit (
      All-update _ i t (λ y h. r (f s) y ∙ h) (All-map _ _ (λ y h. l s y ∙ h) t d.0),
      Single-update same i t l r d.1,
    )
    | inr miss ↦ rw miss (All-update _ i t (λ y h. r s y ∙ h) d.0, Single-update same i t l r d.1)
  ]

module _ {ℓ} {R : Type ℓ} (id : R → ℕ) where
  apart-sym : (a b : ℕ) → (a == b) ≡ false → (b == a) ≡ false
  apart-sym a b h = ground arith

  -- Where ids are distinct, the rows that share the id of a row that is found are that row.
  pub first-others :
      (p : R → Bool) (t : List R) (r : R)
      → Single (λ x y. id y == id x) t
      → first p t ≡ some r
      → (q : R → Bool) → q r ≡ false
      → All (λ x. ((id x == id r) ≡ false) ⊎ (q x ≡ false)) t
  first-others p [] r d h q e = tt
  first-others p (s ∷ t) r d h q e = elim (first-cons p s r t h) [
    | inl (pass, same) ↦ (
      subst (λ x. ((id x == id r) ≡ false) ⊎ (q x ≡ false)) (sym same) (inr e),
      All-map _ _ (λ x apart. inl (subst (λ y. (id x == id y) ≡ false) same apart)) t d.0,
    )
    | inr (fail, later) ↦ (
      inl (apart-sym (id r) (id s) (first-All (λ x. (id x == id s) ≡ false) p t r later d.0).1),
      first-others p t r d.1 later q e,
    )
  ]

  -- Rows that are found by tests that exclude each other have different ids.
  pub first-apart :
      (p q : R → Bool) (t : List R) (r s : R)
      → Single (λ x y. id y == id x) t
      → ((x : R) → p x ≡ true → q x ≡ false)
      → first p t ≡ some r
      → first q t ≡ some s
      → (id s == id r) ≡ false
  first-apart p q t r s d excludes h k =
      let others = first-others p t r d h q (excludes r (first-pass p t r h)) in
      let (pass, either) = first-All _ q t s k others in
      elim either [ inl apart ↦ apart | inr fail ↦ absurd (ground arith) ]
