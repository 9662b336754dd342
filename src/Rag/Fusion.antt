-- ===== src/Rag/Fusion.antt =====
-- Reciprocal rank fusion: app/rag/fusion.py. Scores are floats in the source; here they are any type
-- with the operations that the code uses.
use bots_infra_be.Common.{
  ℕ, zero, suc, ◌+◌, Bool, String, str_eq, Option, none, some, List, [], ◌∷◌, All, if◌then◌else◌,
  if-intro,
}
use bots_infra_be.Common.Dict.{Dict, get, put}

pub record Scores (S : Type 0) : Type 0 where
  pub zero_score : S
  pub add : S → S → S
  pub reciprocal : ℕ → S
  pub less : S → S → Bool

module _ {S : Type 0} (scores : Scores S) where
  -- `scores.get(doc_id, 0.0)`
  abbrev pub score_of : Option S → S
  score_of none = scores.zero_score
  score_of (some s) = s

  -- The inner loop, from a rank on.
  unfoldable pub add_ranking : ℕ → ℕ → List String → Dict S → Dict S
  add_ranking k rank [] d = d
  add_ranking k rank (id ∷ ids) d =
      add_ranking k (rank + 1) ids
        (put d id (scores.add (score_of (get d id)) (scores.reciprocal (k + rank))))

  unfoldable pub add_rankings : ℕ → List (List String) → Dict S → Dict S
  unfolding add_ranking
  add_rankings k [] d = d
  add_rankings k (ids ∷ rankings) d = add_rankings k rankings (add_ranking k 1 ids d)

  -- `sorted(…, reverse=True)` is stable: an element goes before the ones that are not greater.
  unfoldable pub insert_by : {A : Type 0} → (A → S) → A → List A → List A
  insert_by key x [] = x ∷ []
  insert_by key x (y ∷ ys) =
      let rest = insert_by key x ys in if scores.less (key x) (key y) then y ∷ rest else x ∷ y ∷ ys

  unfoldable pub sort_by : {A : Type 0} → (A → S) → List A → List A
  unfolding insert_by
  sort_by key [] = []
  sort_by key (x ∷ xs) = insert_by key x (sort_by key xs)

  abbrev pub second : String × S → S
  second (id, s) = s

  -- `rrf_fuse`: `none` is the `ValueError`.
  unfoldable pub rrf_fuse : List (List String) → ℕ → Option (List (String × S))
  unfolding add_rankings sort_by
  rrf_fuse rankings zero = none
  rrf_fuse rankings (suc k) = some (sort_by second (add_rankings (suc k) rankings []))

  insert_by-All :
      {A : Type 0} (P : A → Type 0) (key : A → S) (x : A) (ys : List A)
      → P x
      → All P ys
      → All P (insert_by key x ys)
  unfolding insert_by
  insert_by-All P key x [] px h = (px, tt)
  insert_by-All P key x (y ∷ ys) px h =
      if-intro (All P) (scores.less (key x) (key y)) _ _
        (λ smaller. (h.0, insert_by-All P key x ys px h.1)) (λ other. (px, h))

  pub sort_by-All :
      {A : Type 0} (P : A → Type 0) (key : A → S) (xs : List A) → All P xs → All P (sort_by key xs)
  unfolding sort_by
  sort_by-All P key [] h = tt
  sort_by-All P key (x ∷ xs) h =
      insert_by-All P key x (sort_by key xs) h.0 (sort_by-All P key xs h.1)

  module _ (P : String → Type 0) where
    abbrev KeysOf : Dict S → Type 0
    KeysOf [] = Unit
    KeysOf ((k, s) ∷ d) = P k × KeysOf d

    put-KeysOf : (d : Dict S) (k : String) (s : S) → P k → KeysOf d → KeysOf (put d k s)
    unfolding put
    put-KeysOf [] k s p h = (p, tt)
    put-KeysOf ((j, t) ∷ d) k s p h =
        if-intro KeysOf (str_eq j k) _ _ (λ same. h) (λ apart. (h.0, put-KeysOf d k s p h.1))

    add_ranking-KeysOf :
        (k rank : ℕ) (ids : List String) (d : Dict S)
        → All P ids
        → KeysOf d
        → KeysOf (add_ranking k rank ids d)
    unfolding add_ranking
    add_ranking-KeysOf k rank [] d p h = h
    add_ranking-KeysOf k rank (id ∷ ids) d p h =
        add_ranking-KeysOf k (rank + 1) ids _ p.1 (put-KeysOf d id _ p.0 h)

    add_rankings-KeysOf :
        (k : ℕ) (rankings : List (List String)) (d : Dict S)
        → All (All P) rankings
        → KeysOf d
        → KeysOf (add_rankings k rankings d)
    unfolding add_rankings
    add_rankings-KeysOf k [] d p h = h
    add_rankings-KeysOf k (ids ∷ rankings) d p h =
        add_rankings-KeysOf k rankings _ p.1 (add_ranking-KeysOf k 1 ids d p.0 h)

    abbrev pub IsOf : String × S → Type 0
    IsOf (id, s) = P id

    KeysOf-All : (d : Dict S) → KeysOf d → All IsOf d
    KeysOf-All [] h = tt
    KeysOf-All ((k, s) ∷ d) h = (h.0, KeysOf-All d h.1)

    -- What is fused comes from the rankings.
    pub rrf_fuse-IsOf :
        (k : ℕ) (rankings : List (List String))
        → All (All P) rankings
        → All IsOf (sort_by second (add_rankings k rankings []))
    rrf_fuse-IsOf k rankings p =
        sort_by-All IsOf second _ (KeysOf-All _ (add_rankings-KeysOf k rankings [] p tt))
