-- ===== src/Rag/Found.antt =====
-- What a retrieval returns.
use bots_infra_be.Common.{
  ℕ, zero, suc, ◌+◌, ◌-◌, ◌≤◌, ◌≡◌, refl, ap, ◌∙◌, Bool, true, false, not, String, Option, none,
  some, List, [], ◌∷◌, map, take, length, length-take, length-keep-le, All, All-take, All-map,
  All-keep, ltb, arith, if-intro,
}
use bots_infra_be.Common.Dict.{Dict, get}
use bots_infra_be.Rag.Fusion.{Scores, rrf_fuse, sort_by-All, IsOf, rrf_fuse-IsOf}
use bots_infra_be.Rag.Retrieve.{
  Row, Hit, Cfg, Sources, budget, collect, rescore, sorted, prepend, scored, resorted, retrieve_by,
  reranked, cut, then_rerank, then_collect, above, fuse, retrieve,
}
use bots_infra_be.Rag.Merged.{OfRow, IsIn, Values, get-Values, add_dense-Merged, add_sparse-Merged}

module _ {S : Type 0} (scores : Scores S) (sources : Sources S) (cfg : Cfg S)
    (P : Row → Type 0) where
  abbrev pub total_size : List (Hit S) → ℕ
  total_size [] = 0
  total_size (h ∷ hits) = sources.size h.row.content + total_size hits

  -- A list that is there, of hits with the property.
  abbrev IsThere : Option (List (Hit S)) → Type 0
  IsThere none = ⊥
  IsThere (some hits) = All (OfRow scores sources cfg P) hits

  prepend-IsThere :
      (h : Hit S) (rest : Option (List (Hit S)))
      → P h.row
      → IsThere rest
      → IsThere (prepend scores sources cfg h rest)
  prepend-IsThere h none p r = r
  prepend-IsThere h (some hits) p r = (p, r)

  scored-IsThere :
      (s : S) (o : Option (Hit S)) (h : Hit S) (rest : Option (List (Hit S)))
      → o ≡ some h
      → P h.row
      → IsThere rest
      → IsThere (scored scores sources cfg s o rest)
  scored-IsThere s o h rest e p r = rw e (prepend-IsThere (record h { score = s }) rest p r)

  -- No id is missing.
  collect-IsThere :
      (d : Dict (Hit S)) (fused : List (String × S))
      → Values scores sources cfg P d
      → All (IsOf scores (IsIn scores sources cfg P d)) fused
      → IsThere (collect scores sources cfg d fused)
  unfolding collect
  collect-IsThere d [] vs h = tt
  collect-IsThere d ((id, s) ∷ fused) vs ((hit, e), h) =
      scored-IsThere s (get d id) hit _ e (get-Values scores sources cfg P d id hit e vs)
        (collect-IsThere d fused vs h)

  rescore-IsThere :
      (hits : List (Hit S)) (ss : List S)
      → length ss ≡ length hits
      → All (OfRow scores sources cfg P) hits
      → IsThere (rescore scores sources cfg hits ss)
  unfolding rescore
  rescore-IsThere [] [] e p = tt
  rescore-IsThere [] (s ∷ ss) e p = absurd (omega (arith, e))
  rescore-IsThere (h ∷ hits) [] e p = absurd (omega (arith, e))
  rescore-IsThere (h ∷ hits) (s ∷ ss) e p =
      prepend-IsThere (record h { score = s }) _ p.0
        (rescore-IsThere hits ss (omega (arith, e)) p.1)

  sorted-IsThere :
      (hits : Option (List (Hit S))) → IsThere hits → IsThere (sorted scores sources cfg hits)
  sorted-IsThere none h = h
  sorted-IsThere (some hits) h =
      sort_by-All scores (OfRow scores sources cfg P) (λ h. h.score) hits h

  length-map : (A B : Type 0) (f : A → B) (xs : List A) → length (map f xs) ≡ length xs
  length-map A B f [] = refl
  length-map A B f (x ∷ xs) = ap suc (length-map A B f xs)

  -- A list that is there, cut to the limits.
  abbrev pub IsFound : Option (List (Hit S)) → Type 0
  IsFound none = ⊥
  IsFound (some hits) =
      All (λ h. P h.row) hits
      × (length hits ≤ cfg.top_k)
      × (total_size hits ≤ cfg.max_context_chars)

  budget_lem :
      (left : ℕ) (hits : List (Hit S))
      → All (OfRow scores sources cfg P) hits
      → All (OfRow scores sources cfg P) (budget scores sources cfg left hits)
        × (length (budget scores sources cfg left hits) ≤ length hits)
        × (total_size (budget scores sources cfg left hits) ≤ left)
  unfolding budget
  budget_lem left [] p = (tt, omega arith, omega arith)
  budget_lem left (h ∷ hits) p =
      let (rows, shorter, within) = budget_lem (left - sources.size h.row.content) hits p.1 in
      if-intro
        (λ kept.
          All (OfRow scores sources cfg P) kept
          × (length kept ≤ suc (length hits))
          × (total_size kept ≤ left))
        (ltb left (sources.size h.row.content)) _ _ (λ full. (tt, omega arith, omega arith))
        (λ room. ((p.0, rows), omega (arith, shorter), ground (arith, room, within)))

  cut-IsFound :
      (hits : Option (List (Hit S))) → IsThere hits → IsFound (cut scores sources cfg hits)
  cut-IsFound none h = h
  cut-IsFound (some hits) h =
      let (rows, shorter, within) =
        budget_lem cfg.max_context_chars (take cfg.top_k hits)
          (All-take (OfRow scores sources cfg P) cfg.top_k hits h) in
      (rows, omega (arith, shorter, length-take cfg.top_k hits), within)

  module _
      (one_each : (query : String) (texts : List String)
        → length (sources.rerank_scores query texts) ≡ length texts) where
    resorted-IsThere :
        (rerank : Bool) (query : String) (hits : List (Hit S))
        → All (OfRow scores sources cfg P) hits
        → IsThere (resorted scores sources cfg rerank query hits)
    unfolding resorted
    resorted-IsThere false query hits p = p
    resorted-IsThere true query hits p = sorted-IsThere _ (
        rescore-IsThere hits _
          (one_each query _ ∙ length-map (Hit S) String (λ c. c.row.content) hits) p)

    reranked-IsThere :
        (query : String) (hits : List (Hit S))
        → All (OfRow scores sources cfg P) hits
        → IsThere (reranked scores sources cfg query hits)
    unfolding reranked
    reranked-IsThere query [] p = tt
    reranked-IsThere query (h ∷ hits) p = resorted-IsThere cfg.rerank query (h ∷ hits) p

    then_rerank-IsFound :
        (query : String) (hits : Option (List (Hit S)))
        → IsThere hits
        → IsFound (then_rerank scores sources cfg query hits)
    then_rerank-IsFound query none h = h
    then_rerank-IsFound query (some hits) h = cut-IsFound _ (reranked-IsThere query hits h)

    module _ (positive : 1 ≤ cfg.rrf_k) where
      above-OfRow :
          (hits : List (Hit S))
          → All (OfRow scores sources cfg P) hits
          → All (OfRow scores sources cfg P) (above scores sources cfg hits)
      above-OfRow hits p =
          All-map _ (OfRow scores sources cfg P) (λ h q. q.0) _
            (All-keep (OfRow scores sources cfg P) _ hits p)

      then_collect-IsFound :
          (query : String) (d : Dict (Hit S)) (k : ℕ) (rankings : List (List String))
          → 1 ≤ k
          → Values scores sources cfg P d
          → All (All (IsIn scores sources cfg P d)) rankings
          → IsFound (then_collect scores sources cfg query d (rrf_fuse scores rankings k))
      unfolding rrf_fuse
      then_collect-IsFound query d zero rankings pos vs known = absurd (omega (arith, pos))
      then_collect-IsFound query d (suc k) rankings pos vs known = then_rerank-IsFound query _ (
          collect-IsThere d _ vs (
            All-take (IsOf scores (IsIn scores sources cfg P d)) cfg.candidates _
              (rrf_fuse-IsOf scores (IsIn scores sources cfg P d) (suc k) rankings known)))

      fuse-IsFound :
          (query : String) (close exact : List (Hit S))
          → All (OfRow scores sources cfg P) close
          → All (OfRow scores sources cfg P) exact
          → IsFound (fuse scores sources cfg query close exact)
      unfolding fuse
      fuse-IsFound query close exact p q =
          let first = add_dense-Merged scores sources cfg P close [] p tt in
          let second_leg = add_sparse-Merged scores sources cfg P exact _ q first.values in
          then_collect-IsFound query _ cfg.rrf_k _ positive second_leg.values
            (All-map _ _ second_leg.stays _ first.holds, (second_leg.holds, tt))

      module _
          (dense_of : (query : String) (n : ℕ)
            → All (λ h. P h.row) (sources.dense_rows query n)
              × (length (sources.dense_rows query n) ≤ n))
          (sparse_of : (query : String) (n : ℕ)
            → All (λ h. P h.row) (sources.sparse_rows query n)) where
        retrieve_by-IsFound :
            (hybrid : Bool) (query : String) → IsFound (retrieve_by scores sources cfg hybrid query)
        unfolding retrieve_by
        retrieve_by-IsFound true query =
            fuse-IsFound query _ _ (above-OfRow _ (dense_of query cfg.candidates).0)
              (sparse_of query cfg.candidates)
        retrieve_by-IsFound false query =
            let (rows, few) = dense_of query cfg.top_k in
            let (kept, shorter, within) =
              budget_lem cfg.max_context_chars
                (above scores sources cfg (sources.dense_rows query cfg.top_k))
                (above-OfRow _ rows) in
            (
              kept,
              omega (
                arith,
                shorter,
                few,
                length-keep-le (λ h. not (scores.less h.score cfg.min_score))
                    (sources.dense_rows query cfg.top_k),
              ),
              within,
            )

        -- A retrieval raises no error, whatever the two queries find. Every hit says of its chunk what
        -- a row of one of them says, so that it is the tenant's where these rows are; there are no more
        -- than `top_k` hits, and their texts keep to the limit on characters. The constant of the fusion
        -- is positive, the cross-encoder gives a score for each text, and the dense query keeps to its
        -- limit.
        pub retrieve-IsFound : (query : String) → IsFound (retrieve scores sources cfg query)
        unfolding retrieve
        retrieve-IsFound query =
            if-intro IsFound (sources.is_blank query) _ _ (λ blank. (tt, omega arith, omega arith))
              (λ text. retrieve_by-IsFound cfg.hybrid query)
