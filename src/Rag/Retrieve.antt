-- ===== src/Rag/Retrieve.antt =====
-- The hybrid retrieval: app/rag/retriever.py. What the two queries of PostgreSQL return is an argument,
-- by their limit, and so are the scores of the cross-encoder.
use bots_infra_be.Common.{
  ℕ, ◌-◌, Bool, true, false, not, String, Option, none, some, List, [], ◌∷◌, map, keep, take, ltb,
  if◌then◌else◌,
}
use bots_infra_be.Common.Dict.{Dict, get, put}
use bots_infra_be.Rag.Fusion.{Scores, rrf_fuse, sort_by}

-- What a hit says of its chunk.
pub record Row : Type 0 where
  pub id : String
  pub content : String
  pub source_url : String

pub data Via : Type 0 where
  dense sparse in_both : Via

pub record Hit (S : Type 0) : Type 0 where
  pub row : Row
  pub score : S
  pub via : Option Via

pub record Cfg (S : Type 0) : Type 0 where
  pub top_k : ℕ
  pub min_score : S
  pub max_context_chars : ℕ
  pub hybrid : Bool
  pub rerank : Bool
  pub candidates : ℕ
  pub rrf_k : ℕ

-- `dense` and `sparse` are the two queries, for a limit on the rows; `size` is `len`.
pub record Sources (S : Type 0) : Type 0 where
  pub is_blank : String → Bool
  pub dense_rows : String → ℕ → List (Hit S)
  pub sparse_rows : String → ℕ → List (Hit S)
  pub rerank_scores : String → List String → List S
  pub size : String → ℕ

module _ {S : Type 0} (scores : Scores S) (sources : Sources S) (cfg : Cfg S) where
  -- `_budget`, with what is left of the budget.
  unfoldable pub budget : ℕ → List (Hit S) → List (Hit S)
  budget left [] = []
  budget left (h ∷ hits) =
      let rest = budget (left - sources.size h.row.content) hits in
      if ltb left (sources.size h.row.content) then [] else h ∷ rest

  unfoldable pub add_dense : List (Hit S) → Dict (Hit S) → Dict (Hit S)
  add_dense [] d = d
  add_dense (h ∷ hits) d = add_dense hits (put d h.row.id (record h { via = some Via.dense }))

  -- `by_id[h["id"]]["via"] = "both"`, or a new entry.
  abbrev pub merged : Hit S → Option (Hit S) → Hit S
  merged h none = record h { via = some Via.sparse }
  merged h (some old) = record old { via = some Via.in_both }

  unfoldable pub add_sparse : List (Hit S) → Dict (Hit S) → Dict (Hit S)
  add_sparse [] d = d
  add_sparse (h ∷ hits) d = add_sparse hits (put d h.row.id (merged h (get d h.row.id)))

  abbrev pub prepend : Hit S → Option (List (Hit S)) → Option (List (Hit S))
  prepend h none = none
  prepend h (some hits) = some (h ∷ hits)

  abbrev pub scored : S → Option (Hit S) → Option (List (Hit S)) → Option (List (Hit S))
  scored s none rest = none
  scored s (some h) rest = prepend (record h { score = s }) rest

  -- `[dict(by_id[doc_id], score=score) for …]`: `none` is a `KeyError`.
  unfoldable pub collect : Dict (Hit S) → List (String × S) → Option (List (Hit S))
  collect d [] = some []
  collect d ((id, s) ∷ fused) = scored s (get d id) (collect d fused)

  -- `zip(candidates, scores, strict=True)`: `none` is a `ValueError`.
  unfoldable pub rescore : List (Hit S) → List S → Option (List (Hit S))
  rescore [] [] = some []
  rescore [] (s ∷ ss) = none
  rescore (h ∷ hits) [] = none
  rescore (h ∷ hits) (s ∷ ss) = prepend (record h { score = s }) (rescore hits ss)

  abbrev pub sorted : Option (List (Hit S)) → Option (List (Hit S))
  sorted none = none
  sorted (some hits) = some (sort_by scores (λ h. h.score) hits)

  -- With the setting `rerank`.
  unfoldable pub resorted : Bool → String → List (Hit S) → Option (List (Hit S))
  unfolding rescore
  resorted false query hits = some hits
  resorted true query hits =
      sorted (rescore hits (sources.rerank_scores query (map (λ c. c.row.content) hits)))

  unfoldable pub reranked : String → List (Hit S) → Option (List (Hit S))
  unfolding resorted
  reranked query [] = some []
  reranked query (h ∷ hits) = resorted cfg.rerank query (h ∷ hits)

  abbrev pub cut : Option (List (Hit S)) → Option (List (Hit S))
  cut none = none
  cut (some hits) = some (budget cfg.max_context_chars (take cfg.top_k hits))

  abbrev pub then_rerank : String → Option (List (Hit S)) → Option (List (Hit S))
  then_rerank query none = none
  then_rerank query (some candidates) = cut (reranked query candidates)

  abbrev pub then_collect :
      String → Dict (Hit S) → Option (List (String × S)) → Option (List (Hit S))
  then_collect query by_id none = none
  then_collect query by_id (some fused) =
      then_rerank query (collect by_id (take cfg.candidates fused))

  abbrev pub above : List (Hit S) → List (Hit S)
  above hits = keep (λ h. not (scores.less h.score cfg.min_score)) hits

  unfoldable pub fuse : String → List (Hit S) → List (Hit S) → Option (List (Hit S))
  unfolding add_dense add_sparse collect reranked
  fuse query close exact =
      then_collect query (add_sparse exact (add_dense close []))
        (rrf_fuse scores (map (λ h. h.row.id) close ∷ map (λ h. h.row.id) exact ∷ []) cfg.rrf_k)

  -- With the setting `hybrid`.
  unfoldable pub retrieve_by : Bool → String → Option (List (Hit S))
  unfolding budget fuse
  retrieve_by false query =
      some (budget cfg.max_context_chars (above (sources.dense_rows query cfg.top_k)))
  retrieve_by true query =
      fuse query (above (sources.dense_rows query cfg.candidates))
        (sources.sparse_rows query cfg.candidates)

  -- `retrieve`
  unfoldable pub retrieve : String → Option (List (Hit S))
  unfolding retrieve_by
  retrieve query = if sources.is_blank query then some [] else retrieve_by cfg.hybrid query
