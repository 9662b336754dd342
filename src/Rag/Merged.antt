-- ===== src/Rag/Merged.antt =====
-- The entries of both legs of a retrieval, by their ids.
use bots_infra_be.Common.{
  ◌≡◌, refl, ◌∙◌, subst, String, str_eq, eq_iff, Option, none, some, Bool-cases, inl, inr, List, [],
  ◌∷◌, map, All, arith, if-intro,
}
use bots_infra_be.Common.Dict.{Dict, get, put, get-put}
use bots_infra_be.Rag.Fusion.{Scores}
use bots_infra_be.Rag.Retrieve.{Row, Via, Hit, Cfg, Sources, add_dense, add_sparse, merged}

module _ {S : Type 0} (scores : Scores S) (sources : Sources S) (cfg : Cfg S)
    (P : Row → Type 0) where
  abbrev pub OfRow : Hit S → Type 0
  OfRow h = P h.row

  -- An entry for an id.
  abbrev pub IsIn : Dict (Hit S) → String → Type 0
  IsIn d id = (h : Hit S) × (get d id ≡ some h)

  abbrev pub Values : Dict (Hit S) → Type 0
  Values [] = Unit
  Values ((k, h) ∷ d) = P h.row × Values d

  put-IsIn : (d : Dict (Hit S)) (k j : String) (h : Hit S) → IsIn d j → IsIn (put d k h) j
  put-IsIn d k j h (g, e) = elim (Bool-cases (str_eq k j)) [
    | inl same ↦ (h, get-put d k j h ∙ rw same refl)
    | inr apart ↦ (g, get-put d k j h ∙ rw apart e)
  ]

  put-IsIn_self : (d : Dict (Hit S)) (k : String) (h : Hit S) → IsIn (put d k h) k
  put-IsIn_self d k h = (h, get-put d k k h ∙ rw ((eq_iff k k).1 refl) refl)

  put-Values : (d : Dict (Hit S)) (k : String) (h : Hit S) → P h.row → Values d → Values (put d k h)
  unfolding put
  put-Values [] k h p vs = (p, tt)
  put-Values ((j, g) ∷ d) k h p vs =
      if-intro Values (str_eq j k) _ _ (λ same. (p, vs.1))
        (λ apart. (vs.0, put-Values d k h p vs.1))

  pub get-Values :
      (d : Dict (Hit S)) (k : String) (h : Hit S) → get d k ≡ some h → Values d → P h.row
  unfolding get
  get-Values [] k h e vs = absurd (ground (arith, e))
  get-Values ((j, g) ∷ d) k h e vs = elim (Bool-cases (str_eq j k)) [
    | inl same ↦
        let found : g ≡ h = ground (arith, e, same) in subst (λ (x : Hit S). P x.row) found vs.0
    | inr apart ↦ get-Values d k h (ground (arith, e, apart)) vs.1
  ]

  -- The entries of both legs.
  pub record Merged (d d' : Dict (Hit S)) (hits : List (Hit S)) : Type 0 where
    pub stays : (id : String) → IsIn d id → IsIn d' id
    pub holds : All (IsIn d') (map (λ h. h.row.id) hits)
    pub values : Values d'

  Merged-put :
      (d d' : Dict (Hit S)) (h g : Hit S) (hits : List (Hit S))
      → Merged (put d h.row.id g) d' hits
      → Merged d d' (h ∷ hits)
  Merged-put d d' h g hits m = record {
    stays = λ id i. m.stays id (put-IsIn d h.row.id id g i);
    holds = (m.stays h.row.id (put-IsIn_self d h.row.id g), m.holds);
    values = m.values;
  }

  pub add_dense-Merged :
      (hits : List (Hit S)) (d : Dict (Hit S))
      → All OfRow hits
      → Values d
      → Merged d (add_dense scores sources cfg hits d) hits
  unfolding add_dense
  add_dense-Merged [] d p vs = record { stays = λ id i. i; holds = tt; values = vs }
  add_dense-Merged (h ∷ hits) d p vs =
      Merged-put d _ h (record h { via = some Via.dense }) hits
        (add_dense-Merged hits _ p.1 (put-Values d h.row.id _ p.0 vs))

  merged-row :
      (h : Hit S) (d : Dict (Hit S)) (old : Option (Hit S))
      → get d h.row.id ≡ old
      → P h.row
      → Values d
      → P (merged scores sources cfg h old).row
  merged-row h d none e p vs = p
  merged-row h d (some old) e p vs = get-Values d h.row.id old e vs

  pub add_sparse-Merged :
      (hits : List (Hit S)) (d : Dict (Hit S))
      → All OfRow hits
      → Values d
      → Merged d (add_sparse scores sources cfg hits d) hits
  unfolding add_sparse
  add_sparse-Merged [] d p vs = record { stays = λ id i. i; holds = tt; values = vs }
  add_sparse-Merged (h ∷ hits) d p vs =
      Merged-put d _ h (merged scores sources cfg h (get d h.row.id)) hits (
        add_sparse-Merged hits _ p.1
          (put-Values d h.row.id _ (merged-row h d (get d h.row.id) refl p.0 vs) vs))
