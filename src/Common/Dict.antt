-- ===== src/Common/Dict.antt =====
-- Python's `dict` with string keys, in insertion order.
use mathlib.Core.Path.{◌≡◌, refl}
use mathlib.Core.Bool.{Bool, false, ◌||◌}
use mathlib.Core.Option.{Option, none, some}
use mathlib.Core.List.{List, [], ◌∷◌}
use Prim.Native.String.{String}
use native.Mathlib.Omega.{arith}
use text.Mathlib.Text.{◌==◌}
use text.Mathlib.TextEquality.{eq_iff}
use bots_infra_be.Common.Tests.{if◌then◌else◌}

abbrev pub Dict {ℓ} : Type ℓ → Type ℓ
Dict V = List (String × V)

-- `k in ks`
abbrev pub elem : String → List String → Bool
elem k [] = false
elem k (j ∷ ks) = (j == k) || elem k ks

module _ {ℓ} {V : Type ℓ} where
  -- `d.get(k)`
  unfoldable pub get : Dict V → String → Option V
  get [] k = none
  get ((j, v) ∷ d) k = if j == k then some v else get d k

  -- `d[k] = v`
  unfoldable pub put : Dict V → String → V → Dict V
  put [] k v = (k, v) ∷ []
  put ((j, w) ∷ d) k v = if j == k then (j, v) ∷ d else (j, w) ∷ put d k v

  -- `d.pop(k, None)`
  unfoldable pub pop : Dict V → String → Dict V
  pop [] k = []
  pop ((j, w) ∷ d) k = if j == k then d else (j, w) ∷ pop d k

  -- `for k in ks: d.pop(k, None)`
  unfoldable pub pop_all : Dict V → List String → Dict V
  pop_all d [] = d
  pop_all d (k ∷ ks) = pop_all (pop d k) ks

  -- No key is bound twice.
  abbrev pub Unique : Dict V → Type ℓ
  Unique [] = Unit
  Unique ((k, v) ∷ d) = (get d k ≡ none) × Unique d

  pub get-put :
      (d : Dict V) (k j : String) (v : V) → get (put d k v) j ≡ (if k == j then some v else get d j)
  unfolding get put
  get-put [] k j v = refl
  get-put ((i, w) ∷ d) k j v = ground (arith, eq_iff k j, eq_iff i k, eq_iff i j, get-put d k j v)

  pub get-pop_ne : (d : Dict V) (k j : String) → (k == j) ≡ false → get (pop d k) j ≡ get d j
  unfolding get pop
  get-pop_ne [] k j h = refl
  get-pop_ne ((i, w) ∷ d) k j h =
      ground (arith, eq_iff k j, eq_iff i k, eq_iff i j, get-pop_ne d k j h)

  pub get-pop_self : (d : Dict V) (k : String) → Unique d → get (pop d k) k ≡ none
  unfolding get pop
  get-pop_self [] k u = refl
  get-pop_self ((i, w) ∷ d) k u = ground (arith, eq_iff i k, get-pop_self d k u.1)

  pub get-pop :
      (d : Dict V) (k j : String) → Unique d → get (pop d k) j ≡ (if k == j then none else get d j)
  get-pop d k j u = ground (arith, eq_iff k j, get-pop_self d k u, get-pop_ne d k j)

  pub put-Unique : (d : Dict V) (k : String) (v : V) → Unique d → Unique (put d k v)
  unfolding put get
  put-Unique [] k v u = (refl, tt)
  put-Unique ((i, w) ∷ d) k v u =
      ground (arith, eq_iff i k, eq_iff k i, put-Unique d k v u.1, get-put d k i v)

  pub pop-Unique : (d : Dict V) (k : String) → Unique d → Unique (pop d k)
  unfolding pop get
  pop-Unique [] k u = tt
  pop-Unique ((i, w) ∷ d) k u =
      ground (arith, eq_iff i k, eq_iff k i, pop-Unique d k u.1, get-pop_ne d k i)

  pub pop_all-Unique : (d : Dict V) (ks : List String) → Unique d → Unique (pop_all d ks)
  unfolding pop_all
  pop_all-Unique d [] u = u
  pop_all-Unique d (k ∷ ks) u = pop_all-Unique (pop d k) ks (pop-Unique d k u)

  pub get-pop_all :
      (d : Dict V) (ks : List String) (j : String)
      → Unique d
      → get (pop_all d ks) j ≡ (if elem j ks then none else get d j)
  unfolding pop_all
  get-pop_all d [] j u = refl
  get-pop_all d (k ∷ ks) j u =
      ground (arith, get-pop_all (pop d k) ks j (pop-Unique d k u), get-pop d k j u)

  -- `[k for k, v in d.items() if p(v)]`
  unfoldable pub keys_where : (V → Bool) → Dict V → List String
  keys_where p [] = []
  keys_where p ((k, v) ∷ d) = let rest = keys_where p d in if p v then k ∷ rest else rest

  -- A key is collected exactly when the value it is bound to passes the test.
  pub elem-keys_where :
      (p : V → Bool) (d : Dict V) (j : String)
      → Unique d
      → elem j (keys_where p d) ≡ (elim (get d j) [ none ↦ false | some v ↦ p v ])
  unfolding get keys_where
  elem-keys_where p [] j u = refl
  elem-keys_where p ((i, w) ∷ d) j u = ground (arith, eq_iff i j, elem-keys_where p d j u.1)
