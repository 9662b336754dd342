-- ===== src/Config/Cache.antt =====
-- The cache of resolved configurations: `get_cached`, `put_cached`, `invalidate`. Times are seconds of
-- the monotonic clock. `str.startswith` is an argument, and so is the type of configurations.
use bots_infra_be.Common.{
  ℕ, ◌-◌, ◌≤◌, ◌≡◌, ◌⊎◌, refl, ◌∙◌, Bool, false, String, str_eq, eq_iff, Option, none, some, List,
  [], ◌∷◌, arith, ltb, if◌then◌else◌, inl, inr,
}
use bots_infra_be.Common.Dict.{
  Dict, get, put, pop, pop_all, elem, Unique, get-put, get-pop, put-Unique, pop-Unique,
  pop_all-Unique, get-pop_all,
}

-- `_TTL_SECONDS`
abbrev pub ttl : ℕ
ttl = 60

module _ {ℓ} {C : Type ℓ} where
  -- `[k for k in _CACHE if k.startswith(prefix)]`
  unfoldable pub keys_with : (String → Bool) → Dict (ℕ × C) → List String
  keys_with p [] = []
  keys_with p ((k, v) ∷ d) = let rest = keys_with p d in if p k then k ∷ rest else rest

  -- `get_cached`: the answer, and the cache without an entry that is too old.
  unfoldable pub get_cached : ℕ → String → Dict (ℕ × C) → Option C × Dict (ℕ × C)
  get_cached now k cache = elim (get cache k) [
    | none ↦ (none, cache)
    | some (at, cfg) ↦ if ltb ttl (now - at) then (none, pop cache k) else (some cfg, cache)
  ]

  unfoldable pub put_cached : ℕ → String → C → Dict (ℕ × C) → Dict (ℕ × C)
  put_cached now k cfg cache = put cache k (now, cfg)

  unfoldable pub invalidate : (String → Bool) → Dict (ℕ × C) → Dict (ℕ × C)
  unfolding keys_with
  invalidate starts cache = pop_all cache (keys_with starts cache)

-- A call of one of the three, with its time.
pub data Call {ℓ} (C : Type ℓ) : Type ℓ where
  reads : ℕ → String → Call C
  writes : ℕ → String → C → Call C
  drops : (String → Bool) → Call C

module _ {ℓ} {C : Type ℓ} where
  -- The cache after a history of calls, the last call first.
  unfoldable pub after : List (Call C) → Dict (ℕ × C)
  unfolding get_cached put_cached invalidate
  after [] = []
  after (Call.reads now k ∷ calls) = (get_cached now k (after calls)).1
  after (Call.writes now k cfg ∷ calls) = put_cached now k cfg (after calls)
  after (Call.drops starts ∷ calls) = invalidate starts (after calls)

  -- What the history says of a key: the last configuration that was put under it, unless that is older
  -- than the TTL or the key was invalidated since.
  unfoldable pub recall : ℕ → String → List (Call C) → Option C
  recall now k [] = none
  recall now k (Call.reads at j ∷ calls) = recall now k calls
  recall now k (Call.writes at j cfg ∷ calls) =
      let older = recall now k calls in
      if str_eq j k then (if ltb ttl (now - at) then none else some cfg) else older
  recall now k (Call.drops starts ∷ calls) =
      let older = recall now k calls in if starts k then none else older

  -- No read is later than `now`.
  abbrev pub IsPast : ℕ → List (Call C) → Type 0
  IsPast now [] = Unit
  IsPast now (Call.reads at j ∷ calls) = (at ≤ now) × IsPast now calls
  IsPast now (Call.writes at j cfg ∷ calls) = IsPast now calls
  IsPast now (Call.drops starts ∷ calls) = IsPast now calls

  -- The answer of an entry.
  abbrev fresh : ℕ → Option (ℕ × C) → Option C
  fresh now none = none
  fresh now (some (at, cfg)) = if ltb ttl (now - at) then none else some cfg

  elem-keys_with :
      (p : String → Bool) (d : Dict (ℕ × C)) (j : String)
      → elem j (keys_with p d) ≡ (elim (get d j) [ none ↦ false | some v ↦ p j ])
  unfolding keys_with get
  elem-keys_with p [] j = refl
  elem-keys_with p ((i, v) ∷ d) j = ground (arith, eq_iff i j, elem-keys_with p d j)

  -- What is invalidated is gone, and every other entry stays.
  pub get-invalidate :
      (p : String → Bool) (d : Dict (ℕ × C)) (k : String)
      → Unique d
      → get (invalidate p d) k ≡ (if p k then none else get d k)
  unfolding invalidate
  get-invalidate p d k u = ground (arith, get-pop_all d (keys_with p d) k u, elem-keys_with p d k)

  pub invalidate-Unique :
      (p : String → Bool) (d : Dict (ℕ × C)) → Unique d → Unique (invalidate p d)
  unfolding invalidate
  invalidate-Unique p d u = pop_all-Unique d (keys_with p d) u

  get_cached_cases :
      (now : ℕ) (k : String) (d : Dict (ℕ × C))
      → ((get_cached now k d).1 ≡ d) ⊎ ((get_cached now k d).1 ≡ pop d k)
  unfolding get_cached
  get_cached_cases now k d = ground arith

  get_cached-Unique :
      (now : ℕ) (k : String) (d : Dict (ℕ × C)) → Unique d → Unique (get_cached now k d).1
  get_cached-Unique now k d u = elim (get_cached_cases now k d) [
    | inl same ↦ rw same u
    | inr popped ↦ rw popped (pop-Unique d k u)
  ]

  -- A read drops no entry that a later read could answer.
  get_cached-get :
      (at now : ℕ) (k j : String) (d : Dict (ℕ × C))
      → at ≤ now
      → Unique d
      → fresh now (get (get_cached at k d).1 j) ≡ fresh now (get d j)
  unfolding get_cached
  get_cached-get at now k j d le u = ground (arith, get-pop d k j u, eq_iff k j)

  after-Unique : (calls : List (Call C)) → Unique (after calls)
  unfolding after put_cached invalidate
  after-Unique [] = tt
  after-Unique (Call.reads now k ∷ calls) =
      get_cached-Unique now k (after calls) (after-Unique calls)
  after-Unique (Call.writes now k cfg ∷ calls) =
      put-Unique (after calls) k (now, cfg) (after-Unique calls)
  after-Unique (Call.drops starts ∷ calls) =
      pop_all-Unique (after calls) (keys_with starts (after calls)) (after-Unique calls)

  get_cached-fresh :
      (now : ℕ) (k : String) (d : Dict (ℕ × C)) → (get_cached now k d).0 ≡ fresh now (get d k)
  unfolding get_cached
  get_cached-fresh now k d = ground arith

  fresh-after :
      (now : ℕ) (k : String) (calls : List (Call C))
      → IsPast now calls
      → fresh now (get (after calls) k) ≡ recall now k calls
  unfolding after recall put_cached invalidate
  fresh-after now k [] h = unfold get in refl
  fresh-after now k (Call.reads at j ∷ calls) h =
      get_cached-get at now j k (after calls) h.0 (after-Unique calls) ∙ fresh-after now k calls h.1
  fresh-after now k (Call.writes at j cfg ∷ calls) h =
      ground (arith, get-put (after calls) j k (at, cfg), fresh-after now k calls h)
  fresh-after now k (Call.drops starts ∷ calls) h = ground (
    arith,
    get-pop_all (after calls) (keys_with starts (after calls)) k (after-Unique calls),
    elem-keys_with starts (after calls) k,
    fresh-after now k calls h,
  )

  -- After any history of reads, writes and invalidations with no read later than now, a read answers
  -- the configuration that was last put under its key, unless that is more than a minute old or the key
  -- was invalidated since; else it misses. What other reads dropped is never missed.
  pub get_cached-recall :
      (now : ℕ) (k : String) (calls : List (Call C))
      → IsPast now calls
      → (get_cached now k (after calls)).0 ≡ recall now k calls
  get_cached-recall now k calls h = get_cached-fresh now k (after calls) ∙ fresh-after now k calls h
