-- ===== src/Console/Effect.antt =====
-- A change of a tenant's configuration is what the next turn is answered with.
use bots_infra_be.Common.{
  ℕ, ◌≡◌, refl, ◌∙◌, ◌&&◌, ◌==◌, eq_iff, subst, true, String, concat, str_eq, Option, none, some,
  arith, if-intro, Bool-cases, inl, inr, ◌+◌,
}
use bots_infra_be.Common.Dict.{get, Unique}
use bots_infra_be.Common.First.{first, first-pass, first-append_self, first-update_self}
use bots_infra_be.Common.Json.{Value, Fields}
use bots_infra_be.Common.Json
use bots_infra_be.Config.Merge.{get-put, get-put-other}
use bots_infra_be.Config.Cache.{get-invalidate, get_cached}
use bots_infra_be.Tenants.{Tenant, Location, Platform, Settings}
use bots_infra_be.Tenants.Resolve.{
  put_all, Request, Cache, build_config, config_for, cache_key, or_build,
}
use bots_infra_be.Console.{State, Setup, Answer, auth, tenant_with_key, tenant_or_404}
use bots_infra_be.Console.Requests.{
  LocationIn, New, update_tenant, add_location, new_location, set_overrides, forget, is_some,
  is_location,
}
use bots_infra_be.Console.Kept.{is_some-none}
use bots_infra_be.Console.Atomic.{Ends, authorized-Ends, session_scope-Ends}

-- `startswith`, of a text that begins with a key and a colon.
abbrev pub SeesPrefix : Setup → Type 0
SeesPrefix setup =
    (k rest : String) → setup.starts_with (concat k (concat ":" rest)) (concat k ":") ≡ true

-- What an override makes of a value: its own, if it has one.
abbrev pub overlaid : Option Value → Option Value → Option Value
overlaid old none = old
overlaid old (some v) = some v

-- Key by key, the merged overrides hold the new value, or else the old one.
get-put_all :
    (b d : Fields) (j : String)
    → Json.Unique d
    → Json.get (put_all b d) j ≡ overlaid (Json.get b j) (Json.get d j)
unfolding Json.get
get-put_all b Fields.blank j u = refl
get-put_all b (Fields.entry k v d) j u =
    get-put_all (Json.put b k v) d j u.1 ∙ elim (Bool-cases (str_eq k j)) [
      | inl same ↦ rw same (
          subst (λ i. overlaid (Json.get (Json.put b k v) i) (Json.get d i) ≡ some v)
            ((eq_iff k j).0 same) (rw (u.0) (get-put b k v)))
      | inr apart ↦ rw (apart, get-put-other b k j v apart) refl
    ]

module _ (setup : Setup) (s : State) (sees : SeesPrefix setup) (unique : Unique s.cache) where
  or_build-missed :
      (now : ℕ) (k : String) (new : Settings) (cache : Cache)
      → get cache k ≡ none
      → (or_build now k new (get_cached now k cache)).0 ≡ new
  unfolding get_cached
  or_build-missed now k new cache h = rw (h, or_build) refl

  forget-missed :
      (p : Platform) (r : Request) (t : Tenant)
      → get
          (forget setup t.key s).cache
          (cache_key p t.key r.location_key r.channel t.config_version)
        ≡ none
  unfolding cache_key
  forget-missed p r t =
      rw
        (
          get-invalidate (λ j. setup.starts_with j (concat t.key ":")) s.cache
              (cache_key p t.key r.location_key r.channel t.config_version) unique,
          sees t.key _,
        )
        refl

  -- Every configuration of the tenant is built anew.
  abbrev pub IsRebuilt : Tenant → Cache → Type 0
  IsRebuilt t cache =
      (p : Platform) (now : ℕ) (r : Request) (location : Option Location)
      → (config_for p now r t location cache).0 ≡ build_config p r.channel t location

  forget-IsRebuilt : (t : Tenant) → IsRebuilt t (forget setup t.key s).cache
  unfolding config_for
  forget-IsRebuilt t p now r location =
      or_build-missed now (cache_key p t.key r.location_key r.channel t.config_version)
        (build_config p r.channel t location) (forget setup t.key s).cache (forget-missed p r t)

  -- The row with a key, and what the cache says once the key's entries are dropped.
  rebuilt :
      (tenant_key : String) (t : Tenant)
      → tenant_with_key tenant_key s.database.chat.tenants ≡ some t
      → (u : Tenant) → u.key ≡ t.key
      → IsRebuilt u (forget setup tenant_key s).cache
  rebuilt tenant_key t h u e =
      let pass = first-pass (λ x. str_eq x.key tenant_key) s.database.chat.tenants t h in
      subst (λ k. IsRebuilt u (forget setup k s).cache) (e ∙ (eq_iff t.key tenant_key).0 pass)
        (forget-IsRebuilt u)

  -- The row that is found by the key: the next version, the overrides laid over those of before key by
  -- key, and otherwise the row of before.
  abbrev pub IsUpdated : String → Fields → Tenant → State → Type 0
  IsUpdated tenant_key overrides t s' =
      (u : Tenant) × (tenant_with_key tenant_key s'.database.chat.tenants ≡ some u)
      × (u.config_version ≡ t.config_version + 1)
      × ((k : String)
          → Json.get u.config_overrides k
            ≡ overlaid (Json.get t.config_overrides k) (Json.get overrides k))
      × (record u { config_overrides = t.config_overrides; config_version = t.config_version } ≡ t)
      × IsRebuilt u s'.cache

  update_tenant-IsUpdated :
      (key : Option String) (tenant_key : String) (overrides : Fields) (t : Tenant)
      → tenant_with_key tenant_key s.database.chat.tenants ≡ some t
      → Json.Unique overrides
      → Ends
          (λ s'. (auth setup key ≡ Answer.ok tt) × IsUpdated tenant_key overrides t s')
          s
          (update_tenant setup key tenant_key overrides s)
  unfolding update_tenant tenant_or_404
  update_tenant-IsUpdated key tenant_key overrides t h once =
      authorized-Ends (IsUpdated tenant_key overrides t) setup key s _ (
        session_scope-Ends (IsUpdated tenant_key overrides t) _ s (
          rw h (
            set_overrides overrides t,
            first-update_self (λ u. u.id) (set_overrides overrides) (λ u. str_eq u.key tenant_key)
                s.database.chat.tenants t (λ x. refl) h,
            refl,
            λ k. get-put_all t.config_overrides overrides k once,
            refl,
            rebuilt tenant_key t h (set_overrides overrides t) refl,
          )))

  abbrev pub IsPlaced : New → LocationIn → Tenant → State → Type 0
  IsPlaced new body t s' =
      ((l : Location) × (first (is_location t.id body.key) s'.database.chat.locations ≡ some l)
        × (l.tenant ≡ t.id)
        × (l.key ≡ body.key)
        × (l.name ≡ body.name)
        × (l.timezone ≡ body.timezone)
        × (l.config_overrides ≡ body.config_overrides))
      × IsRebuilt t s'.cache

  add_location-IsPlaced :
      (key : Option String) (new : New) (tenant_key : String) (body : LocationIn) (t : Tenant)
      → tenant_with_key tenant_key s.database.chat.tenants ≡ some t
      → Ends
          (λ s'. (auth setup key ≡ Answer.ok tt) × IsPlaced new body t s')
          s
          (add_location setup key new tenant_key body s)
  unfolding add_location tenant_or_404
  add_location-IsPlaced key new tenant_key body t h =
      authorized-Ends (IsPlaced new body t) setup key s _ (
        session_scope-Ends (IsPlaced new body t) _ s (
          rw h (
            if-intro (Ends (IsPlaced new body t) s)
              (is_some (first (is_location t.id body.key) s.database.chat.locations)) _ _
              (λ taken. refl)
              (λ free. (
                (
                  new_location new t.id body,
                  first-append_self (is_location t.id body.key) s.database.chat.locations
                      (new_location new t.id body) (here t.id body.key) (is_some-none _ free),
                  refl,
                  refl,
                  refl,
                  refl,
                  refl,
                ),
                rebuilt tenant_key t h t refl,
              )))))
    where
      here : (i : ℕ) (k : String) → ((i == i) && str_eq k k) ≡ true
      here i k = ground (arith, eq_iff k k)

  -- `startswith` sees a key and its colon at the start of a text, the cache has no key twice, and the
  -- overrides bind a key once. Where the request for a tenant that there is ends without an error, the
  -- update of its configuration leaves the row with the next version and, under each key, the new value
  -- or else the old one, and with all else as it was; a location that is added is found by its key with
  -- what the request says of it; and then whatever any turn of the tenant asks for is built from the
  -- rows, not from the cache.
  pub reconfigured-IsRebuilt :
      (key : Option String) (new : New) (tenant_key : String) (overrides : Fields)
      (body : LocationIn) (t : Tenant)
      → tenant_with_key tenant_key s.database.chat.tenants ≡ some t
      → Json.Unique overrides
      → Ends
          (λ s'. (auth setup key ≡ Answer.ok tt) × IsUpdated tenant_key overrides t s')
          s
          (update_tenant setup key tenant_key overrides s)
        × Ends
            (λ s'. (auth setup key ≡ Answer.ok tt) × IsPlaced new body t s')
            s
            (add_location setup key new tenant_key body s)
  reconfigured-IsRebuilt key new tenant_key overrides body t h once = (
    update_tenant-IsUpdated key tenant_key overrides t h once,
    add_location-IsPlaced key new tenant_key body t h,
  )
