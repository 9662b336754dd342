-- ===== src/Console/Kept.antt =====
-- What each handler that writes keeps: the constraints, and what is not its tenant's.
use bots_infra_be.Common.{
  ℕ, ◌≡◌, refl, false, ◌&&◌, String, concat, str_eq, eq_iff, Option, none, some, [], ◌∷◌, ◌++◌,
  arith, ◌==◌, All, All-map, if-intro, keep-append,
}
use bots_infra_be.Common.Dict.{get}
use bots_infra_be.Common.First.{
  first, first-others, first-pass, none-first, first-append_other, Single-append,
  first-update_other, Single-update,
}
use bots_infra_be.Common.Json.{Fields}
use bots_infra_be.Config.Cache.{get-invalidate, invalidate-Unique}
use bots_infra_be.Tenants.{Tenant, Location}
use bots_infra_be.Credentials.Kept.{}
use bots_infra_be.Console.{State, Setup, tenant_with_key}
use bots_infra_be.Console.Requests.{
  is_location, TenantIn, LocationIn, New, new_tenant, new_location, is_some, create_in_session,
  update_row, set_overrides, add_row, forget, set_tenants, set_locations,
}
use bots_infra_be.Console.Atomic.{Ends}
use bots_infra_be.Console.Sound.{
  IsSound, Spares, Spares-same, ids_apart, same_id, same_key, same_public_key, same_place,
}

-- No tenant has the new id.
abbrev pub IsNewTenant : New → State → Type 0
IsNewTenant new s = All (λ t. (new.fresh.id == t.id) ≡ false) s.database.chat.tenants

pub is_some-none : {A : Type 0} (o : Option A) → is_some o ≡ false → o ≡ none
is_some-none none h = refl
is_some-none (some a) h = absurd (ground arith)

str_eq_sym : (a b : String) → str_eq a b ≡ false → str_eq b a ≡ false
str_eq_sym a b h = ground (arith, eq_iff a b, eq_iff b a)

apart_sym : (a b : ℕ) → (a == b) ≡ false → (b == a) ≡ false
apart_sym a b h = ground arith

flip_place :
    (tenant : ℕ) (key : String) (l : Location)
    → is_location tenant key l ≡ false
    → ((tenant == l.tenant) && str_eq key l.key) ≡ false
flip_place tenant key l h = ground (arith, eq_iff key l.key, eq_iff l.key key)

module _ (setup : Setup) (tenant_key : String) (s : State) (sound : IsSound s) where
  -- The handler's state is one with the constraints, and spares the other tenants.
  abbrev pub Keeps : State → Type 0
  Keeps s' = IsSound s' × Spares setup tenant_key s s'

  pub Keeps-same : Keeps s
  Keeps-same = (sound, Spares-same setup tenant_key s)

  other_key :
      (t : Tenant)
      → tenant_with_key tenant_key s.database.chat.tenants ≡ some t
      → (k : String) → str_eq k tenant_key ≡ false
      → str_eq t.key k ≡ false
  other_key t h k apart =
      let pass = first-pass (λ u. str_eq u.key tenant_key) s.database.chat.tenants t h in
      ground (arith, eq_iff t.key tenant_key, eq_iff t.key k, eq_iff k tenant_key)

  kept_entry :
      (k : String)
      → setup.starts_with k (concat tenant_key ":") ≡ false
      → get (forget setup tenant_key s).cache k ≡ get s.cache k
  kept_entry k apart =
      rw
        (
          get-invalidate (λ j. setup.starts_with j (concat tenant_key ":")) s.cache k sound.cache,
          apart,
        )
        refl

  pub update_row-Ends :
      (overrides : Fields) (t : Tenant)
      → tenant_with_key tenant_key s.database.chat.tenants ≡ some t
      → Ends Keeps s (update_row setup tenant_key overrides t s)
  update_row-Ends overrides t h = (
    record {
      ids =
          Single-update (λ u. u.id) (set_overrides overrides) same_id t.id _ (λ x y. refl)
            (λ x y. refl) sound.ids;
      keys =
          Single-update (λ u. u.id) (set_overrides overrides) same_key t.id _ (λ x y. refl)
            (λ x y. refl) sound.keys;
      public_keys =
          Single-update (λ u. u.id) (set_overrides overrides) same_public_key t.id _ (λ x y. refl)
            (λ x y. refl) sound.public_keys;
      places = sound.places;
      credentials = sound.credentials;
      cache = invalidate-Unique _ s.cache sound.cache;
    },
    record {
      tenant = λ k apart.
          first-update_other (λ u. u.id) (set_overrides overrides) (λ u. str_eq u.key k) t.id _
            (λ x. refl)
            (first-others (λ u. u.id) (λ u. str_eq u.key tenant_key) _ t sound.ids h
              (λ u. str_eq u.key k) (other_key t h k apart));
      locations = λ k apart u g. refl;
      credentials = λ k apart u g c p. refl;
      cache = kept_entry;
      conversations = refl;
      messages = refl;
      leads = refl;
    },
  )

  added :
      (new : New) (body : TenantIn)
      → IsNewTenant new s
      → tenant_with_key body.key s.database.chat.tenants ≡ none
      → first (λ u. str_eq u.public_key (new_tenant new body).public_key) s.database.chat.tenants
        ≡ none
      → IsSound (set_tenants (s.database.chat.tenants ++ new_tenant new body ∷ []) s)
  added new body is_new unused free = record {
    ids = Single-append same_id _ (new_tenant new body) sound.ids is_new;
    keys =
        Single-append same_key _ (new_tenant new body) sound.keys
          (All-map _ _ (λ u. str_eq_sym u.key body.key) _ (none-first _ _ unused));
    public_keys = Single-append same_public_key _ (new_tenant new body) sound.public_keys (
        All-map _ _ (λ u. str_eq_sym u.public_key (new_tenant new body).public_key) _
          (none-first _ _ free));
    places = sound.places;
    credentials = sound.credentials;
    cache = sound.cache;
  }

  spared :
      (new : New) (body : TenantIn)
      → body.key ≡ tenant_key
      → Spares setup tenant_key s
          (set_tenants (s.database.chat.tenants ++ new_tenant new body ∷ []) s)
  spared new body e = record {
    tenant = λ k apart.
        first-append_other (λ u. str_eq u.key k) _ (new_tenant new body)
          (rw e (str_eq_sym k tenant_key apart));
    locations = λ k apart u g. refl;
    credentials = λ k apart u g c p. refl;
    cache = λ k apart. refl;
    conversations = refl;
    messages = refl;
    leads = refl;
  }

  placed :
      (new : New) (body : LocationIn) (t : Tenant)
      → first (is_location t.id body.key) s.database.chat.locations ≡ none
      → IsSound (
          forget setup tenant_key
            (set_locations (s.database.chat.locations ++ new_location new t.id body ∷ []) s))
  placed new body t free = record {
    ids = sound.ids;
    keys = sound.keys;
    public_keys = sound.public_keys;
    places =
        Single-append same_place _ (new_location new t.id body) sound.places
          (All-map _ _ (λ l. flip_place t.id body.key l) _ (none-first _ _ free));
    credentials = sound.credentials;
    cache = invalidate-Unique _ s.cache sound.cache;
  }

  place_spared :
      (new : New) (body : LocationIn) (t : Tenant)
      → tenant_with_key tenant_key s.database.chat.tenants ≡ some t
      → Spares setup tenant_key s (
          forget setup tenant_key
            (set_locations (s.database.chat.locations ++ new_location new t.id body ∷ []) s))
  place_spared new body t h = record {
    tenant = λ k apart. refl;
    locations = λ k apart u g.
        keep-append (λ l. l.tenant == u.id) _ (new_location new t.id body)
          (apart_sym u.id t.id (ids_apart s k tenant_key t u sound apart h g));
    credentials = λ k apart u g c p. refl;
    cache = kept_entry;
    conversations = refl;
    messages = refl;
    leads = refl;
  }

  pub create-Ends :
      (new : New) (body : TenantIn)
      → body.key ≡ tenant_key
      → IsNewTenant new s
      → Ends Keeps s (create_in_session new body s)
  create-Ends new body e is_new =
      if-intro (Ends Keeps s) (is_some (tenant_with_key body.key s.database.chat.tenants)) _ _
        (λ exists. refl)
        (λ unused.
          if-intro (Ends Keeps s)
            (is_some (
              first (λ u. str_eq u.public_key (new_tenant new body).public_key)
                s.database.chat.tenants))
            _ _ (λ taken. refl)
            (λ free. (
              added new body is_new (is_some-none _ unused) (is_some-none _ free),
              spared new body e,
            )))

  pub add_row-Ends :
      (new : New) (body : LocationIn) (t : Tenant)
      → tenant_with_key tenant_key s.database.chat.tenants ≡ some t
      → Ends Keeps s (add_row setup new tenant_key body t s)
  add_row-Ends new body t h =
      if-intro (Ends Keeps s)
        (is_some (first (is_location t.id body.key) s.database.chat.locations)) _ _ (λ taken. refl)
        (λ free. (placed new body t (is_some-none _ free), place_spared new body t h))
