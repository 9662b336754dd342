-- ===== src/Retention/Redact.antt =====
-- `redact`: no secret survives an export, at any depth.
use bots_infra_be.Common.{
  ◌≡◌, ◌↔◌, refl, sym, ap, subst, arith, Bool, true, false, String, str_eq, List, [], ◌∷◌, any_of,
  Bool-cases, inl, inr, if◌then◌else◌,
}
use bots_infra_be.Common.Json.{Value, Fields, Items}

-- `SECRET_KEYS`
abbrev pub secret_keys : List String
secret_keys =
    "webhook_secret" ∷ "lead_webhook_secret" ∷ "secret" ∷ "api_key" ∷ "client_secret"
    ∷ "refresh_token" ∷ "access_token" ∷ "auth_token" ∷ "password" ∷ "ciphertext" ∷ []

module _ (lower : String → String) where
  -- `k.lower() in SECRET_KEYS`
  unfoldable pub is_secret : String → Bool
  is_secret k = any_of (str_eq (lower k)) secret_keys

  unfoldable mutual
    pub redact : Value → Value
    redact (Value.obj d) = Value.obj (redact_fields d)
    redact (Value.arr xs) = Value.arr (redact_items xs)
    redact v = v

    pub redact_fields : Fields → Fields
    redact_fields Fields.blank = Fields.blank
    redact_fields (Fields.entry k v d) =
        let kept = redact v in
        let rest = redact_fields d in
        Fields.entry k (if is_secret k then Value.str "[redacted]" else kept) rest

    pub redact_items : Items → Items
    redact_items Items.nothing = Items.nothing
    redact_items (Items.item v xs) = Items.item (redact v) (redact_items xs)

  -- Every value under a secret key is the mark, at any depth.
  unfoldable mutual
    pub IsRedacted : Value → Type 0
    IsRedacted (Value.obj d) = IsRedactedFields d
    IsRedacted (Value.arr xs) = IsRedactedItems xs
    IsRedacted v = Unit

    IsRedactedFields : Fields → Type 0
    IsRedactedFields Fields.blank = Unit
    IsRedactedFields (Fields.entry k v d) =
        (is_secret k ≡ true → v ≡ Value.str "[redacted]") × (IsRedacted v × IsRedactedFields d)

    IsRedactedItems : Items → Type 0
    IsRedactedItems Items.nothing = Unit
    IsRedactedItems (Items.item v xs) = IsRedacted v × IsRedactedItems xs

  entry-IsRedacted :
      (k : String) (v : Value) (d : Fields)
      → IsRedacted v
      → IsRedactedFields d
      → IsRedactedFields (Fields.entry k (if is_secret k then Value.str "[redacted]" else v) d)
  unfolding IsRedacted IsRedactedFields
  entry-IsRedacted k v d hv hd = elim (Bool-cases (is_secret k)) [
    | inl secret ↦ rw secret (λ h. refl, (tt, hd))
    | inr plain ↦ rw plain (λ h. absurd (ground arith), (hv, hd))
  ]

  mutual
    unfolding redact IsRedacted

    value-IsRedacted : (v : Value) → IsRedacted (redact v)
    value-IsRedacted Value.null = tt
    value-IsRedacted (Value.flag b) = tt
    value-IsRedacted (Value.num n) = tt
    value-IsRedacted (Value.str s) = tt
    value-IsRedacted (Value.obj d) = fields_redacted d
    value-IsRedacted (Value.arr xs) = items_redacted xs

    fields_redacted : (d : Fields) → IsRedactedFields (redact_fields d)
    fields_redacted Fields.blank = tt
    fields_redacted (Fields.entry k v d) =
        entry-IsRedacted k (redact v) (redact_fields d) (value-IsRedacted v) (fields_redacted d)

    items_redacted : (xs : Items) → IsRedactedItems (redact_items xs)
    items_redacted Items.nothing = tt
    items_redacted (Items.item v xs) = (value-IsRedacted v, items_redacted xs)

  entry_kept :
      (k : String) (v : Value)
      → (is_secret k ≡ true → v ≡ Value.str "[redacted]")
      → (if is_secret k then Value.str "[redacted]" else v) ≡ v
  entry_kept k v h = elim (Bool-cases (is_secret k)) [
    | inl secret ↦ rw secret (sym (h secret))
    | inr plain ↦ rw plain refl
  ]

  mutual
    unfolding redact IsRedacted

    value_kept : (v : Value) → IsRedacted v → redact v ≡ v
    value_kept Value.null h = refl
    value_kept (Value.flag b) h = refl
    value_kept (Value.num n) h = refl
    value_kept (Value.str s) h = refl
    value_kept (Value.obj d) h = ap Value.obj (fields_kept d h)
    value_kept (Value.arr xs) h = ap Value.arr (items_kept xs h)

    fields_kept : (d : Fields) → IsRedactedFields d → redact_fields d ≡ d
    fields_kept Fields.blank h = refl
    fields_kept (Fields.entry k v d) h =
        rw (value_kept v h.1.0, fields_kept d h.1.1, entry_kept k v h.0) refl

    items_kept : (xs : Items) → IsRedactedItems xs → redact_items xs ≡ xs
    items_kept Items.nothing h = refl
    items_kept (Items.item v xs) h = rw (value_kept v h.0, items_kept xs h.1) refl

  -- Two values that differ at most by the marks: the same keys in the same order, the mark under each
  -- secret key, and under every other key and at every place of a list such a pair again.
  unfoldable mutual
    pub Redacts : Value → Value → Type 0
    Redacts (Value.obj d) (Value.obj d') = RedactsFields d d'
    Redacts (Value.arr xs) (Value.arr xs') = RedactsItems xs xs'
    Redacts (Value.obj d) _ = ⊥
    Redacts (Value.arr xs) _ = ⊥
    Redacts v v' = v' ≡ v

    RedactsFields : Fields → Fields → Type 0
    RedactsFields Fields.blank Fields.blank = Unit
    RedactsFields (Fields.entry k v d) (Fields.entry k' v' d') =
        (k' ≡ k)
        × (is_secret k ≡ true → v' ≡ Value.str "[redacted]")
        × (is_secret k ≡ false → Redacts v v')
        × RedactsFields d d'
    RedactsFields _ _ = ⊥

    RedactsItems : Items → Items → Type 0
    RedactsItems Items.nothing Items.nothing = Unit
    RedactsItems (Items.item v xs) (Items.item v' xs') = Redacts v v' × RedactsItems xs xs'
    RedactsItems _ _ = ⊥

  entry-Redacts :
      (k : String) (v v' : Value) (d d' : Fields)
      → Redacts v v'
      → RedactsFields d d'
      → RedactsFields
          (Fields.entry k v d)
          (Fields.entry k (if is_secret k then Value.str "[redacted]" else v') d')
  unfolding Redacts RedactsFields
  entry-Redacts k v v' d d' hv hd = elim (Bool-cases (is_secret k)) [
    | inl secret ↦ rw secret (refl, λ h. refl, λ h. absurd (ground arith), hd)
    | inr plain ↦ rw plain (refl, λ h. absurd (ground arith), λ h. hv, hd)
  ]

  mutual
    unfolding redact Redacts

    value-Redacts : (v : Value) → Redacts v (redact v)
    value-Redacts Value.null = refl
    value-Redacts (Value.flag b) = refl
    value-Redacts (Value.num n) = refl
    value-Redacts (Value.str s) = refl
    value-Redacts (Value.obj d) = fields-Redacts d
    value-Redacts (Value.arr xs) = items-Redacts xs

    fields-Redacts : (d : Fields) → RedactsFields d (redact_fields d)
    fields-Redacts Fields.blank = tt
    fields-Redacts (Fields.entry k v d) =
        entry-Redacts k v (redact v) d (redact_fields d) (value-Redacts v) (fields-Redacts d)

    items-Redacts : (xs : Items) → RedactsItems xs (redact_items xs)
    items-Redacts Items.nothing = tt
    items-Redacts (Items.item v xs) = (value-Redacts v, items-Redacts xs)

  -- Redacting puts the mark under each secret key, at any depth, and leaves all else as it is: the keys
  -- and their order, the places of each list, and every text, number and flag that stands under no secret
  -- key. No value that is not the mark is left under a secret key, and redacting twice is redacting once.
  pub redact-IsRedacted :
      (v : Value)
      → Redacts v (redact v)
        × IsRedacted (redact v)
        × (IsRedacted v ↔ (redact v ≡ v))
        × (redact (redact v) ≡ redact v)
  redact-IsRedacted v = (
    value-Redacts v,
    value-IsRedacted v,
    (value_kept v, λ e. subst IsRedacted e (value-IsRedacted v)),
    value_kept (redact v) (value-IsRedacted v),
  )
