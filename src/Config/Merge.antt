-- ===== src/Config/Merge.antt =====
-- `deep_merge` and `resolve`: the layers of a configuration, the later the stronger.
use bots_infra_be.Common.{
  ◌≡◌, refl, ap, ◌∙◌, subst, false, String, str_eq, eq_iff, Option, none, some, Bool-cases, inl,
  inr, if◌then◌else◌, arith,
}
use bots_infra_be.Common.Json.{Value, Fields, get, put, Unique}

-- `out[key] = …`, or `continue` for `None`.
unfoldable pub set_value : Fields → String → Option Value → Fields
set_value base k none = base
set_value base k (some v) = put base k v

-- `deepcopy` is the identity on values. `merge_value` is the value that an override sets, if any, and
-- `deep_merge` takes the keys of the override in their order.
unfoldable mutual
  pub merge_value : Option Value → Value → Option Value
  merge_value old Value.null = none
  merge_value (some (Value.obj b)) (Value.obj d) = some (Value.obj (deep_merge b d))
  merge_value old v = some v

  pub deep_merge : Fields → Fields → Fields
  deep_merge base Fields.blank = base
  deep_merge base (Fields.entry k v d) =
      deep_merge (set_value base k (merge_value (get base k) v)) d

pub get-put : (d : Fields) (k : String) (v : Value) → get (put d k v) k ≡ some v
unfolding get put
get-put Fields.blank k v = ground (arith, eq_iff k k)
get-put (Fields.entry j w d) k v = ground (arith, get-put d k v)

pub get-put-other :
    (d : Fields) (k j : String) (v : Value) → str_eq k j ≡ false → get (put d k v) j ≡ get d j
unfolding get put
get-put-other Fields.blank k j v h = ground arith
get-put-other (Fields.entry i w d) k j v h =
    ground (arith, get-put-other d k j v h, eq_iff i k, eq_iff i j, eq_iff k j)

-- What stands under a key after the merge of an override that may hold the key.
abbrev pub overridden : Option Value → Option Value → Option Value
overridden old none = old
overridden old (some v) = elim (merge_value old v) [ none ↦ old | some w ↦ some w ]

get-set_value :
    (b : Fields) (k : String) (v : Value)
    → get (set_value b k (merge_value (get b k) v)) k ≡ overridden (get b k) (some v)
unfolding set_value
get-set_value b k v = go (merge_value (get b k) v)
  where
    go : (o : Option Value) → get (set_value b k o) k ≡ elim o [ none ↦ get b k | some w ↦ some w ]
    go none = refl
    go (some w) = get-put b k w

get-set_value-other :
    (b : Fields) (k j : String) (o : Option Value)
    → str_eq k j ≡ false
    → get (set_value b k o) j ≡ get b j
unfolding set_value
get-set_value-other b k j none h = refl
get-set_value-other b k j (some w) h = get-put-other b k j w h

-- Key by key, a merge holds what the override makes of the base: a missing key and `None` keep the
-- base's value, two objects are merged in turn, and any other value replaces it. Keys of the override
-- are bound once.
pub get-deep_merge :
    (b d : Fields) (j : String) → Unique d → get (deep_merge b d) j ≡ overridden (get b j) (get d j)
unfolding deep_merge get
get-deep_merge b Fields.blank j u = refl
get-deep_merge b (Fields.entry k v d) j u =
    get-deep_merge (set_value b k (merge_value (get b k) v)) d j u.1
    ∙ elim (Bool-cases (str_eq k j)) [
      | inl same ↦ rw same (
          subst
            (λ i.
              overridden (get (set_value b k (merge_value (get b k) v)) i) (get d i)
              ≡ overridden (get b i) (some v))
            ((eq_iff k j).0 same) (rw (u.0) (get-set_value b k v)))
      | inr apart ↦ rw (apart, get-set_value-other b k j (merge_value (get b k) v) apart) refl
    ]

-- `layer or {}`
abbrev pub or_blank : Option Fields → Fields
or_blank none = Fields.blank
or_blank (some d) = d

-- `resolve`, with the profile of the channel; `AgentConfig.model_validate` takes it from there.
unfoldable pub resolve : Option Fields → Option Fields → Option Fields → Fields → Fields
resolve pack tenant location profile =
    deep_merge
      (deep_merge (deep_merge (deep_merge Fields.blank (or_blank pack)) (or_blank tenant))
        (or_blank location))
      (Fields.entry "channel" (Value.obj profile) Fields.blank)

-- What the pack, the tenant and the location say of a key, the later the stronger.
abbrev pub layered : Fields → Fields → Fields → String → Option Value
layered pack tenant location k =
    overridden (overridden (overridden none (get pack k)) (get tenant k)) (get location k)

get-layers :
    (pack tenant location : Fields) (k : String)
    → Unique pack
    → Unique tenant
    → Unique location
    → get (deep_merge (deep_merge (deep_merge Fields.blank pack) tenant) location) k
      ≡ layered pack tenant location k
unfolding get
get-layers pack tenant location k up ut ul =
    rw
      (
        get-deep_merge (deep_merge (deep_merge Fields.blank pack) tenant) location k ul,
        get-deep_merge (deep_merge Fields.blank pack) tenant k ut,
        get-deep_merge Fields.blank pack k up,
      )
      refl

-- A resolved configuration holds, under each key but `channel`, what the location makes of what the
-- tenant makes of what the pack says; under `channel`, these layers with the profile of the channel
-- merged over them. Each layer binds a key once, and a layer that is missing counts as an empty one.
pub get-resolve :
    (pack tenant location : Option Fields) (profile : Fields) (k : String)
    → Unique (or_blank pack)
    → Unique (or_blank tenant)
    → Unique (or_blank location)
    → get (resolve pack tenant location profile) k
      ≡ overridden
          (layered (or_blank pack) (or_blank tenant) (or_blank location) k)
          (if str_eq "channel" k then some (Value.obj profile) else none)
unfolding resolve get
get-resolve pack tenant location profile k up ut ul =
    get-deep_merge
      (deep_merge (deep_merge (deep_merge Fields.blank (or_blank pack)) (or_blank tenant))
        (or_blank location))
      (Fields.entry "channel" (Value.obj profile) Fields.blank) k (refl, tt)
    ∙ ap (λ o. overridden o (if str_eq "channel" k then some (Value.obj profile) else none))
        (get-layers (or_blank pack) (or_blank tenant) (or_blank location) k up ut ul)
