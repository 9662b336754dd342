-- ===== src/Config/Examples.antt =====
-- Layers and the cache at work, and the theorems at concrete inputs.
use bots_infra_be.Common.{
  ℕ, ◌≡◌, refl, String, str_eq, none, some, List, [], ◌∷◌, arith, if◌then◌else◌,
}
use bots_infra_be.Common.Json.{Value, Fields, get, put}
use bots_infra_be.Config.Merge.{
  deep_merge, overridden, layered, resolve, set_value, get-deep_merge, get-resolve,
}
use bots_infra_be.Config.Cache.{Call, after, recall, get_cached, get_cached-recall}

abbrev one : String → Value → Fields
one k v = Fields.entry k v Fields.blank

abbrev pack : Fields
pack =
    Fields.entry "tone" (Value.str "formal") (one "booking" (Value.obj (one "slots" (Value.num 6))))

abbrev tenant : Fields
tenant = Fields.entry "tone" Value.null (one "booking" (Value.obj (one "buffer" (Value.num 15))))

abbrev profile : Fields
profile = one "max_turns" (Value.num 30)

get-deep_merge_example :
    get (deep_merge pack tenant) "booking" ≡ overridden (get pack "booking") (get tenant "booking")
unfolding get
get-deep_merge_example = get-deep_merge pack tenant "booking" (refl, (refl, tt))

get-resolve_example :
    get (resolve (some pack) (some tenant) none profile) "tone"
    ≡ overridden
        (layered pack tenant Fields.blank "tone")
        (if str_eq "channel" "tone" then some (Value.obj profile) else none)
unfolding get
get-resolve_example =
    get-resolve (some pack) (some tenant) none profile "tone" (refl, (refl, tt)) (refl, (refl, tt))
      tt

-- Objects merge, and `None` keeps what stands.
merged_booking :
    get (resolve (some pack) (some tenant) none profile) "booking"
    ≡ some (Value.obj (Fields.entry "slots" (Value.num 6) (one "buffer" (Value.num 15))))
unfolding resolve deep_merge set_value put get
merged_booking = refl

abbrev history : List (Call ℕ)
history =
    Call.writes 50 "b" 2
    ∷ Call.reads 30 "a"
    ∷ Call.drops (λ k. str_eq k "b")
    ∷ Call.writes 10 "b" 1
    ∷ Call.writes 5 "a" 7
    ∷ []

get_cached-recall_example : (get_cached 60 "a" (after history)).0 ≡ recall 60 "a" history
get_cached-recall_example = get_cached-recall 60 "a" history (omega arith, tt)
