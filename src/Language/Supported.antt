-- ===== src/Language/Supported.antt =====
-- The language of a turn.
use bots_infra_be.Common.{
  if-intro, ◌≡◌, refl, ◌⊎◌, inl, inr, true, str_eq, String, List, map, length, ltb, if◌then◌else◌,
}
use bots_infra_be.Common.Dict.{elem}
use bots_infra_be.Language.{Texts, resolve, detect, declared_code, or_english, code}

declared_code_cases :
    (texts : Texts) (declared : String) (codes : List String) (default : String)
    → (elem (declared_code texts declared codes default) codes ≡ true)
      ⊎ (declared_code texts declared codes default ≡ default)
declared_code_cases texts declared codes default =
    if-intro (λ c. (elem c codes ≡ true) ⊎ (c ≡ default))
      (elem (code texts (if str_eq declared "" then default else declared)) codes) _ _
      (λ listed. inl listed) (λ missing. inr refl)

-- The language of a turn is one of the tenant's, or the default that the caller gives; whatever the
-- visitor declares and writes.
resolve-IsSupported :
    (texts : Texts) (declared text : String) (supported : List String) (default : String)
    → let language = resolve texts declared text supported default in
      (elem language (map (code texts) (or_english texts supported)) ≡ true) ⊎ (language ≡ default)
unfolding resolve
resolve-IsSupported texts declared text supported default =
    let codes = map (code texts) (or_english texts supported) in
    if-intro (λ c. (elem c codes ≡ true) ⊎ (c ≡ default)) (ltb (length codes) 2) _ _
      (λ few. inr refl)
      (λ many.
        if-intro (λ c. (elem c codes ≡ true) ⊎ (c ≡ default))
          (elem (detect texts text codes (declared_code texts declared codes default)) codes) _ _
          (λ listed. inl listed) (λ missing. declared_code_cases texts declared codes default))
