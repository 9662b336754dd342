-- ===== src/Language.antt =====
-- Language detection: app/services/language.py. Texts are Unicode; what Python makes of one (`strip`,
-- `lower`, the words that a pattern finds, a test for characters) is a field of `Texts`.
pub mod Supported
mod Examples
use bots_infra_be.Common.{
  ℕ, ◌+◌, Bool, true, false, not, ◌&&◌, ◌||◌, String, str_eq, List, [], ◌∷◌, map, take, length, ltb,
  if◌then◌else◌,
}
use bots_infra_be.Common.Dict.{elem}

-- `has_mark` and `has_accent` test for a character of `_ES_MARKS` and of `_ES_ACCENTS`; `primary` is
-- `s.split("-")[0]`; `find_words` is `_WORD.findall`.
pub record Texts : Type 0 where
  pub strip : String → String
  pub lower : String → String
  pub primary : String → String
  pub find_words : String → List String
  pub has_mark : String → Bool
  pub has_accent : String → Bool

-- `_ES` and `_EN`
abbrev pub spanish : List String
spanish =
    "hola" ∷ "gracias" ∷ "buenos" ∷ "buenas" ∷ "dias" ∷ "días" ∷ "tardes" ∷ "noches" ∷ "necesito"
    ∷ "quiero" ∷ "quisiera" ∷ "puedo" ∷ "puede" ∷ "podría" ∷ "cuánto" ∷ "cuanto" ∷ "cuándo"
    ∷ "cuando" ∷ "dónde" ∷ "donde" ∷ "cómo" ∷ "como" ∷ "qué" ∷ "para" ∷ "por" ∷ "cita" ∷ "citas"
    ∷ "horario" ∷ "precio" ∷ "precios" ∷ "coche" ∷ "carro" ∷ "vehículo" ∷ "servicio" ∷ "reparación"
    ∷ "taller" ∷ "ayuda" ∷ "favor" ∷ "usted" ∷ "ustedes" ∷ "tienen" ∷ "tiene" ∷ "estoy" ∷ "está"
    ∷ "están" ∷ "hacer" ∷ "sobre" ∷ "también" ∷ []

abbrev pub english : List String
english =
    "hello" ∷ "hi" ∷ "hey" ∷ "thanks" ∷ "thank" ∷ "please" ∷ "need" ∷ "want" ∷ "would" ∷ "could"
    ∷ "can" ∷ "how" ∷ "much" ∷ "when" ∷ "where" ∷ "what" ∷ "why" ∷ "appointment" ∷ "booking"
    ∷ "book" ∷ "price" ∷ "prices" ∷ "hours" ∷ "car" ∷ "vehicle" ∷ "service" ∷ "repair" ∷ "help"
    ∷ "about" ∷ "your" ∷ "you" ∷ "the" ∷ "and" ∷ "with" ∷ "have" ∷ "does" ∷ []

-- `sum(1 for w in words if w in vocabulary)`
abbrev pub hits : List String → List String → ℕ
hits vocabulary [] = 0
hits vocabulary (w ∷ ws) =
    let rest = hits vocabulary ws in if elem w vocabulary then 1 + rest else rest

abbrev pub is_empty : List String → Bool
is_empty [] = true
is_empty (w ∷ ws) = false

module _ (texts : Texts) where
  -- `_words`
  abbrev pub words : String → List String
  words text = take 60 (map texts.lower (texts.find_words text))

  -- The balance of the words; the test of the accents decides nothing that the next does not.
  unfoldable pub by_words : String → List String → String → String
  by_words lowered ws default =
      let es_hits = hits spanish ws in
      let en_hits = hits english ws in
      if ltb en_hits es_hits && texts.has_accent lowered
      then "es"
      else if ltb en_hits es_hits
      then "es"
      else if ltb es_hits en_hits
      then "en"
      else default

  -- `detect`
  unfoldable pub detect : String → List String → String → String
  unfolding by_words
  detect text candidates default =
      let raw = texts.strip text in
      if ltb (length candidates) 2 || not (elem "es" candidates)
      then default
      else if str_eq raw ""
      then default
      else if texts.has_mark (texts.lower raw)
      then "es"
      else if is_empty (words raw)
      then default
      else by_words (texts.lower raw) (words raw) default

  -- `supported or ["en"]`
  abbrev pub or_english : List String → List String
  or_english [] = "en" ∷ []
  or_english (s ∷ ss) = s ∷ ss

  abbrev pub code : String → String
  code s = texts.lower (texts.primary s)

  -- The declared language, or the default where it is not supported.
  abbrev pub declared_code : String → List String → String → String
  declared_code declared supported default =
      let c = code (if str_eq declared "" then default else declared) in
      if elem c supported then c else default

  -- `resolve`
  unfoldable pub resolve : (declared text : String) → List String → (default : String) → String
  unfolding detect
  resolve declared text supported default =
      let codes = map code (or_english supported) in
      let hint = declared_code declared codes default in
      let detected = detect text codes hint in
      if ltb (length codes) 2 then default else if elem detected codes then detected else hint
