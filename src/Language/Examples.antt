-- ===== src/Language/Examples.antt =====
-- Languages at concrete inputs. A text is one word here.
use bots_infra_be.Common.{◌≡◌, refl, false, str_eq, [], ◌∷◌}
use bots_infra_be.Language.{Texts, resolve}

abbrev texts : Texts
texts = record {
  strip = λ s. s;
  lower = λ s. s;
  primary = λ s. s;
  find_words = λ s. s ∷ [];
  has_mark = λ s. str_eq s "¿hello";
  has_accent = λ s. false;
}

-- The words decide against the declared language, and a mark against the words.
hola : resolve texts "en" "hola" ("en" ∷ "es" ∷ []) "en" ≡ "es"
unfolding resolve
hola = refl

hello : resolve texts "es" "hello" ("en" ∷ "es" ∷ []) "en" ≡ "en"
unfolding resolve
hello = refl

mark : resolve texts "en" "¿hello" ("en" ∷ "es" ∷ []) "en" ≡ "es"
unfolding resolve
mark = refl

-- Where the words say nothing, the declaration stands.
unclear : resolve texts "es" "ok" ("en" ∷ "es" ∷ []) "en" ≡ "es"
unfolding resolve
unclear = refl
