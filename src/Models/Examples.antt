-- ===== src/Models/Examples.antt =====
-- The factory at concrete inputs.
use bots_infra_be.Common.{◌≡◌, refl, false, String, Option, none, some, [], ◌∷◌}
use bots_infra_be.Models.{ModelRole, ModelPolicy, Provider, Client, client, get_model}

abbrev policy : ModelPolicy
policy = record {
  guard = "small";
  answer = "large";
  escalate = "large";
  judge = "best";
  temperature = 30;
  fallbacks = "other" ∷ [];
}

abbrev provider : String → String → Provider
provider name key = record {
  llm_provider = name;
  ollama_base_url = "http://localhost";
  openrouter_api_key = key;
  openrouter_base_url = "https://openrouter";
  openrouter_app_url = "url";
  openrouter_app_title = "title";
}

abbrev field : {A : Type 0} → (Client → A) → Option Client → Option A
field f none = none
field f (some c) = some (f c)

-- The fallbacks go behind the model of the role.
routed_answer :
    field
      (λ c. c.models)
      (get_model (provider "openrouter" "key") ModelRole.answer policy false none)
    ≡ some (some ("large" ∷ "other" ∷ []))
unfolding get_model client
routed_answer = refl

local_answer :
    field (λ c. c.models) (get_model (provider "ollama" "") ModelRole.answer policy false none)
    ≡ some none
unfolding get_model client
local_answer = refl

judge_temperature :
    field (λ c. c.temperature) (get_model (provider "ollama" "") ModelRole.judge policy false none)
    ≡ some 0
unfolding get_model client
judge_temperature = refl

no_tokens :
    field
      (λ c. c.max_tokens)
      (get_model (provider "ollama" "") ModelRole.guard policy false (some 0))
    ≡ some 256
unfolding get_model client
no_tokens = refl

without_key : get_model (provider "openrouter" "") ModelRole.judge policy false none ≡ none
unfolding get_model client
without_key = refl
