-- ===== src/Models.antt =====
-- The clients of the language models: app/llm/factory.py. A temperature is in hundredths. What a client
-- does with its settings is a library's.
mod Examples
use bots_infra_be.Common.{
  ℕ, Bool, String, str_eq, Option, none, some, List, [], ◌∷◌, ◌==◌, if◌then◌else◌,
}
use bots_infra_be.Common.Dict.{Dict}

-- `Role`
pub data ModelRole : Type 0 where
  guard answer escalate judge : ModelRole

-- `ModelPolicy`
pub record ModelPolicy : Type 0 where
  pub guard : String
  pub answer : String
  pub escalate : String
  pub judge : String
  pub temperature : ℕ
  pub fallbacks : List String

-- The settings that the factory reads.
pub record Provider : Type 0 where
  pub llm_provider : String
  pub ollama_base_url : String
  pub openrouter_api_key : String
  pub openrouter_base_url : String
  pub openrouter_app_url : String
  pub openrouter_app_title : String

-- What `ChatOpenAI` is made with; `models` is the field of `extra_body`.
pub record Client : Type 0 where
  pub model : String
  pub temperature : ℕ
  pub max_tokens : ℕ
  pub streaming : Bool
  pub api_key : String
  pub base_url : String
  pub headers : Dict String
  pub timeout : ℕ
  pub max_retries : ℕ
  pub models : Option (List String)

-- `{"models": [model, *fallbacks]} if fallbacks else None`
abbrev pub routed : String → List String → Option (List String)
routed model [] = none
routed model (f ∷ fallbacks) = some (model ∷ f ∷ fallbacks)

-- `_client`: none where the key is not set.
unfoldable pub client :
    Provider → String → (temperature max_tokens : ℕ) → Bool → List String → Option Client
client s model temperature max_tokens streaming fallbacks =
    if str_eq s.llm_provider "ollama"
    then some (record {
      model = model;
      temperature = temperature;
      max_tokens = max_tokens;
      streaming = streaming;
      api_key = "ollama";
      base_url = s.ollama_base_url;
      headers = [];
      timeout = 120;
      max_retries = 1;
      models = none;
    })
    else if str_eq s.openrouter_api_key ""
    then none
    else some (record {
      model = model;
      temperature = temperature;
      max_tokens = max_tokens;
      streaming = streaming;
      api_key = s.openrouter_api_key;
      base_url = s.openrouter_base_url;
      headers = ("HTTP-Referer", s.openrouter_app_url) ∷ ("X-Title", s.openrouter_app_title) ∷ [];
      timeout = 60;
      max_retries = 3;
      models = routed model fallbacks;
    })

abbrev pub model_of : ModelRole → ModelPolicy → String
model_of ModelRole.guard policy = policy.guard
model_of ModelRole.answer policy = policy.answer
model_of ModelRole.escalate policy = policy.escalate
model_of ModelRole.judge policy = policy.judge

abbrev pub default_tokens : ModelRole → ℕ
default_tokens ModelRole.guard = 256
default_tokens ModelRole.answer = 1024
default_tokens ModelRole.escalate = 1024
default_tokens ModelRole.judge = 2048

-- A verdict is asked for without chance.
abbrev pub temperature_of : ModelRole → ModelPolicy → ℕ
temperature_of ModelRole.guard policy = 0
temperature_of ModelRole.judge policy = 0
temperature_of _ policy = policy.temperature

-- `max_tokens or defaults[role]`
abbrev pub tokens_or : Option ℕ → ℕ → ℕ
tokens_or none default = default
tokens_or (some n) default = if n == 0 then default else n

-- `get_model`
unfoldable pub get_model :
    Provider → ModelRole → ModelPolicy → (streaming : Bool) → Option ℕ → Option Client
unfolding client
get_model s role policy streaming max_tokens =
    client s (model_of role policy) (temperature_of role policy)
      (tokens_or max_tokens (default_tokens role)) streaming policy.fallbacks
