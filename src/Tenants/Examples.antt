-- ===== src/Tenants/Examples.antt =====
-- Tenants at concrete inputs.
use bots_infra_be.Common.{◌≡◌, refl, true, false, str_eq, none, some, [], ◌∷◌, if◌then◌else◌}
use bots_infra_be.Common.Json.{Fields}
use bots_infra_be.Tenants.{Tenant, Texts, origin_allowed, check_budget}

abbrev texts : Texts
texts = record {
  netloc = λ s. if str_eq s "https://shop.example.org" then "shop.example.org" else s;
  lower = λ s. s;
  drop_www = λ s. s;
  after_star = λ s. if str_eq s "*.example.org" then some "example.org" else none;
  dotted = λ s. ".example.org";
  ends_with = λ s t. str_eq s "shop.example.org";
}

subdomain : origin_allowed texts (some "https://shop.example.org") ("*.example.org" ∷ []) ≡ true
unfolding origin_allowed
subdomain = refl

stranger : origin_allowed texts (some "https://example.net") ("*.example.org" ∷ []) ≡ false
unfolding origin_allowed
stranger = refl

no_header : origin_allowed texts none ("*.example.org" ∷ []) ≡ false
unfolding origin_allowed
no_header = refl

abbrev spent : Tenant
spent = record {
  id = 7;
  key = "acme";
  name = "Acme";
  public_key = "pk";
  pack_key = "generic";
  config_overrides = Fields.blank;
  allowed_origins = [];
  region = "us";
  retention_days = 365;
  monthly_token_budget = 1000;
  tokens_used_period = 1000;
  cost_usd_period = 0;
  period_started_at = some 0;
  status = "over_budget";
  config_version = 1;
}

-- On the day 31 the budget is spent, and a second later there is a new one.
last_second : (check_budget 2678400 spent).1.tokens_used_period ≡ 1000
unfolding check_budget
last_second = refl

new_period : (check_budget 2678401 spent).1.status ≡ "active"
unfolding check_budget
new_period = refl
