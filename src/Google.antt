-- ===== src/Google.antt =====
-- The client of Google Calendar: app/integrations/google_calendar.py. Times are seconds.
--
-- `Remote` holds what the servers answer (`none` where `httpx` raises), and the functions of Python: the
-- key of the cache, `float`, `parse_iso_aware`, and the text of a value. The fields of the credentials
-- are texts. `TOKENS` is the memory of the server.
pub mod Calls
pub mod Tokens
mod Examples
use bots_infra_be.Common.{
  ℕ, zero, suc, ◌+◌, Bool, true, false, not, ◌||◌, String, str_eq, Option, none, some, List, [],
  ◌∷◌, length, leb, ◌==◌, if◌then◌else◌,
}
use bots_infra_be.Common.Dict.{Dict, put, pop}
use bots_infra_be.Common.Dict
use bots_infra_be.Common.Json.{Value, Fields, Items, get}
use bots_infra_be.Graph.{truthy, holds}

-- `GoogleCreds`
pub record Creds : Type 0 where
  pub client_id : String
  pub client_secret : String
  pub refresh_token : String
  pub calendar_id : String

-- `_TOKENS`: the access token and the time of its end.
abbrev pub TokenCache : Type 0
TokenCache = Dict (String × ℕ)

-- `response.status_code` and `response.json()`, which may raise.
pub record Response : Type 0 where
  pub status : ℕ
  pub body : Option Value

pub record Event : Type 0 where
  pub start : ℕ
  pub end : ℕ
  pub summary : String
  pub description : String
  pub timezone : String
  pub attendee : String

pub record Remote : Type 0 where
  pub refresh : Creds → Option Response
  pub free_busy : (token : String) → Creds → (start end : ℕ) → Option Response
  pub insert : (token : String) → Creds → Event → Option Response
  pub cache_key : (client_id refresh_token : String) → String
  pub as_seconds : Value → Option ℕ
  pub parse_iso_aware : Value → Option ℕ
  pub text_of : Value → String
  pub new_id : String

-- `GoogleCalendarError`, or another exception.
pub data Outcome (A : Type 0) : Type 0 where
  ok : A → Outcome A
  calendar_error : (status : Option ℕ) (permanent : Bool) → Outcome A
  raised : Outcome A

-- `payload.get(k) or default`
abbrev pub text_or : Remote → String → Option Value → String
text_or g default none = default
text_or g default (some v) = if truthy v then g.text_of v else default

abbrev pub with_fields :
    Remote → Option Value → Option Value → Option Value → Option Value → Option Creds
with_fields g (some i) (some s) (some r) calendar = some (record {
  client_id = g.text_of i;
  client_secret = g.text_of s;
  refresh_token = g.text_of r;
  calendar_id = text_or g "primary" calendar;
})
with_fields g _ _ _ calendar = none

-- `GoogleCreds.from_payload`; none for a key that is missing.
unfoldable pub from_payload : Remote → Fields → Option Creds
from_payload g payload =
    with_fields g (get payload "client_id") (get payload "client_secret")
      (get payload "refresh_token") (get payload "calendar_id")

abbrev pub token_skew : ℕ
token_skew = 60

abbrev pub max_token_cache : ℕ
max_token_cache = 512

-- `_cache_get`: the token, and the cache without an entry that ends too soon.
abbrev pub after_hit : ℕ → String → TokenCache → Option (String × ℕ) → Option String × TokenCache
after_hit now key cache none = (none, cache)
after_hit now key cache (some (token, expires_at)) =
    if leb expires_at (now + token_skew) then (none, pop cache key) else (some token, cache)

unfoldable pub cache_get : ℕ → String → TokenCache → Option String × TokenCache
cache_get now key cache = after_hit now key cache (Dict.get cache key)

-- `_cache_put`, with `float(expires_in or 3600)`.
unfoldable pub cache_put : ℕ → String → String → ℕ → TokenCache → TokenCache
cache_put now key token seconds cache =
    put (if leb max_token_cache (length cache) then [] else cache) key (token, now + seconds)

-- `response.json()`, of which a dict is asked.
abbrev pub as_dict : Option Value → Option Fields
as_dict (some (Value.obj d)) = some d
as_dict _ = none

-- `response.json() or {}`
abbrev pub or_blank : Option Value → Option Fields
or_blank none = none
or_blank (some v) = if truthy v then as_dict (some v) else some Fields.blank

-- `float(body.get("expires_in", 3600) or 3600)`
abbrev pub seconds_of : Remote → Option Value → Option ℕ
seconds_of g none = some 3600
seconds_of g (some v) = if truthy v then g.as_seconds v else some 3600

abbrev pub after_seconds : ℕ → String → String → TokenCache → Option ℕ → Outcome String × TokenCache
after_seconds now key token cache none = (Outcome.raised, cache)
after_seconds now key token cache (some seconds) =
    (Outcome.ok token, cache_put now key token seconds cache)

abbrev pub after_body :
    Remote → ℕ → String → TokenCache → Option Fields → Outcome String × TokenCache
after_body g now key cache none = (Outcome.raised, cache)
after_body g now key cache (some body) =
    if holds (get body "access_token")
    then after_seconds now key (text_or g "" (get body "access_token")) cache
        (seconds_of g (get body "expires_in"))
    else (Outcome.calendar_error none true, cache)

-- From the answer of the token's endpoint on: 400 is permanent.
abbrev pub after_refresh :
    Remote → ℕ → String → TokenCache → Option Response → Outcome String × TokenCache
after_refresh g now key cache none = (Outcome.raised, cache)
after_refresh g now key cache (some r) =
    if leb 400 r.status
    then (Outcome.calendar_error (some r.status) (r.status == 400), cache)
    else after_body g now key cache (as_dict r.body)

abbrev pub key_of : Remote → Creds → String
key_of g creds = g.cache_key creds.client_id creds.refresh_token

abbrev pub after_cached :
    Remote → ℕ → Creds → Option String × TokenCache → Outcome String × TokenCache
after_cached g now creds (none, cache) =
    after_refresh g now (key_of g creds) cache (g.refresh creds)
after_cached g now creds (some token, cache) =
    if str_eq token ""
    then after_refresh g now (key_of g creds) cache (g.refresh creds)
    else (Outcome.ok token, cache)

-- `access_token`
unfoldable pub access_token : Remote → ℕ → Creds → TokenCache → Outcome String × TokenCache
unfolding cache_get cache_put
access_token g now creds cache = after_cached g now creds (cache_get now (key_of g creds) cache)
