-- ===== src/Google/Examples.antt =====
-- The client of Google Calendar at concrete inputs.
use bots_infra_be.Common.{◌≡◌, refl, true, String, concat, some, none, Option, [], ◌∷◌, arith}
use bots_infra_be.Common.Dict.{put, pop}
use bots_infra_be.Common.Dict
use bots_infra_be.Common.Json.{Value, Fields, Items, get}
use bots_infra_be.Google.{
  Creds, TokenCache, Response, Event, Remote, Outcome, from_payload, cache_get, cache_put,
  access_token,
}
use bots_infra_be.Google.Calls.{free_busy, insert_event}
use bots_infra_be.Google.Tokens.{IsAnswered, access_token-IsAnswered}

abbrev one_field : String → Value → Fields
one_field k v = Fields.entry k v Fields.blank

abbrev span : Value → Value
span end = Value.obj (Fields.entry "start" (Value.num 100) (Fields.entry "end" end Fields.blank))

-- A calendar with two spans, one of them without a readable end.
abbrev calendar : Value
calendar = Value.obj (
    one_field "calendars" (
      Value.obj (
        one_field "primary" (
          Value.obj (
            one_field "busy" (
              Value.arr (
                Items.item (span (Value.num 200))
                  (Items.item (span Value.null) Items.nothing))))))))

-- An answer of 200 that says in it that the calendar was not found.
abbrev not_found : Value
not_found = Value.obj (
    one_field "calendars" (
      Value.obj (
        one_field "primary" (
          Value.obj (
            one_field "errors" (
              Value.arr (
                Items.item (Value.obj (one_field "reason" (Value.str "notFound")))
                  Items.nothing)))))))

abbrev remote_of : Option Response → Value → Remote
remote_of refreshed body = record {
  refresh = λ creds. refreshed;
  free_busy = λ token creds start end. some (record { status = 200; body = some body });
  insert = λ token creds event. some (record { status = 403; body = none });
  cache_key = λ i r. concat i (concat ":" r);
  as_seconds = λ v. some 1000;
  parse_iso_aware = λ v. elim v [ Value.num n ↦ some n | _ ↦ none ];
  text_of = λ v. elim v [ Value.str s ↦ s | _ ↦ "value" ];
  new_id = "new";
}

abbrev granted : Option Response
granted = some (record {
  status = 200;
  body = some (Value.obj (one_field "access_token" (Value.str "fresh")));
})

abbrev creds : Creds
creds = record {
  client_id = "c";
  client_secret = "s";
  refresh_token = "r";
  calendar_id = "primary";
}

abbrev cache : TokenCache
cache = ("c:r", ("stored", 1000)) ∷ []

no_secret : from_payload (remote_of granted calendar) (one_field "client_id" (Value.str "c")) ≡ none
unfolding from_payload get
no_secret = refl

-- The token that is stored serves until a minute before its end, and then is refreshed.
stored : (access_token (remote_of granted calendar) 939 creds cache).0 ≡ Outcome.ok "stored"
unfolding access_token cache_get Dict.get
stored = refl

refreshed :
    access_token (remote_of granted calendar) 940 creds cache
    ≡ (Outcome.ok "fresh", ("c:r", ("fresh", 4540)) ∷ [])
unfolding access_token cache_get cache_put Dict.get put pop get
refreshed = refl

revoked :
    (access_token
      (remote_of (some (record { status = 400; body = none })) calendar)
      940
      creds
      cache).0
    ≡ Outcome.calendar_error (some 400) true
unfolding access_token cache_get Dict.get
revoked = refl

busy :
    (free_busy (remote_of granted calendar) 100 creds 0 900 cache).0 ≡ Outcome.ok ((100, 200) ∷ [])
unfolding free_busy access_token cache_get Dict.get get
busy = refl

unreadable_calendar :
    (free_busy (remote_of granted not_found) 100 creds 0 900 cache).0
    ≡ Outcome.calendar_error none true
unfolding free_busy access_token cache_get Dict.get get
unreadable_calendar = refl

abbrev event : Event
event = record {
  start = 100;
  end = 200;
  summary = "Visit";
  description = "";
  timezone = "UTC";
  attendee = "";
}

forbidden :
    (insert_event (remote_of granted calendar) 100 creds event cache).0
    ≡ Outcome.calendar_error (some 403) true
unfolding insert_event access_token cache_get Dict.get
forbidden = refl

cache-Unique : Dict.Unique cache
unfolding Dict.get
cache-Unique = (refl, tt)

access_token-IsAnswered_example :
    IsAnswered
      (remote_of granted calendar)
      940
      creds
      cache
      (access_token (remote_of granted calendar) 940 creds cache)
access_token-IsAnswered_example =
    access_token-IsAnswered (remote_of granted calendar) 940 creds cache
      (record { unique = cache-Unique; size = omega arith })
