-- ===== src/Google/Calls.antt =====
-- The two calls of the calendar: `free_busy` and `insert_event`, with every answer of the servers.
use bots_infra_be.Common.{
  ℕ, Bool, ◌||◌, String, str_eq, Option, none, some, List, [], ◌∷◌, leb, ◌==◌, if◌then◌else◌,
}
use bots_infra_be.Common.Json.{Value, Fields, Items, get}
use bots_infra_be.Graph.{truthy, holds}
use bots_infra_be.Google.{
  Creds, TokenCache, Response, Event, Remote, Outcome, text_or, as_dict, or_blank, access_token,
}

-- `response.status_code in (401, 403, 404)`
abbrev pub is_permanent : ℕ → Bool
is_permanent status = (status == 401) || (status == 403) || (status == 404)

-- `d.get(k) or {}`, of which a dict is asked.
abbrev pub entry_or_blank : Option Value → Option Fields
entry_or_blank none = some Fields.blank
entry_or_blank (some v) = or_blank (some v)

-- `d.get(k, {})`, of which a dict is asked.
abbrev pub dict_at : Option Value → Option Fields
dict_at none = some Fields.blank
dict_at (some v) = as_dict (some v)

-- `(entry["errors"][0] or {}).get("reason", "unknown")`
abbrev pub reason_in : Remote → Option Fields → Option String
reason_in g none = none
reason_in g (some d) = some (elim (get d "reason") [ none ↦ "unknown" | some v ↦ g.text_of v ])

abbrev pub reason_of : Remote → Option Value → Option String
reason_of g (some (Value.arr (Items.item v rest))) = reason_in g (or_blank (some v))
reason_of g _ = none

abbrev pub unreadable : Option String → Outcome (List (ℕ × ℕ))
unreadable none = Outcome.raised
unreadable (some reason) =
    Outcome.calendar_error none (str_eq reason "notFound" || str_eq reason "forbidden")

-- `parse_iso_aware(span.get(k, ""))`
abbrev pub time_at : Remote → Option Value → Option ℕ
time_at g none = g.parse_iso_aware (Value.str "")
time_at g (some v) = g.parse_iso_aware v

-- A span with two times, or none of it.
abbrev pub add_span : Option ℕ → Option ℕ → List (ℕ × ℕ) → List (ℕ × ℕ)
add_span (some s) (some e) out = (s, e) ∷ out
add_span _ _ out = out

abbrev pub with_span : Remote → Value → Outcome (List (ℕ × ℕ)) → Outcome (List (ℕ × ℕ))
with_span g (Value.obj d) (Outcome.ok out) =
    Outcome.ok (add_span (time_at g (get d "start")) (time_at g (get d "end")) out)
with_span g _ _ = Outcome.raised

-- The loop over the spans; one that is no dict raises.
abbrev pub spans_of : Remote → Items → Outcome (List (ℕ × ℕ))
spans_of g Items.nothing = Outcome.ok []
spans_of g (Items.item v rest) = with_span g v (spans_of g rest)

-- `entry.get("busy", []) or []`
abbrev pub busy_of : Remote → Option Value → Outcome (List (ℕ × ℕ))
busy_of g none = Outcome.ok []
busy_of g (some (Value.arr items)) = spans_of g items
busy_of g (some v) = if truthy v then Outcome.raised else Outcome.ok []

abbrev pub after_entry : Remote → Option Fields → Outcome (List (ℕ × ℕ))
after_entry g none = Outcome.raised
after_entry g (some found) =
    if holds (get found "errors")
    then unreadable (reason_of g (get found "errors"))
    else busy_of g (get found "busy")

abbrev pub after_calendars : Remote → Creds → Option Fields → Outcome (List (ℕ × ℕ))
after_calendars g creds none = Outcome.raised
after_calendars g creds (some calendars) =
    after_entry g (entry_or_blank (get calendars creds.calendar_id))

abbrev pub after_free_busy_body : Remote → Creds → Option Fields → Outcome (List (ℕ × ℕ))
after_free_busy_body g creds none = Outcome.raised
after_free_busy_body g creds (some body) = after_calendars g creds (dict_at (get body "calendars"))

abbrev pub after_free_busy : Remote → Creds → Option Response → Outcome (List (ℕ × ℕ))
after_free_busy g creds none = Outcome.raised
after_free_busy g creds (some r) =
    if leb 400 r.status
    then Outcome.calendar_error (some r.status) (is_permanent r.status)
    else after_free_busy_body g creds (or_blank r.body)

-- A call that first gets a token.
abbrev pub with_token :
    {A : Type 0} → (String → Outcome A) → Outcome String × TokenCache → Outcome A × TokenCache
with_token f (Outcome.ok token, cache) = (f token, cache)
with_token f (Outcome.calendar_error status permanent, cache) =
    (Outcome.calendar_error status permanent, cache)
with_token f (Outcome.raised, cache) = (Outcome.raised, cache)

-- `free_busy`
unfoldable pub free_busy :
    Remote → ℕ → Creds → (start end : ℕ) → TokenCache → Outcome (List (ℕ × ℕ)) × TokenCache
unfolding access_token
free_busy g now creds start end cache =
    with_token (λ token. after_free_busy g creds (g.free_busy token creds start end))
      (access_token g now creds cache)

pub record Inserted : Type 0 where
  pub id : String
  pub html_link : String
  pub status : String

-- `body.get(k, default)`
abbrev pub text_at : Remote → String → Option Value → String
text_at g default none = default
text_at g default (some v) = g.text_of v

abbrev pub after_insert_body : Remote → Option Fields → Outcome Inserted
after_insert_body g none = Outcome.raised
after_insert_body g (some body) = Outcome.ok (record {
  id = text_or g g.new_id (get body "id");
  html_link = text_at g "" (get body "htmlLink");
  status = text_at g "confirmed" (get body "status");
})

abbrev pub after_insert : Remote → Option Response → Outcome Inserted
after_insert g none = Outcome.raised
after_insert g (some r) =
    if leb 400 r.status
    then Outcome.calendar_error (some r.status) (is_permanent r.status)
    else after_insert_body g (or_blank r.body)

-- `insert_event`; the slices of the texts are `insert`'s.
unfoldable pub insert_event :
    Remote → ℕ → Creds → Event → TokenCache → Outcome Inserted × TokenCache
unfolding access_token
insert_event g now creds event cache =
    with_token (λ token. after_insert g (g.insert token creds event))
      (access_token g now creds cache)
