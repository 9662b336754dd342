-- ===== src/Jobs/Handle.antt =====
-- `_handle` of app/rag/worker.py, and the deliveries that it dispatches to: `deliver` of
-- app/services/webhooks.py and `deliver_email` of app/services/email.py.
--
-- An exception is a text, as `loop` formats it. The crawl, the purge, the HTTP client, `int` and
-- `str` are the fields of `Effects`. The two deliveries are given the payload that the queueing
-- functions wrote. Each pass of the worker has `Effects` of its own.
use bots_infra_be.Common.{
  ℕ, ◌≡◌, ◌⊎◌, arith, Bool, true, false, not, ◌&&◌, String, concat, str_eq, Option, none, some,
  List, [], ◌∷◌, ltb, leb, ◌==◌, if◌then◌else◌,
}
use bots_infra_be.Common.Json
use bots_infra_be.Common.Json.{Value}
use bots_infra_be.Email.{Texts, clean_recipients}
use bots_infra_be.Jobs.{Status, Job}

-- What a handler comes to: the status and the error text to store, or an exception.
pub data Handled : Type 0 where
  settled : Status → String → Handled
  raised : String → Handled

-- The dict that a delivery returns, by its keys `ok` and `permanent`, or its exception.
pub data Delivery : Type 0 where
  sent : Delivery
  rejected : String → Delivery
  raised : String → Delivery

-- An answer of the remote side, or an exception of the HTTP client.
pub data Response : Type 0 where
  status : ℕ → Response
  raised : String → Response

pub record Webhook : Type 0 where
  pub url : Value
  pub event : Value
  pub delivery_id : Option Value
  pub payload : Option Value
  pub signed_with : Option Value

pub record Mail : Type 0 where
  pub to : List String
  pub subject : String
  pub text : String
  pub reply_to : String

pub record Effects : Type 0 where
  pub texts : Texts
  pub ingest : Option ℕ → Value → ℕ → Option String
  pub purge : Option ℕ → ℕ → Option String
  pub to_int : Value → Option ℕ
  pub show : ℕ → String
  pub post_webhook : Webhook → Response
  pub post_mail : Mail → Response
  pub raise_for_status : ℕ → Option String
  pub has_mail_key : Bool
  pub read_mail : Json.Fields → Mail

-- `x or …`: what Python takes for false.
abbrev pub truthy : Value → Bool
truthy Value.null = false
truthy (Value.flag b) = b
truthy (Value.num n) = not (n == 0)
truthy (Value.str s) = not (str_eq s "")
truthy (Value.arr Json.Items.nothing) = false
truthy (Value.arr _) = true
truthy (Value.obj Json.Fields.blank) = false
truthy (Value.obj _) = true

-- `400 <= response.status_code < 500 and response.status_code != 429`
pub is_permanent : ℕ → Bool
is_permanent code = leb 400 code && (ltb code 500 && not (code == 429))

-- `f"unknown job kind: {kind}"` and the other texts of `_handle`.
abbrev pub unknown_kind : String → String
unknown_kind kind = concat "unknown job kind: " kind

-- The status of a job whose crawl or purge has ended.
abbrev pub ended : Option String → Handled
ended none = settled Status.done ""
ended (some e) = Handled.raised e

module _ (fx : Effects) where
  -- What both deliveries make of the response.
  unfoldable pub settle : Response → Delivery
  unfolding is_permanent
  settle (Response.raised e) = Delivery.raised e
  settle (Response.status code) =
      if is_permanent code
      then rejected (fx.show code)
      else elim (fx.raise_for_status code) [ none ↦ sent | some e ↦ Delivery.raised e ]

  -- `secret = job_payload.get("secret") or ""`; only a true secret signs.
  abbrev pub signing_key : Option Value → Option Value
  signing_key none = none
  signing_key (some v) = if truthy v then some v else none

  -- `deliver`
  pub deliver : Json.Fields → Delivery
  unfolding settle
  deliver payload = elim (Json.get payload "url") [
    | none ↦ Delivery.raised "KeyError: 'url'"
    | some url ↦ elim (Json.get payload "event") [
      | none ↦ Delivery.raised "KeyError: 'event'"
      | some event ↦ settle (
          fx.post_webhook (record {
            url = url;
            event = event;
            delivery_id = Json.get payload "id";
            payload = Json.get payload "data";
            signed_with = signing_key (Json.get payload "secret");
          }))
    ]
  ]

  -- `deliver_email`; without an API key the mail goes to the sink, which counts as sent.
  pub deliver_email : Json.Fields → Delivery
  unfolding settle
  deliver_email payload =
      let mail = fx.read_mail payload in
      let recipients = clean_recipients fx.texts mail.to in
      elim recipients [
        | [] ↦ rejected "no valid recipients"
        | a ∷ rest ↦
            if fx.has_mail_key then settle (fx.post_mail (record mail { to = a ∷ rest })) else sent
      ]

  -- `_run_crawl`
  pub run_crawl : Job → Option String
  run_crawl j = elim (Json.get j.payload "url") [
    | none ↦ some "KeyError: 'url'"
    | some url ↦ elim (Json.get j.payload "max_pages") [
      | none ↦ fx.ingest j.tenant url 40
      | some v ↦ elim (fx.to_int v) [
        | none ↦ some "ValueError: max_pages"
        | some n ↦ fx.ingest j.tenant url n
      ]
    ]
  ]

  -- `_run_retention`
  pub run_retention : Job → Option String
  run_retention j = elim (Json.get j.payload "retention_days") [
    | none ↦ fx.purge j.tenant 365
    | some v ↦ elim (fx.to_int v) [
      | none ↦ some "ValueError: retention_days"
      | some n ↦ fx.purge j.tenant n
    ]
  ]

  abbrev pub of_email : Delivery → Handled
  of_email sent = settled Status.done ""
  of_email (rejected e) = settled Status.failed e
  of_email (Delivery.raised e) = Handled.raised e

  abbrev pub of_webhook : Delivery → Handled
  of_webhook sent = settled Status.done ""
  of_webhook (rejected e) = settled Status.failed (concat "rejected with " e)
  of_webhook (Delivery.raised e) = Handled.raised e

  -- `_handle`
  unfoldable pub handle : Job → Handled
  unfolding deliver deliver_email run_crawl run_retention
  handle j =
      if str_eq j.kind "crawl"
      then ended (run_crawl j)
      else if str_eq j.kind "retention"
      then ended (run_retention j)
      else if str_eq j.kind "email"
      then of_email (deliver_email j.payload)
      else if str_eq j.kind "webhook"
      then of_webhook (deliver j.payload)
      else settled Status.failed (unknown_kind j.kind)

  -- A handler never asks for a row to be left pending or running.
  pub handle_settles :
      (j : Job) (s : Status) (e : String)
      → handle j ≡ settled s e
      → (s ≡ Status.done) ⊎ (s ≡ Status.failed)
  unfolding handle
  handle_settles j s e h = ground arith
