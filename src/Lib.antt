-- ===== src/Lib.antt =====
-- The multi-tenant agent backend of this repository (app/): a visitor's message comes in through an
-- endpoint, passes limits and the checks of its tenant, runs through a graph of model calls and tools,
-- and is answered; jobs, reminders and retention run beside it.
--
-- How the parts interact. app/api/chat.py admits a request (`_prepare`): the token buckets of
-- app/services/ratelimit.py, the tenant and its configuration (app/services/tenants.py,
-- app/config/resolver.py), the budget, and `open_turn` of app/services/turn.py, which writes the
-- visitor's message and reads the history. The graph of app/graph runs the turn: the guard before it,
-- the search of app/rag, the answering model with the tools of app/tools, the guard after it.
-- `close_turn` writes the reply and rolls the usage up. The booking tool uses app/services/scheduling.py
-- and plans reminders (app/services/reminders.py), which a sweep turns into mails; mails, webhooks,
-- crawls and retention are jobs of app/rag/worker.py. The console (app/api/admin.py) writes the tenants,
-- their locations and credentials, and drops the configurations that a server has cached.
--
-- Files, with the code that they model:
--   Common: lists, rows of a table, dictionaries, JSON values, Boolean tests.
--   Chat: app/api/chat.py (`_prepare`, `chat`, `bootstrap`), and of app/services `open_turn`,
--   `close_turn`, `load_history`, `get_or_create_conversation`.
--   Whatsapp: app/api/whatsapp.py, the webhook of Twilio.
--   Console: app/api/admin.py, with `session_scope` of app/db/session.py.
--   Tenants: `resolve_tenant`, `_origin_allowed`, `consent_required`, `check_budget`.
--   Scope: app/db/scope.py. Credentials: app/services/credentials.py, app/db/crypto.py.
--   Config: `deep_merge`, `resolve`, the cache of app/config/resolver.py.
--   RateLimit: app/services/ratelimit.py. Language: app/services/language.py.
--   Graph: app/graph, app/tools/registry.py, `initial_state` and `extract_reply` of app/services/turn.py.
--   Models: app/llm/factory.py.
--   Evals: app/evals/judge.py and runner.py, which replay the graph of Graph.
--   Rag: app/rag/crawler.py, chunker.py, ingest.py, fusion.py and retriever.py.
--   Scheduling: app/services/scheduling.py. Booking: app/tools/booking.py.
--   Google: app/integrations/google_calendar.py.
--   Handover: app/tools/lead.py and handoff.py, with the queueing of app/services/email.py and webhooks.py.
--   Reminders: app/services/reminders.py. Email: app/services/email.py.
--   Jobs: app/rag/worker.py. Retention: app/services/retention.py. Backup: app/services/backup.py.
-- In each, the definitions keep the names of the functions; a helper stands for the lines between two
-- of its branches. Files called Examples hold tests and the theorems at concrete inputs.
--
-- Conventions. An operation takes the state and the clock and gives the result with the new state; an
-- exception is a result of its own. A session is what an error rolls back; the memory of a process is
-- not. Ids are natural numbers. Strings are Python's: what `strip`, `lower`, `split` or a pattern make
-- of one is a field of a record that the definitions take, and so is what a model, a mail server, a
-- calendar or a search answers, errors included. Times are in the units that the files name.
--
-- Fuel. `loop` of Graph has one unit more than `max_graph_iterations`, which is enough by the
-- theorem on its end. `scan_window` of Scheduling has one for each second up to the end of the
-- window, and each round moves on by five minutes at least. `loop` of Rag/Crawl has two units more
-- than the addresses that a crawl may ever see, four times its limit on pages, and each round takes
-- one of them at least; `windows` of Rag/Chunker has one for each character, and
-- `batches` of Backup one for each key. The batches of
-- Retention take the limit that the source has.
--
-- Not modelled: the HTTP layer and the event stream, the series for the charts of the console, its route
-- for the crawl, the cascades by which the database drops what refers to a row, the
-- schema and its migrations, what the clients of the language models, of Twilio and of the mail provider
-- do, the dump of the database, the templates of the prompts, scripts and the widget. A failing database
-- is modelled where a comment says so, and concurrency where a theorem speaks of an order of steps; two sessions that write one row are never
-- interleaved.
pub mod Backup
pub mod Booking
pub mod Chat
pub mod Common
pub mod Config
pub mod Console
pub mod Credentials
pub mod Email
pub mod Evals
pub mod Google
pub mod Graph
pub mod Handover
pub mod Jobs
pub mod Language
pub mod Models
pub mod Rag
pub mod RateLimit
pub mod Reminders
pub mod Retention
pub mod Scheduling
pub mod Scope
pub mod Tenants
pub mod Whatsapp
