-- ===== src/Chat.antt =====
-- A visitor's turn around the agent graph: app/api/chat.py, app/services/turn.py,
-- app/services/history.py and the conversations of app/services/tenants.py.
--
-- `Database` is what a session reads and writes: an error rolls a session back to where it began.
-- `Process` is the memory of the server, which no error rolls back. Ids are natural numbers; `fresh` is
-- the id of a new conversation. Messages stand in the order of their creation.
pub mod Turn
pub mod Prepare
pub mod Own
pub mod Admitted
pub mod Endpoint
pub mod Answered
pub mod Spending
pub mod History
mod Examples
use bots_infra_be.Common.{ℕ, Bool, String, Option, List}
use bots_infra_be.Common.Json.{Fields}
use bots_infra_be.RateLimit.{RateLimiter}
use bots_infra_be.Tenants.{Tenant, Location}
use bots_infra_be.Tenants.Resolve.{Cache}
use bots_infra_be.Graph

pub record Conversation : Type 0 where
  pub id : ℕ
  pub tenant : ℕ
  pub location : Option ℕ
  pub session_id : String
  pub channel : String
  pub locale : String
  pub status : String
  pub intake : Fields
  pub consent : Bool
  pub consent_at : Option ℕ
  pub consent_version : ℕ
  pub ip : String

pub data Role : Type 0 where
  user assistant : Role

pub record Message : Type 0 where
  pub tenant : ℕ
  pub conversation : ℕ
  pub role : Role
  pub content : String
  pub trace : List String
  pub blocked : Bool
  pub block_reason : String
  pub tokens_in : ℕ
  pub tokens_out : ℕ

-- `Envelope`
pub record Envelope : Type 0 where
  pub public_key : String
  pub session_id : String
  pub text : String
  pub channel : String
  pub locale : String
  pub location_key : Option String
  pub consent : Bool

pub record Database : Type 0 where
  pub tenants : List Tenant
  pub locations : List Location
  pub conversations : List Conversation
  pub messages : List Message

pub record Process : Type 0 where
  pub per_ip : RateLimiter
  pub per_session : RateLimiter
  pub per_tenant : RateLimiter
  pub cache : Cache

-- The time of a request: the monotonic clock in milliseconds and in seconds, and the calendar.
pub record Now : Type 0 where
  pub milliseconds : ℕ
  pub monotonic : ℕ
  pub utc : ℕ

pub record TurnContext : Type 0 where
  pub tenant_id : ℕ
  pub location_id : Option ℕ
  pub conversation_id : ℕ
  pub history : List Graph.Message
  pub intake : Fields
  pub locale : String
