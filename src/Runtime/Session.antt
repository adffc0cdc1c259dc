-- ===== src/Runtime/Session.antt =====
-- src/dayu_agent/contracts/session.py. A time is a number of a fixed small unit.
use dayu_water_agent.Prelude.{ℕ, String, Option, Bool}
use dayu_water_agent.Json.{Payload}

pub data MessageRole : Type 0 where
  user assistant : MessageRole

pub record AgentMessage : Type 0 where
  pub id : String
  pub session_id : Option String
  pub run_id : Option String
  pub role : MessageRole
  pub content : String
  pub sequence : ℕ
  pub committed : Bool
  pub metadata : Payload
  pub created_at : ℕ

pub record SessionRecord : Type 0 where
  pub id : String
  pub user_id : Option String
  pub status : String
  pub metadata : Payload
  pub version : ℕ
  pub created_at : ℕ
  pub updated_at : ℕ
