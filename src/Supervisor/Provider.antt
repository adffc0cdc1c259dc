-- ===== src/Supervisor/Provider.antt =====
-- The provider boundary of src/dayu_agent/providers/base.py, and how one provider call goes.
use dayu_water_agent.Prelude.{String, Bool, Option, List}
use dayu_water_agent.Errors.{Failure}
use dayu_water_agent.Runtime.Result.{TokenUsage}
use dayu_water_agent.Memory.Store.{MemoryStore, Stamp}

pub data MessageRole : Type 0 where
  user assistant : MessageRole

pub record ProviderMessage : Type 0 where
  pub role : MessageRole
  pub content : String

pub record ProviderResponse : Type 0 where
  pub content : String
  pub usage : TokenUsage
  pub tool_calls : List String

pub record ProviderStreamEvent : Type 0 where
  pub delta : Option String
  pub response : Option ProviderResponse
  pub done : Bool

-- How the awaited call of a provider ends: a response, the timeout of the attempt, or a raise.
-- A stream that ends without a raise ends with `finished`.
pub data Ending : Type 0 where
  responded : ProviderResponse → Ending
  finished : Ending
  timed_out : Ending
  raised : Failure → Ending

-- One event of a provider's stream, what the other tasks do to the store before it is persisted,
-- and what the persisted event draws.
pub record StreamItem : Type 0 where
  pub event : ProviderStreamEvent
  pub meanwhile : MemoryStore → MemoryStore
  pub stamp : Stamp
