-- ===== src/Runtime/Result.antt =====
-- src/dayu_agent/runtime/result.py. A duration is a number of a fixed small unit of time.
use dayu_water_agent.Prelude.{
  ℕ, ◌+◌, String, ◌≡◌, ◌≢◌, Option, List, ◌&&◌, ◌||◌, not, arith, ltb, if◌then◌else◌,
}
use dayu_water_agent.Json.{Payload}

pub data AgentStatus : Type 0 where
  success failed blocked partial : AgentStatus

pub record TokenUsage : Type 0 where
  pub requests : ℕ
  pub input_tokens : ℕ
  pub output_tokens : ℕ
  pub total_tokens : ℕ

-- The default of every `usage` field.
abbrev pub no_usage : TokenUsage
no_usage = record { requests = 0; input_tokens = 0; output_tokens = 0; total_tokens = 0 }

-- The validator that runs after a `TokenUsage` is built.
unfoldable pub normalize_total : TokenUsage → TokenUsage
normalize_total u =
    if not (ltb 0 u.total_tokens) && (ltb 0 u.input_tokens || ltb 0 u.output_tokens)
    then record u { total_tokens = u.input_tokens + u.output_tokens }
    else u

pub record ToolCallRecord : Type 0 where
  pub name : String
  pub status : AgentStatus
  pub duration_ms : ℕ
  pub output : Option Payload
  pub error_code : Option String

pub record AgentResult : Type 0 where
  pub request_id : String
  pub run_id : Option String
  pub trace_id : Option String
  pub session_id : String
  pub agent : String
  pub content : String
  pub status : AgentStatus
  pub usage : TokenUsage
  pub tool_calls : List ToolCallRecord
  pub warnings : List String
  pub metadata : Payload

-- A total that a provider reported is kept; a missing one is the sum, so it is 0 only for no
-- tokens.
pub normalize_total_cases :
    (u : TokenUsage)
    → (u.total_tokens ≢ 0 → normalize_total u ≡ u)
      × (u.total_tokens ≡ 0 → (normalize_total u).total_tokens ≡ u.input_tokens + u.output_tokens)
      × (normalize_total (normalize_total u) ≡ normalize_total u)
unfolding normalize_total
normalize_total_cases u = (λ h. ground arith, λ h. ground arith, ground arith)
