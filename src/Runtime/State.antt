-- ===== src/Runtime/State.antt =====
-- src/dayu_agent/runtime/state.py: runs, their lifecycle, and the events of their streams.
use dayu_water_agent.Prelude.{
  ℕ, String, Bool, true, false, Option, List, [], ◌∷◌, ◌||◌, if◌then◌else◌,
}
use dayu_water_agent.Json.{Json, string, Payload}
use dayu_water_agent.Errors.{Result, ok, err, failure}
use dayu_water_agent.Errors.Kinds.{invalid_run_transition}
use dayu_water_agent.Runtime.Result.{TokenUsage}

pub data RunStatus : Type 0 where
  pending running completed failed cancelled interrupted : RunStatus

unfoldable pub status_value : RunStatus → String
status_value pending = "pending"
status_value running = "running"
status_value completed = "completed"
status_value failed = "failed"
status_value cancelled = "cancelled"
status_value interrupted = "interrupted"

-- The members of an enumeration are compared by identity.
unfoldable pub same_status : RunStatus → RunStatus → Bool
same_status pending pending = true
same_status running running = true
same_status completed completed = true
same_status failed failed = true
same_status cancelled cancelled = true
same_status interrupted interrupted = true
same_status _ _ = false

-- `status in statuses`
unfoldable pub status_in : RunStatus → List RunStatus → Bool
unfolding same_status
status_in x [] = false
status_in x (y ∷ ys) = same_status x y || status_in x ys

abbrev pub active_run_statuses : List RunStatus
active_run_statuses = pending ∷ running ∷ []

abbrev pub terminal_run_statuses : List RunStatus
terminal_run_statuses = completed ∷ failed ∷ cancelled ∷ interrupted ∷ []

-- `ALLOWED_RUN_TRANSITIONS.get(current, frozenset())`
abbrev pub allowed_run_transitions : RunStatus → List RunStatus
allowed_run_transitions pending = running ∷ failed ∷ cancelled ∷ interrupted ∷ []
allowed_run_transitions running = completed ∷ failed ∷ cancelled ∷ interrupted ∷ []
allowed_run_transitions _ = []

unfoldable pub is_active : RunStatus → Bool
unfolding status_in
is_active status = status_in status active_run_statuses

unfoldable pub is_terminal : RunStatus → Bool
unfolding status_in
is_terminal status = status_in status terminal_run_statuses

pub transition_details : RunStatus → RunStatus → Payload
unfolding status_value
transition_details current target =
    ("current_status", string (status_value current))
    ∷ ("target_status", string (status_value target))
    ∷ []

unfoldable pub validate_run_transition : RunStatus → RunStatus → Result (Unit {0})
unfolding status_in transition_details
validate_run_transition current target =
    if status_in target (allowed_run_transitions current)
    then ok tt
    else err (failure invalid_run_transition (transition_details current target))

pub data StreamEventType : Type 0 where
  run_started response_delta response_completed run_failed : StreamEventType
  run_cancelled run_interrupted : StreamEventType

-- `type in TERMINAL_EVENT_TYPES`
unfoldable pub is_terminal_event : StreamEventType → Bool
is_terminal_event response_completed = true
is_terminal_event run_failed = true
is_terminal_event run_cancelled = true
is_terminal_event run_interrupted = true
is_terminal_event _ = false

pub record AgentRun : Type 0 where
  pub id : String
  pub request_id : String
  pub trace_id : String
  pub session_id : String
  pub idempotency_key : Option String
  pub request_hash : String
  pub status : RunStatus
  pub provider : String
  pub model : String
  pub attempt_count : ℕ
  pub worker_instance_id : String
  pub created_at : ℕ
  pub started_at : Option ℕ
  pub completed_at : Option ℕ
  pub usage : TokenUsage
  pub error_code : Option String
  pub result : Option Json
  pub metadata : Payload

pub record RunReservation : Type 0 where
  pub run : AgentRun
  pub owns_execution : Bool

pub record StreamEvent : Type 0 where
  pub id : String
  pub run_id : String
  pub sequence : ℕ
  pub type : StreamEventType
  pub created_at : ℕ
  pub payload : Payload

pub data CancelDisposition : Type 0 where
  newly_cancelled already_cancelled already_terminal : CancelDisposition

pub record CancelResult : Type 0 where
  pub run : AgentRun
  pub disposition : CancelDisposition
