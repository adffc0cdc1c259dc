-- ===== src/Database/Models.antt =====
-- The rows of src/dayu_agent/database/models.py, and how src/dayu_agent/database/store.py reads them.
-- A JSON column that holds a dictionary is a `Payload`; the columns `usage` and `result`, which the
-- validation library reads and writes, are `Json`.
use dayu_water_agent.Prelude.{
  ℕ, String, Bool, Option, none, some, ◌==◌, ◌≡◌, refl, first_if, [], ◌∷◌,
}
use dayu_water_agent.Json.{Json, null, object, end_fields, Payload}
use dayu_water_agent.Errors.{other_exception, Result, ok, err}
use dayu_water_agent.Runtime.Result.{TokenUsage}
use dayu_water_agent.Runtime.Session.{MessageRole, user, assistant, AgentMessage, SessionRecord}
use dayu_water_agent.Runtime.State.{
  RunStatus, pending, running, completed, failed, cancelled, interrupted, status_value,
  StreamEventType, run_started, response_delta, response_completed, run_failed, run_cancelled,
  run_interrupted, AgentRun, StreamEvent,
}

pub record AgentSessionModel : Type 0 where
  pub id : String
  pub user_id : Option String
  pub status : String
  pub metadata_json : Payload
  pub version : ℕ
  pub created_at : ℕ
  pub updated_at : ℕ

pub record AgentRunModel : Type 0 where
  pub id : String
  pub request_id : String
  pub trace_id : String
  pub session_id : String
  pub idempotency_key : Option String
  pub request_hash : String
  pub status : String
  pub provider : String
  pub model : String
  pub attempt_count : ℕ
  pub worker_instance_id : String
  pub created_at : ℕ
  pub started_at : Option ℕ
  pub completed_at : Option ℕ
  pub usage_json : Json
  pub error_code : Option String
  pub result_json : Json
  pub metadata_json : Payload

pub record AgentMessageModel : Type 0 where
  pub id : String
  pub session_id : String
  pub run_id : Option String
  pub role : String
  pub content : String
  pub sequence : ℕ
  pub committed : Bool
  pub metadata_json : Payload
  pub created_at : ℕ

pub record AgentStreamEventModel : Type 0 where
  pub id : String
  pub run_id : String
  pub sequence : ℕ
  pub event_type : String
  pub payload_json : Payload
  pub created_at : ℕ

-- `RunStatus(value)`: the member with that value; it raises a `ValueError` where there is none.
unfoldable pub parse_status : String → Option RunStatus
unfolding first_if status_value
parse_status s =
    first_if (λ x. status_value x == s)
      (pending ∷ running ∷ completed ∷ failed ∷ cancelled ∷ interrupted ∷ [])

-- The values of `StreamEventType` and of `MessageRole`, and the members by their values.
unfoldable pub event_type_value : StreamEventType → String
event_type_value run_started = "run.started"
event_type_value response_delta = "response.delta"
event_type_value response_completed = "response.completed"
event_type_value run_failed = "run.failed"
event_type_value run_cancelled = "run.cancelled"
event_type_value run_interrupted = "run.interrupted"

unfoldable pub parse_event_type : String → Option StreamEventType
unfolding first_if event_type_value
parse_event_type s =
    first_if (λ x. event_type_value x == s)
      (run_started ∷ response_delta ∷ response_completed ∷ run_failed ∷ run_cancelled
        ∷ run_interrupted ∷ [])

unfoldable pub role_value : MessageRole → String
role_value user = "user"
role_value assistant = "assistant"

unfoldable pub parse_role : String → Option MessageRole
unfolding first_if role_value
parse_role s = first_if (λ x. role_value x == s) (user ∷ assistant ∷ [])

-- `value or None` of a column that holds a dictionary
unfoldable pub or_none : Json → Option Json
or_none null = none
or_none (object end_fields) = none
or_none value = some value

-- `value or {}` of a column that holds a dictionary
abbrev pub or_empty_object : Json → Json
or_empty_object null = object end_fields
or_empty_object value = value

unfoldable pub session_record : AgentSessionModel → SessionRecord
session_record model = record {
  id = model.id;
  user_id = model.user_id;
  status = model.status;
  metadata = model.metadata_json;
  version = model.version;
  created_at = model.created_at;
  updated_at = model.updated_at;
}

unfoldable pub message_record : AgentMessageModel → Result AgentMessage
message_record model = elim (parse_role model.role) [
  | none ↦ err other_exception
  | some role ↦ ok (record {
    id = model.id;
    session_id = some model.session_id;
    run_id = model.run_id;
    role = role;
    content = model.content;
    sequence = model.sequence;
    committed = model.committed;
    metadata = model.metadata_json;
    created_at = model.created_at;
  })
]

unfoldable pub event_record : AgentStreamEventModel → Result StreamEvent
event_record model = elim (parse_event_type model.event_type) [
  | none ↦ err other_exception
  | some type ↦ ok (record {
    id = model.id;
    run_id = model.run_id;
    sequence = model.sequence;
    type = type;
    created_at = model.created_at;
    payload = model.payload_json;
  })
]

abbrev pub parsed_run : AgentRunModel → RunStatus → TokenUsage → AgentRun
parsed_run model status usage = record {
  id = model.id;
  request_id = model.request_id;
  trace_id = model.trace_id;
  session_id = model.session_id;
  idempotency_key = model.idempotency_key;
  request_hash = model.request_hash;
  status = status;
  provider = model.provider;
  model = model.model;
  attempt_count = model.attempt_count;
  worker_instance_id = model.worker_instance_id;
  created_at = model.created_at;
  started_at = model.started_at;
  completed_at = model.completed_at;
  usage = usage;
  error_code = model.error_code;
  result = or_none model.result_json;
  metadata = model.metadata_json;
}

abbrev pub built_run : AgentRunModel → Option RunStatus → Option TokenUsage → Result AgentRun
built_run model (some status) (some usage) = ok (parsed_run model status usage)
built_run model _ _ = err other_exception

-- `_run`; `validate` is `TokenUsage.model_validate` of the validation library.
unfoldable pub run_record : (Json → Option TokenUsage) → AgentRunModel → Result AgentRun
run_record validate model =
    built_run model (parse_status model.status) (validate (or_empty_object model.usage_json))

pub parse_status-status_value :
    (status : RunStatus) → parse_status (status_value status) ≡ some status
unfolding parse_status first_if status_value
parse_status-status_value pending = refl
parse_status-status_value running = refl
parse_status-status_value completed = refl
parse_status-status_value failed = refl
parse_status-status_value cancelled = refl
parse_status-status_value interrupted = refl

pub parse_event_type-event_type_value :
    (type : StreamEventType) → parse_event_type (event_type_value type) ≡ some type
unfolding parse_event_type first_if event_type_value
parse_event_type-event_type_value run_started = refl
parse_event_type-event_type_value response_delta = refl
parse_event_type-event_type_value response_completed = refl
parse_event_type-event_type_value run_failed = refl
parse_event_type-event_type_value run_cancelled = refl
parse_event_type-event_type_value run_interrupted = refl
