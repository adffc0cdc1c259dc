-- ===== src/Database/Recording.antt =====
-- What the rows that `commit_run_success` of `SQLAlchemyRuntimeStore` writes are read back as.
use dayu_water_agent.Prelude.{first_if, ℕ, ◌≡◌, refl, String, true, Option, none, some, [], ◌∷◌}
use dayu_water_agent.Json.{Payload}
use dayu_water_agent.Errors.{ok}
use dayu_water_agent.Runtime.Session.{MessageRole, user, assistant, AgentMessage}
use dayu_water_agent.Runtime.State.{
  RunStatus, status_value, running, completed, validate_run_transition, response_completed,
  AgentRun, StreamEvent,
}
use dayu_water_agent.Memory.Store.{Stamp}
use dayu_water_agent.Memory.Lifecycle.{Turn}
use dayu_water_agent.Database.Models.{
  AgentRunModel, parse_status, or_none, or_empty_object, run_record, message_record, event_record,
  parse_event_type-event_type_value, parse_role, role_value,
}
use dayu_water_agent.Database.Engine.{Database}
use dayu_water_agent.Database.Transactions.{new_event, status_of, status_or_raise}
use dayu_water_agent.Database.Lifecycle.{turn_row}

-- The run that a row becomes by the commit of a turn.
abbrev pub finished_run : AgentRunModel → Turn → Stamp → AgentRun
finished_run row turn stamp = record {
  id = row.id;
  request_id = row.request_id;
  trace_id = row.trace_id;
  session_id = row.session_id;
  idempotency_key = row.idempotency_key;
  request_hash = row.request_hash;
  status = completed;
  provider = row.provider;
  model = row.model;
  attempt_count = row.attempt_count;
  worker_instance_id = row.worker_instance_id;
  created_at = row.created_at;
  started_at = row.started_at;
  completed_at = some stamp.now;
  usage = turn.result.usage;
  error_code = none;
  result = some turn.dumped;
  metadata = row.metadata_json;
}

-- A message of a run's turn.
abbrev pub said : AgentRunModel → MessageRole → String → ℕ → Payload → Stamp → AgentMessage
said row role content sequence metadata stamp = record {
  id = stamp.id;
  session_id = some row.session_id;
  run_id = some row.id;
  role = role;
  content = content;
  sequence = sequence;
  committed = true;
  metadata = metadata;
  created_at = stamp.created_at;
}

-- The event that closes the stream of a run that completed.
abbrev pub closing : String → Turn → Stamp → ℕ → StreamEvent
closing id turn stamp sequence = record {
  id = stamp.id;
  run_id = id;
  sequence = sequence;
  type = response_completed;
  created_at = stamp.created_at;
  payload = ("result", turn.dumped) ∷ [];
}

pub completes_running :
    (status : RunStatus) → validate_run_transition status completed ≡ ok tt → status ≡ running
unfolding validate_run_transition
completes_running RunStatus.pending e = cc
completes_running running e = refl
completes_running completed e = cc
completes_running RunStatus.failed e = cc
completes_running RunStatus.cancelled e = cc
completes_running RunStatus.interrupted e = cc

pub parsed :
    (row : AgentRunModel) (status : RunStatus)
    → status_of row ≡ ok status
    → parse_status row.status ≡ some status
parsed row status e = go (parse_status row.status) e
  where
    go : (o : Option RunStatus) → status_or_raise o ≡ ok status → o ≡ some status
    go none e = cc
    go (some x) e = cc

pub said_lem :
    (D : Database) (row : AgentRunModel) (content : String) (n : ℕ) (metadata : Payload)
    (stamp : Stamp)
    → (message_record (turn_row D row "user" content n metadata stamp)
        ≡ ok (said row user content n metadata stamp))
      × (message_record (turn_row D row "assistant" content n metadata stamp)
          ≡ ok (said row assistant content n metadata stamp))
unfolding message_record parse_role first_if role_value
said_lem D row content n metadata stamp = (refl, refl)

pub closing_lem :
    (id : String) (turn : Turn) (stamp : Stamp) (n : ℕ)
    → event_record (new_event id response_completed (("result", turn.dumped) ∷ []) stamp n)
      ≡ ok (closing id turn stamp n)
unfolding event_record
closing_lem id turn stamp n =
    rw (event_record, parse_event_type-event_type_value response_completed) refl

module _ (D : Database) where
  -- What the validation library dumps of a usage is read back as that usage.
  abbrev pub DumpsUsage : Turn → Type 0
  DumpsUsage turn =
      D.validate_usage (or_empty_object (D.dump_usage turn.result.usage)) ≡ some turn.result.usage

  abbrev pub finished_row : AgentRunModel → Turn → Stamp → AgentRunModel
  finished_row row turn stamp = record row {
    status = "completed";
    completed_at = some stamp.now;
    usage_json = D.dump_usage turn.result.usage;
    result_json = turn.dumped;
    error_code = none;
  }

  pub finished_lem :
      (row : AgentRunModel) (turn : Turn) (stamp : Stamp)
      → DumpsUsage turn
      → or_none turn.dumped ≡ some turn.dumped
      → run_record D.validate_usage (finished_row row turn stamp) ≡ ok (finished_run row turn stamp)
  unfolding run_record parse_status first_if status_value
  finished_lem row turn stamp usage dumped = rw (usage, dumped) refl
