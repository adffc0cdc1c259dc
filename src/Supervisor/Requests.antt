-- ===== src/Supervisor/Requests.antt =====
-- `_start` and `request_hash` of `SupervisorAgent`. What `json.dumps` and `sha256` make of the
-- canonical request is an argument. The guardrails and the store's methods never suspend, so it
-- runs as one step. Logging is left out.
use Prim.Native.Char.{code}
use dayu_water_agent.Prelude.{
  ℕ, String, Bool, false, not, Option, none, some, [], ◌∷◌, if◌then◌else◌,
}
use dayu_water_agent.Dict.{put}
use dayu_water_agent.Json.{Json, null, boolean, string, object, Fields, end_fields, field, Payload}
use dayu_water_agent.Errors.{Failure, domain, make_error, Result, ok, err}
use dayu_water_agent.Errors.Kinds.{runtime_unavailable}
use dayu_water_agent.Guardrails.{check, is_space, is_blank}
use dayu_water_agent.Metrics.{run_started}
use dayu_water_agent.Runtime.State.{AgentRun, RunReservation}
use dayu_water_agent.Memory.Store.{MemoryStore, Stamp}
use dayu_water_agent.Memory.Sessions.{or_empty, or_uuid}
use dayu_water_agent.Memory.Runs.{RunRequest, reserve_run}
use dayu_water_agent.Supervisor.Work.{AgentContext}
use dayu_water_agent.Supervisor.Agent.{Host, Phase, Task, SupervisorAgent}

-- The keyword arguments of `_start`.
pub record StartRequest : Type 0 where
  pub message : String
  pub session_id : Option String
  pub user_id : Option String
  pub metadata : Option Payload
  pub request_id : Option String
  pub idempotency_key : Option String
  pub streaming : Bool

-- What the default factories draw during one `_start`.
pub record Draws : Type 0 where
  pub request_id : String
  pub trace_id : String
  pub created_at : ℕ
  pub session_stamp : Stamp
  pub run_stamp : Stamp

-- `s.lstrip()` and `s.rstrip()`
unfoldable pub strip_start : String → String
unfolding is_space
strip_start String.[] = String.[]
strip_start (String.◌∷◌ c s) = if is_space (code c) then strip_start s else String.◌∷◌ c s

unfoldable pub strip_end : String → String
unfolding is_blank
strip_end String.[] = String.[]
strip_end (String.◌∷◌ c s) =
    if is_blank (String.◌∷◌ c s) then String.[] else String.◌∷◌ c (strip_end s)

-- `message.strip()`
unfoldable pub strip : String → String
unfolding strip_start strip_end
strip message = strip_end (strip_start message)

abbrev pub text_or_null : Option String → Json
text_or_null none = null
text_or_null (some text) = string text

unfoldable pub fields_of : Payload → Fields
fields_of [] = end_fields
fields_of ((key, value) ∷ rest) = field key value (fields_of rest)

-- The dictionary that is hashed, its keys sorted.
unfoldable pub request_hash :
    (Json → String) → String → Option String → Option String → Payload → String
unfolding fields_of
request_hash digest message session_id user_id metadata = digest (
    object (
      field "message" (string message) (
        field "metadata" (object (fields_of metadata)) (
          field "session_id" (text_or_null session_id)
            (field "user_id" (text_or_null user_id) end_fields)))))

unfoldable pub provisional : Host → StartRequest → Draws → AgentContext
provisional h q d = record {
  request_id = or_uuid q.request_id d.request_id;
  run_id = none;
  trace_id = d.trace_id;
  session_id = or_uuid q.session_id "unassigned";
  user_id = q.user_id;
  agent_name = h.settings.name;
  metadata = or_empty q.metadata;
  created_at = d.created_at;
}

-- The arguments of `reserve_run`.
unfoldable pub reservation_request : Host → StartRequest → Draws → RunRequest
unfolding provisional strip request_hash
reservation_request h q d = record {
  session_id = q.session_id;
  session_metadata = or_empty q.metadata;
  user_id = q.user_id;
  idempotency_key = q.idempotency_key;
  request_hash =
      request_hash h.digest (strip q.message) q.session_id q.user_id (or_empty q.metadata);
  request_id = (provisional h q d).request_id;
  trace_id = (provisional h q d).trace_id;
  provider = h.settings.provider_name;
  model = h.settings.model_name;
  worker_instance_id = h.worker_instance_id;
  run_metadata = ("streaming", boolean q.streaming) ∷ [];
}

-- `asyncio.create_task(self._execute_owned(...))`
unfoldable pub new_task : Host → StartRequest → Draws → AgentRun → Task
unfolding provisional strip
new_task h q d run = record {
  context = record (provisional h q d) { session_id = run.session_id; run_id = some run.id };
  user_content = strip q.message;
  user_metadata = or_empty q.metadata;
  streaming = q.streaming;
  phase = Phase.scheduled;
  cancelling = false;
}

-- `if reservation.owns_execution: ...`
abbrev pub scheduled_for :
    Host → StartRequest → Draws → RunReservation → SupervisorAgent → SupervisorAgent
scheduled_for h q d reservation a =
    if reservation.owns_execution
    then record a {
      metrics = run_started a.metrics;
      tasks = put a.tasks reservation.run.id (new_task h q d reservation.run);
    }
    else a

abbrev pub started :
    Host
    → StartRequest
    → Draws
    → SupervisorAgent
    → Result RunReservation × MemoryStore
    → Result AgentRun × SupervisorAgent
started h q d a (err f, s) = (err f, record a { session_store = s })
started h q d a (ok reservation, s) =
    (ok reservation.run, scheduled_for h q d reservation (record a { session_store = s }))

abbrev pub admitted :
    Host
    → StartRequest
    → Draws
    → SupervisorAgent
    → Result (Unit {0})
    → Result AgentRun × SupervisorAgent
admitted h q d a (err f) = (err f, a)
admitted h q d a (ok _) =
    started h q d a
      (reserve_run (reservation_request h q d) d.session_stamp d.run_stamp a.session_store)

abbrev pub unavailable : Failure
unavailable = domain (make_error runtime_unavailable none none false)

unfoldable pub start :
    Host → StartRequest → Draws → SupervisorAgent → Result AgentRun × SupervisorAgent
unfolding strip new_task reservation_request
start h q d a =
    if not a.accepting
    then (err unavailable, a)
    else admitted h q d a (check h.input_guardrails (strip q.message))
