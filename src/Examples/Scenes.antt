-- ===== src/Examples/Scenes.antt =====
-- A small run in the in-memory store: reserved, running, and finished in several ways.
use dayu_water_agent.Prelude.{first_if, ◌≡◌, refl, none, some, []}
use dayu_water_agent.Dict.{get, put, values}
use dayu_water_agent.Json.{string}
use dayu_water_agent.Runtime.Result.{AgentResult, success}
use dayu_water_agent.Runtime.State.{AgentRun}
use dayu_water_agent.Memory.Store.{MemoryStore, Stamp, empty}
use dayu_water_agent.Memory.Runs.{RunRequest, new_run, reserve_run}
use dayu_water_agent.Memory.Lifecycle.{Turn, mark_run_running, commit_run_success, cancel_run}
use dayu_water_agent.Memory.Cases.{started, finished, cancelled_run}
use dayu_water_agent.Memory.Invariant.{IsValid}
use dayu_water_agent.Memory.Invariant.Steps.{
  mark_run_running-IsValid, commit_run_success-IsValid, cancel_run-IsValid,
}
use dayu_water_agent.Memory.Invariant.Reserve.{reserve_run-IsValid}
use dayu_water_agent.Memory.Calls.Laws.{empty-IsValid}

abbrev pub session_stamp : Stamp
session_stamp = record { id = "session-1"; created_at = 1; now = 1 }

abbrev pub run_stamp : Stamp
run_stamp = record { id = "run-1"; created_at = 2; now = 2 }

abbrev pub start_stamp : Stamp
start_stamp = record { id = "event-1"; created_at = 3; now = 3 }

abbrev pub end_stamp : Stamp
end_stamp = record { id = "event-2"; created_at = 4; now = 4 }

abbrev pub user_stamp : Stamp
user_stamp = record { id = "message-1"; created_at = 4; now = 4 }

abbrev pub assistant_stamp : Stamp
assistant_stamp = record { id = "message-2"; created_at = 4; now = 4 }

abbrev pub request : RunRequest
request = record {
  session_id = none;
  session_metadata = [];
  user_id = some "user-1";
  idempotency_key = some "key-1";
  request_hash = "hash-1";
  request_id = "request-1";
  trace_id = "trace-1";
  provider = "fake";
  model = "fake-deterministic";
  worker_instance_id = "worker-1";
  run_metadata = [];
}

abbrev pub result : AgentResult
result = record {
  request_id = "request-1";
  run_id = some "run-1";
  trace_id = some "trace-1";
  session_id = "session-1";
  agent = "SupervisorAgent";
  content = "answer";
  status = success;
  usage = record { requests = 1; input_tokens = 2; output_tokens = 3; total_tokens = 5 };
  tool_calls = [];
  warnings = [];
  metadata = [];
}

abbrev pub turn : AgentResult → Turn
turn r = record {
  user_content = "question";
  user_metadata = [];
  assistant_content = r.content;
  assistant_metadata = [];
  result = r;
  dumped = string r.content;
}

abbrev pub pending_store : MemoryStore
pending_store = (reserve_run request session_stamp run_stamp empty).1

abbrev pub pending_run : AgentRun
pending_run = new_run request "session-1" run_stamp

abbrev pub running_store : MemoryStore
running_store = (mark_run_running "run-1" "worker-1" start_stamp pending_store).1

abbrev pub running_run : AgentRun
running_run = started pending_run "worker-1" start_stamp

abbrev pub completed_store : MemoryStore
completed_store =
    (commit_run_success "run-1" (turn result) user_stamp assistant_stamp end_stamp running_store).1

abbrev pub completed_run : AgentRun
completed_run = finished running_run (turn result) end_stamp

abbrev pub cancelled_store : MemoryStore
cancelled_store = (cancel_run "run-1" "worker-1" end_stamp running_store).1

pub pending_store-IsValid : IsValid pending_store
unfolding get
pending_store-IsValid = reserve_run-IsValid empty empty-IsValid request session_stamp run_stamp refl

pub running_store-IsValid : IsValid running_store
running_store-IsValid =
    mark_run_running-IsValid pending_store pending_store-IsValid "run-1" "worker-1" start_stamp

pub completed_store-IsValid : IsValid completed_store
completed_store-IsValid =
    commit_run_success-IsValid running_store running_store-IsValid "run-1" (turn result) user_stamp
      assistant_stamp end_stamp

pub cancelled_store-IsValid : IsValid cancelled_store
cancelled_store-IsValid =
    cancel_run-IsValid running_store running_store-IsValid "run-1" "worker-1" end_stamp

pub pending_store-run : get pending_store.runs "run-1" ≡ some pending_run
unfolding reserve_run get first_if values put
pending_store-run = refl

pub running_store-run : get running_store.runs "run-1" ≡ some running_run
unfolding reserve_run mark_run_running get first_if values put
running_store-run = refl

pub completed_store-run : get completed_store.runs "run-1" ≡ some completed_run
unfolding reserve_run mark_run_running commit_run_success get first_if values put
completed_store-run = refl

pub cancelled_store-run :
    get cancelled_store.runs "run-1" ≡ some (cancelled_run running_run end_stamp)
unfolding reserve_run mark_run_running cancel_run get first_if values put
cancelled_store-run = refl
