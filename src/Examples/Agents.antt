-- ===== src/Examples/Agents.antt =====
-- A supervisor over a new in-memory store that takes a request, and how its task ends.
use dayu_water_agent.Prelude.{◌≡◌, refl, false, none, some, [], ◌∷◌, first_if, keep_if, length}
use dayu_water_agent.Dict.{get, put, values}
use dayu_water_agent.Json.{string}
use dayu_water_agent.Errors.{ok}
use dayu_water_agent.Runtime.State.{AgentRun}
use dayu_water_agent.Memory.Invariant.{IsValid}
use dayu_water_agent.Memory.Runs.{new_run, reserve_run}
use dayu_water_agent.Memory.Lifecycle.{mark_run_running}
use dayu_water_agent.Memory.Maintenance.{owned_by, orphaned_from}
use dayu_water_agent.Guardrails.{check, non_empty_input, is_space, is_blank}
use dayu_water_agent.Supervisor.Work.{result_metadata}
use dayu_water_agent.Supervisor.Execution.{Execution}
use dayu_water_agent.Supervisor.Agent.{
  Host, working, Task, SupervisorAgent, new_agent, shutdown, initialize,
}
use dayu_water_agent.Supervisor.Requests.{
  StartRequest, Draws, reservation_request, new_task, strip, start,
}
use dayu_water_agent.Supervisor.Tasks.{
  Executes, enter, commit_result, turn_of, Runs, here, next, started, entered, committed,
}
use dayu_water_agent.Supervisor.Starts.{OwnedBy}
use dayu_water_agent.Supervisor.Served.{Runs-Owned}
use dayu_water_agent.Memory.Calls.Laws.{empty-IsValid}
use dayu_water_agent.Supervisor.Admission.{Started, start-Started}
use dayu_water_agent.Supervisor.Halting.{IsHalted, shutdown-IsHalted}
use dayu_water_agent.Supervisor.Recovery.{IsRecovered, initialize-IsRecovered}
use dayu_water_agent.Examples.Registries.{settings}
use dayu_water_agent.Examples.Scenes.{
  session_stamp, run_stamp, start_stamp, end_stamp, user_stamp, assistant_stamp, result,
}

abbrev host : Host
host = record {
  worker_instance_id = "worker-1";
  settings = settings;
  input_guardrails = non_empty_input ∷ [];
  stream_event_retention_seconds = 60;
  second = 1;
  digest = λ j. "hash-1";
  dump_result = λ r. string r.content;
}

abbrev question : StartRequest
question = record {
  message = " question ";
  session_id = none;
  user_id = some "user-1";
  metadata = none;
  request_id = none;
  idempotency_key = some "key-1";
  streaming = false;
}

abbrev draws : Draws
draws = record {
  request_id = "request-1";
  trace_id = "trace-1";
  created_at = 1;
  session_stamp = session_stamp;
  run_stamp = run_stamp;
}

abbrev asked : SupervisorAgent
asked = (start host question draws new_agent).1

abbrev asked_run : AgentRun
asked_run = new_run (reservation_request host question draws) "session-1" run_stamp

abbrev task : Task
task = new_task host question draws asked_run

abbrev entered_agent : SupervisorAgent
entered_agent = enter host "run-1" task start_stamp asked

abbrev running_task : Task
running_task = record task { phase = working }

abbrev execution : Execution
execution = record {
  run_id = "run-1";
  worker_instance_id = "worker-1";
  before = λ s. s;
  work = λ s. (ok result, s);
  interlude = λ s. s;
  turn = turn_of host running_task;
  details = result_metadata settings;
  start_stamp = start_stamp;
  user_stamp = user_stamp;
  assistant_stamp = assistant_stamp;
  commit_stamp = end_stamp;
  close_stamp = end_stamp;
}

abbrev answered : SupervisorAgent
answered = commit_result execution "run-1" running_task result 1 entered_agent

fresh_run : get new_agent.session_store.runs draws.run_stamp.id ≡ none
unfolding get
fresh_run = refl

asked-task : get asked.tasks "run-1" ≡ some task
unfolding start check non_empty_input is_blank is_space strip reserve_run get first_if values put
asked-task = refl

entered_agent-task : get entered_agent.tasks "run-1" ≡ some running_task
unfolding enter mark_run_running start check non_empty_input is_blank is_space strip reserve_run get
    first_if values put
entered_agent-task = refl

executed : Executes host "run-1" running_task execution
executed = record { run_id = refl; worker = refl; details = refl; turn = λ r. refl }

entered_agent-Runs : Runs host new_agent entered_agent
unfolding new_task
entered_agent-Runs =
    next (next here (started question draws new_agent fresh_run))
      (entered "run-1" task start_stamp asked asked-task refl refl)

answered-Runs : Runs host new_agent answered
answered-Runs = next entered_agent-Runs (
    committed execution "run-1" running_task result 1 entered_agent executed entered_agent-task
      refl)

Runs-Owned_example : OwnedBy host answered
Runs-Owned_example = Runs-Owned host answered answered-Runs

entered_agent-IsValid : IsValid entered_agent.session_store
entered_agent-IsValid = (Runs-Owned host entered_agent entered_agent-Runs).valid

-- The process that comes after.
abbrev other_host : Host
other_host = record host { worker_instance_id = "worker-2" }

shutdown-IsHalted_example :
    ((shutdown host (λ id. end_stamp) entered_agent).0
      ≡ ok (length (keep_if (owned_by "worker-1") (values entered_agent.session_store.runs))))
    × IsHalted host (shutdown host (λ id. end_stamp) entered_agent).1
shutdown-IsHalted_example =
    shutdown-IsHalted host (λ id. end_stamp) entered_agent entered_agent-IsValid

initialize-IsRecovered_example :
    ((initialize other_host (λ id. end_stamp) 100 entered_agent).0
      ≡ ok (length (keep_if (orphaned_from "worker-2") (values entered_agent.session_store.runs))))
    × IsRecovered other_host entered_agent
        (initialize other_host (λ id. end_stamp) 100 entered_agent).1
initialize-IsRecovered_example =
    initialize-IsRecovered other_host (λ id. end_stamp) 100 entered_agent entered_agent-IsValid

start-Started_example : Started host question draws new_agent (start host question draws new_agent)
unfolding get
start-Started_example = start-Started host question draws new_agent empty-IsValid refl
