-- ===== src/Examples/Tasks.antt =====
-- Inputs at which the results on the supervisor's tasks and readers apply.
use dayu_water_agent.Prelude.{
  keep_if, ℕ, ◌≡◌, refl, zero, suc, true, false, none, some, [], ◌∷◌, arith, first_if,
}
use dayu_water_agent.Dict.{get, put, values}
use dayu_water_agent.Json.{Json}
use dayu_water_agent.Errors.{Result, ok}
use dayu_water_agent.Runtime.State.{is_terminal}
use dayu_water_agent.Memory.Store.{MemoryStore}
use dayu_water_agent.Memory.Runs.{reserve_run}
use dayu_water_agent.Memory.Lifecycle.{mark_run_running, commit_run_success, list_stream_events}
use dayu_water_agent.Memory.Calls.{now}
use dayu_water_agent.Supervisor.Provider.{timed_out, StreamItem}
use dayu_water_agent.Supervisor.Attempts.{Attempt, timeout_error, may_retry, call_provider}
use dayu_water_agent.Supervisor.Bounds.{Attempted, run_provider_with_retry-Ends, Ends}
use dayu_water_agent.Supervisor.Replay.{call_provider-emitted}
use dayu_water_agent.Supervisor.Execution.{Execution, execute_owned}
use dayu_water_agent.Supervisor.Settlement.{
  IsOrderly, IsSettled, IsCompleted, execute_owned-IsSettled, execute_owned-IsCompleted,
}
use dayu_water_agent.Supervisor.Watch.{stream_run, wait_for_result}
use dayu_water_agent.Supervisor.Watching.{
  IsClosed, stream_run-IsClosed, stream_run-race, wait_for_result-ends,
}
use dayu_water_agent.Examples.Floats.{whole, budget}
use dayu_water_agent.Examples.Scenes.{
  start_stamp, end_stamp, user_stamp, assistant_stamp, result, turn, pending_store, pending_run,
  running_store, running_run, completed_store, completed_run, pending_store-IsValid,
  running_store-IsValid, completed_store-IsValid, pending_store-run, running_store-run,
  completed_store-run,
}

abbrev alone : MemoryStore → MemoryStore
alone s = s

abbrev execution : Execution
execution = record {
  run_id = "run-1";
  worker_instance_id = "worker-1";
  before = alone;
  work = λ s. (ok result, s);
  interlude = alone;
  turn = turn;
  details = [];
  start_stamp = start_stamp;
  user_stamp = user_stamp;
  assistant_stamp = assistant_stamp;
  commit_stamp = end_stamp;
  close_stamp = end_stamp;
}

execution-IsOrderly : IsOrderly execution
execution-IsOrderly = record { before = λ s. now; interlude = λ s. now; work = λ s. now }

execute_owned-IsSettled_example : IsSettled execution (execute_owned execution pending_store)
execute_owned-IsSettled_example =
    execute_owned-IsSettled execution pending_store pending_run execution-IsOrderly
      pending_store-IsValid pending_store-run

execute_owned-IsCompleted_example :
    IsCompleted execution result (execute_owned execution pending_store).1
unfolding execute_owned mark_run_running get reserve_run first_if values put commit_run_success
execute_owned-IsCompleted_example =
    execute_owned-IsCompleted execution pending_store pending_run result execution-IsOrderly
      pending_store-IsValid pending_store-run refl

abbrev item : StreamItem
item = record {
  event = record { delta = some "par"; response = none; done = false };
  meanwhile = alone;
  stamp = end_stamp;
}

abbrev pub slow : Attempt whole
slow = record {
  meanwhile = alone;
  spent = 0;
  items = item ∷ [];
  ending = timed_out;
  elapsed = 1;
  random_value = 1;
}

call_provider-emitted_example :
    ¬ ((call_provider whole budget true "run-1" slow running_store).0 ≡ may_retry timeout_error)
call_provider-emitted_example =
    call_provider-emitted whole budget "run-1" slow running_store timeout_error refl

abbrev script : ℕ → Attempt whole
script n = slow

pub running-Attempted : Attempted "run-1" 0 running_store
running-Attempted = record {
  valid = running_store-IsValid;
  run = running_run;
  at = running_store-run;
  count = omega arith;
}

run_provider_with_retry-Ends_example : Ends whole budget false "run-1" 2 script 0 running_store
run_provider_with_retry-Ends_example =
    run_provider_with_retry-Ends whole budget false "run-1" 2 0 0 script running_store
      (λ k. ((λ s. now), ((λ s. now), tt))) running-Attempted (omega arith) (omega arith)

-- The run is completed after the second read.
abbrev raced : ℕ → MemoryStore
raced zero = running_store
raced (suc zero) = running_store
raced (suc (suc n)) = completed_store

stream_run-race_example : stream_run "run-1" 1 raced 1 ≡ ([], some (ok tt))
unfolding list_stream_events get mark_run_running reserve_run first_if values put keep_if
    is_terminal
stream_run-race_example =
    stream_run-race "run-1" 1 raced 0 running_run completed_run [] running_store-run refl tt
      completed_store-run refl

stream_run-IsClosed_example : IsClosed (stream_run "run-1" 0 raced 2).0
stream_run-IsClosed_example = stream_run-IsClosed "run-1" 0 raced 2

wait_for_result-ends_example :
    (out : Result Json) × (wait_for_result "run-1" (λ n. completed_store) 1 0 ≡ some out)
unfolding is_terminal
wait_for_result-ends_example =
    wait_for_result-ends "run-1" (λ n. completed_store) (λ n. completed_run) 0 0 1
      (λ n. completed_store-IsValid) (λ n. completed_store-run) refl (omega arith)
