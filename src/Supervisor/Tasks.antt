-- ===== src/Supervisor/Tasks.antt =====
-- The tasks of `SupervisorAgent` as the event loop runs them: each move is what one task, or one
-- call of the supervisor, does between two points at which it can be suspended.
use dayu_water_agent.Prelude.{ℕ, String, Bool, true, false, ◌≡◌, none, some}
use dayu_water_agent.Dict.{get, put}
use dayu_water_agent.Errors.{Failure, domain, task_cancelled, Result, ok, err}
use dayu_water_agent.Errors.Kinds.{provider, error_code}
use dayu_water_agent.Metrics.{run_finished}
use dayu_water_agent.Runtime.Result.{AgentResult}
use dayu_water_agent.Runtime.State.{AgentRun}
use dayu_water_agent.Memory.Store.{MemoryStore, Stamp}
use dayu_water_agent.Memory.Lifecycle.{mark_run_running, Turn, fail_run}
use dayu_water_agent.Memory.Calls.{Call, step, reserve_run}
use dayu_water_agent.Memory.Calls
use dayu_water_agent.Supervisor.Work.{result_metadata}
use dayu_water_agent.Supervisor.Execution.{Execution, Outcome, commit, ensure_cancelled_if_active}
use dayu_water_agent.Supervisor.Agent.{
  Host, Phase, scheduled, working, ended, raising, Task, SupervisorAgent, cancel, shutdown,
  initialize, task_done,
}
use dayu_water_agent.Supervisor.Requests.{StartRequest, Draws, start}

-- The arguments of the commit of a task's result.
abbrev pub turn_of : Host → Task → AgentResult → Turn
turn_of h t result = record {
  user_content = t.user_content;
  user_metadata = t.user_metadata;
  assistant_content = result.content;
  assistant_metadata = result_metadata h.settings;
  result = result;
  dumped = h.dump_result result;
}

-- `x` is the execution of the task `t` of the run `id`.
pub record Executes (h : Host) (id : String) (t : Task) (x : Execution) : Type 0 where
  pub run_id : x.run_id ≡ id
  pub worker : x.worker_instance_id ≡ h.worker_instance_id
  pub details : x.details ≡ result_metadata h.settings
  pub turn : (result : AgentResult) → x.turn result ≡ turn_of h t result

abbrev pub with_phase : String → Task → Phase → SupervisorAgent → SupervisorAgent
with_phase id t phase a = record a { tasks = put a.tasks id (record t { phase = phase }) }

abbrev pub run_entered :
    String → Task → SupervisorAgent → Result AgentRun × MemoryStore → SupervisorAgent
run_entered id t a (ok _, s) = with_phase id t working (record a { session_store = s })
run_entered id t a (err f, s) = with_phase id t (raising f) (record a { session_store = s })

-- The first step of `_execute_owned`.
unfoldable pub enter : Host → String → Task → Stamp → SupervisorAgent → SupervisorAgent
enter h id t stamp a =
    run_entered id t a (mark_run_running id h.worker_instance_id stamp a.session_store)

abbrev pub result_committed : String → Task → ℕ → SupervisorAgent → Outcome → SupervisorAgent
result_committed id t duration a (ok _, s) =
    with_phase id t ended
      (record a { session_store = s; metrics = run_finished duration false false a.metrics })
result_committed id t duration a (err f, s) =
    with_phase id t (raising f) (record a { session_store = s })

-- The commit of a result, and what follows it up to `return result`.
unfoldable pub commit_result :
    Execution → String → Task → AgentResult → ℕ → SupervisorAgent → SupervisorAgent
unfolding commit
commit_result x id t result duration a =
    result_committed id t duration a (commit x (ok result, a.session_store))

-- The call of the store that each `except` clause makes.
abbrev pub unit_of : {A : Type 0} → Result A × MemoryStore → Result (Unit {0}) × MemoryStore
unit_of (ok _, s) = (ok tt, s)
unit_of (err f, s) = (err f, s)

unfoldable pub closing : Execution → Failure → MemoryStore → Result (Unit {0}) × MemoryStore
unfolding ensure_cancelled_if_active
closing x task_cancelled s = ensure_cancelled_if_active x s
closing x (domain e) s = unit_of (fail_run x.run_id (error_code e.kind) x.close_stamp s)
closing x _ s = unit_of (fail_run x.run_id (error_code provider) x.close_stamp s)

abbrev pub is_cancellation : Failure → Bool
is_cancellation task_cancelled = true
is_cancellation _ = false

abbrev pub is_failure : Failure → Bool
is_failure task_cancelled = false
is_failure _ = true

abbrev pub run_closed :
    String
    → Task
    → Failure
    → ℕ
    → SupervisorAgent
    → Result (Unit {0}) × MemoryStore
    → SupervisorAgent
run_closed id t f duration a (ok _, s) = with_phase id t ended (record a {
  session_store = s;
  metrics = run_finished duration (is_failure f) (is_cancellation f) a.metrics;
})
run_closed id t f duration a (err _, s) = with_phase id t ended (record a { session_store = s })

-- An `except` clause, up to its `raise`.
unfoldable pub close_run :
    Execution → String → Task → Failure → ℕ → SupervisorAgent → SupervisorAgent
unfolding closing
close_run x id t f duration a = run_closed id t f duration a (closing x f a.session_store)

abbrev pub is_working : Phase → Bool
is_working working = true
is_working _ = false

-- A call of the store that reserves no run and starts none.
abbrev pub IsMinor : Call → Type 0
IsMinor (reserve_run q a b) = ⊥
IsMinor (Calls.mark_run_running id worker stamp) = ⊥
IsMinor _ = Unit

pub data Move (h : Host) : SupervisorAgent → SupervisorAgent → Type 0 where
  -- A request. The uuid that is drawn for its run is new.
  started :
      (q : StartRequest) (d : Draws) (a : SupervisorAgent)
      → get a.session_store.runs d.run_stamp.id ≡ none
      → Move h a (start h q d a).1
  cancelled : (id : String) (stamp : Stamp) (a : SupervisorAgent) → Move h a (cancel h id stamp a).1
  initialized :
      (draw : String → Stamp) (now : ℕ) (a : SupervisorAgent) → Move h a (initialize h draw now a).1
  stopped : (draw : String → Stamp) (a : SupervisorAgent) → Move h a (shutdown h draw a).1
  -- What the work of a task, or anyone else, does to the store.
  called :
      (c : Call) (a : SupervisorAgent)
      → IsMinor c
      → Move h a (record a { session_store = step a.session_store c })
  -- A task is entered, unless it was cancelled before.
  entered :
      (id : String) (t : Task) (stamp : Stamp) (a : SupervisorAgent)
      → get a.tasks id ≡ some t
      → t.phase ≡ scheduled
      → t.cancelling ≡ false
      → Move h a (enter h id t stamp a)
  -- The work of a task raises.
  failed :
      (id : String) (t : Task) (f : Failure) (a : SupervisorAgent)
      → get a.tasks id ≡ some t
      → t.phase ≡ working
      → Move h a (with_phase id t (raising f) a)
  -- A cancelled task sees the `CancelledError` in its work.
  interrupted :
      (id : String) (t : Task) (a : SupervisorAgent)
      → get a.tasks id ≡ some t
      → t.phase ≡ working
      → t.cancelling ≡ true
      → Move h a (with_phase id (record t { cancelling = false }) (raising task_cancelled) a)
  committed :
      (x : Execution) (id : String) (t : Task) (result : AgentResult) (duration : ℕ)
      (a : SupervisorAgent)
      → Executes h id t x
      → get a.tasks id ≡ some t
      → t.phase ≡ working
      → Move h a (commit_result x id t result duration a)
  closed :
      (x : Execution) (id : String) (t : Task) (f : Failure) (duration : ℕ) (a : SupervisorAgent)
      → Executes h id t x
      → get a.tasks id ≡ some t
      → t.phase ≡ raising f
      → Move h a (close_run x id t f duration a)
  -- A cancelled task ends at once, when it was not entered or when it is in an `except` clause.
  dropped :
      (id : String) (t : Task) (a : SupervisorAgent)
      → get a.tasks id ≡ some t
      → t.cancelling ≡ true
      → is_working t.phase ≡ false
      → Move h a (with_phase id t ended a)
  done :
      (id : String) (t : Task) (a : SupervisorAgent)
      → get a.tasks id ≡ some t
      → t.phase ≡ ended
      → Move h a (task_done id a)

-- What moves make of a new supervisor.
pub data Runs (h : Host) (a : SupervisorAgent) : SupervisorAgent → Type 0 where
  here : Runs h a a
  next : {b c : SupervisorAgent} → Runs h a b → Move h b c → Runs h a c
