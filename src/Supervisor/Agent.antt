-- ===== src/Supervisor/Agent.antt =====
-- `SupervisorAgent` with its table of tasks: `cancel`, `initialize`, `shutdown` and `_task_done`. The
-- store's methods never suspend, so each of these runs as one step up to the point where it waits
-- for tasks to end. Logging is left out.
use dayu_water_agent.Prelude.{
  ℕ, ◌-◌, ◌*◌, String, Bool, true, false, Option, none, some, List, [], ◌∷◌, if◌then◌else◌,
}
use dayu_water_agent.Dict.{Dict, get, put, remove}
use dayu_water_agent.Json.{Json, Payload}
use dayu_water_agent.Errors.{Failure, Result, ok, err}
use dayu_water_agent.Guardrails.{GuardrailDecision}
use dayu_water_agent.Metrics.{RuntimeMetrics, new_metrics}
use dayu_water_agent.Runtime.Result.{AgentResult}
use dayu_water_agent.Runtime.State.{CancelResult, same_status, cancelled}
use dayu_water_agent.Memory.Store.{MemoryStore, Stamp, empty}
use dayu_water_agent.Memory.Lifecycle.{cancel_run}
use dayu_water_agent.Memory.Maintenance.{
  interrupt_worker_runs, reconcile_orphaned_runs, prune_stream_events,
}
use dayu_water_agent.Supervisor.Work.{AgentContext, Settings}

-- What the constructor is given, the units of the clock in a second, the digest of a canonical
-- request, and `model_dump` of a result.
pub record Host : Type 0 where
  pub worker_instance_id : String
  pub settings : Settings
  pub input_guardrails : List (String → GuardrailDecision)
  pub stream_event_retention_seconds : ℕ
  pub second : ℕ
  pub digest : Json → String
  pub dump_result : AgentResult → Json

-- How far a task has come: created but not entered, past the start of its run, with an exception on
-- its way to an `except` clause, or done.
pub data Phase : Type 0 where
  scheduled working ended : Phase
  raising : Failure → Phase

abbrev pub is_ended : Phase → Bool
is_ended ended = true
is_ended _ = false

-- A task of the table with the arguments of its `_execute_owned`; `cancelling` is a request of
-- `task.cancel()` that it has not seen yet.
pub record Task : Type 0 where
  pub context : AgentContext
  pub user_content : String
  pub user_metadata : Payload
  pub streaming : Bool
  pub phase : Phase
  pub cancelling : Bool

pub record SupervisorAgent : Type 0 where
  pub session_store : MemoryStore
  pub tasks : Dict Task
  pub accepting : Bool
  pub metrics : RuntimeMetrics

-- SupervisorAgent(session_store=InMemorySessionStore(), ...)
abbrev pub new_agent : SupervisorAgent
new_agent = record { session_store = empty; tasks = []; accepting = true; metrics = new_metrics }

-- `task.cancel()`, which does nothing to a task that is done.
abbrev pub cancel_task : Task → Task
cancel_task t = if is_ended t.phase then t else record t { cancelling = true }

abbrev pub signalled : Dict Task → String → Option Task → Dict Task
signalled tasks id none = tasks
signalled tasks id (some t) = put tasks id (cancel_task t)

abbrev pub cancel_outcome :
    String
    → SupervisorAgent
    → Result CancelResult × MemoryStore
    → Result CancelResult × SupervisorAgent
cancel_outcome id a (err f, s) = (err f, record a { session_store = s })
cancel_outcome id a (ok outcome, s) = (
  ok outcome,
  record a {
    session_store = s;
    tasks =
        if same_status outcome.run.status cancelled
        then signalled a.tasks id (get a.tasks id)
        else a.tasks;
  },
)

unfoldable pub cancel :
    Host → String → Stamp → SupervisorAgent → Result CancelResult × SupervisorAgent
cancel h id stamp a = cancel_outcome id a (cancel_run id h.worker_instance_id stamp a.session_store)

-- `for task in tasks: task.cancel()`
unfoldable pub cancel_all : Dict Task → Dict Task
cancel_all [] = []
cancel_all ((id, t) ∷ tasks) = (id, cancel_task t) ∷ cancel_all tasks

abbrev pub stopped : SupervisorAgent → Result ℕ × MemoryStore → Result ℕ × SupervisorAgent
stopped a (err f, s) = (err f, record a { session_store = s; accepting = false })
stopped a (ok interrupted, s) =
    (ok interrupted, record a { session_store = s; accepting = false; tasks = cancel_all a.tasks })

unfoldable pub shutdown : Host → (String → Stamp) → SupervisorAgent → Result ℕ × SupervisorAgent
unfolding cancel_all
shutdown h draw a = stopped a (interrupt_worker_runs h.worker_instance_id draw a.session_store)

abbrev pub pruned : SupervisorAgent → ℕ → Result ℕ × MemoryStore → Result ℕ × SupervisorAgent
pruned a interrupted (err f, s) = (err f, record a { session_store = s })
pruned a interrupted (ok _, s) = (ok interrupted, record a { session_store = s; accepting = true })

abbrev pub reconciled : ℕ → SupervisorAgent → Result ℕ × MemoryStore → Result ℕ × SupervisorAgent
reconciled before a (err f, s) = (err f, record a { session_store = s })
reconciled before a (ok interrupted, s) = pruned a interrupted (prune_stream_events before s)

-- `now` is what the clock returns. A time before the clock's first one counts as that one, before which
-- there is no event either.
unfoldable pub initialize :
    Host → (String → Stamp) → ℕ → SupervisorAgent → Result ℕ × SupervisorAgent
initialize h draw now a =
    reconciled (now - h.stream_event_retention_seconds * h.second) a
      (reconcile_orphaned_runs h.worker_instance_id draw (record a.session_store { ready = true }))

-- `_task_done`
unfoldable pub task_done : String → SupervisorAgent → SupervisorAgent
task_done id a = record a { tasks = remove a.tasks id }
