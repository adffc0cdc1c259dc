-- ===== src/Memory/Calls.antt =====
-- Calls of the in-memory store by any number of tasks. The lock makes each call one step, so what
-- the tasks do together is a sequence of calls.
pub mod Laws
pub mod Lifetimes
pub mod Histories
use dayu_water_agent.Prelude.{ℕ, String, ◌≡◌, Option, none}
use dayu_water_agent.Dict.{get}
use dayu_water_agent.Json.{Payload}
use dayu_water_agent.Runtime.Session.{MessageRole}
use dayu_water_agent.Runtime.State.{StreamEventType}
use dayu_water_agent.Memory.Store.{MemoryStore, Stamp, empty}
use dayu_water_agent.Memory.Sessions
use dayu_water_agent.Memory.Runs
use dayu_water_agent.Memory.Runs.{RunRequest}
use dayu_water_agent.Memory.Lifecycle
use dayu_water_agent.Memory.Lifecycle.{Turn}
use dayu_water_agent.Memory.Maintenance

-- A method that changes the store, with its arguments and what it draws.
pub data Call : Type 0 where
  create_session : Option Payload → Option String → Option String → Stamp → Call
  append_message : String → MessageRole → String → Option Payload → Stamp → Call
  clear_session : String → ℕ → Call
  reserve_run : RunRequest → Stamp → Stamp → Call
  mark_run_running : String → String → Stamp → Call
  increment_run_attempt : String → Call
  append_stream_event : String → StreamEventType → Payload → Stamp → Call
  commit_run_success : String → Turn → Stamp → Stamp → Stamp → Call
  fail_run : String → String → Stamp → Call
  cancel_run : String → String → Stamp → Call
  interrupt_worker_runs : String → (String → Stamp) → Call
  reconcile_orphaned_runs : String → (String → Stamp) → Call
  prune_stream_events : ℕ → Call

-- The store after the call, whether it returned or raised.
unfoldable pub step : MemoryStore → Call → MemoryStore
step s (create_session metadata id user stamp) =
    (Sessions.create_session metadata id user stamp s).1
step s (append_message id role content metadata stamp) =
    (Sessions.append_message id role content metadata stamp s).1
step s (clear_session id now) = (Sessions.clear_session id now s).1
step s (reserve_run q session_stamp run_stamp) = (Runs.reserve_run q session_stamp run_stamp s).1
step s (mark_run_running id worker stamp) = (Lifecycle.mark_run_running id worker stamp s).1
step s (increment_run_attempt id) = (Lifecycle.increment_run_attempt id s).1
step s (append_stream_event id type payload stamp) =
    (Lifecycle.append_stream_event id type payload stamp s).1
step s (commit_run_success id turn user_stamp assistant_stamp stamp) =
    (Lifecycle.commit_run_success id turn user_stamp assistant_stamp stamp s).1
step s (fail_run id error_code stamp) = (Lifecycle.fail_run id error_code stamp s).1
step s (cancel_run id worker stamp) = (Lifecycle.cancel_run id worker stamp s).1
step s (interrupt_worker_runs worker draw) = (Maintenance.interrupt_worker_runs worker draw s).1
step s (reconcile_orphaned_runs worker draw) = (Maintenance.reconcile_orphaned_runs worker draw s).1
step s (prune_stream_events before) = (Maintenance.prune_stream_events before s).1

-- A uuid that is drawn for a run names no run yet.
abbrev pub IsFresh : MemoryStore → Call → Type 0
IsFresh s (reserve_run q session_stamp run_stamp) = get s.runs run_stamp.id ≡ none
IsFresh s _ = Unit

-- What calls make of a new store.
pub data Reach : MemoryStore → Type 0 where
  start : Reach empty
  call : {s : MemoryStore} → Reach s → (c : Call) → IsFresh s c → Reach (step s c)

-- What further calls make of `s`.
pub data Future (s : MemoryStore) : MemoryStore → Type 0 where
  now : Future s s
  after : {t : MemoryStore} → Future s t → (c : Call) → IsFresh t c → Future s (step t c)
