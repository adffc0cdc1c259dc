-- ===== src/Supervisor/Execution.antt =====
-- `_execute_owned` and `_ensure_cancelled_if_active`: the task that owns a run. Tracing, metrics
-- and logging are left out.
use dayu_water_agent.Prelude.{false, String, none, some}
use dayu_water_agent.Json.{Payload}
use dayu_water_agent.Errors.{
  DayuAgentError, make_error, Failure, domain, key_error, task_cancelled, other_exception, Result,
  ok, err,
}
use dayu_water_agent.Errors.Kinds.{provider, error_code}
use dayu_water_agent.Runtime.Result.{AgentResult}
use dayu_water_agent.Runtime.State.{AgentRun, CancelResult}
use dayu_water_agent.Memory.Store.{MemoryStore, Stamp}
use dayu_water_agent.Memory.Lifecycle.{
  mark_run_running, Turn, commit_run_success, fail_run, cancel_run,
}

-- What happens around the task of a run: what other tasks do to the store before its first step and
-- before its handling of an exception; the work between its start and its commit, from parsing the
-- message to the checked result, which ends with a result or an exception; the arguments of the
-- commit of a result; and what the steps draw.
pub record Execution : Type 0 where
  pub run_id : String
  pub worker_instance_id : String
  pub before : MemoryStore → MemoryStore
  pub work : MemoryStore → Result AgentResult × MemoryStore
  pub interlude : MemoryStore → MemoryStore
  pub turn : AgentResult → Turn
  pub details : Payload
  pub start_stamp : Stamp
  pub user_stamp : Stamp
  pub assistant_stamp : Stamp
  pub commit_stamp : Stamp
  pub close_stamp : Stamp

abbrev pub Outcome : Type 0
Outcome = Result AgentResult × MemoryStore

-- The `except DayuAgentError` that logs and goes on.
unfoldable pub caught : Result CancelResult × MemoryStore → Result (Unit {0}) × MemoryStore
caught (ok _, s) = (ok tt, s)
caught (err (domain e), s) = (ok tt, s)
caught (err f, s) = (err f, s)

unfoldable pub ensure_cancelled_if_active :
    Execution → MemoryStore → Result (Unit {0}) × MemoryStore
unfolding caught
ensure_cancelled_if_active x s = caught (cancel_run x.run_id x.worker_instance_id x.close_stamp s)

-- A `raise` after a call that may raise itself.
unfoldable pub raise_after {ℓ} : {A : Type ℓ} → Failure → Result A × MemoryStore → Outcome
raise_after f (ok _, s) = (err f, s)
raise_after f (err g, s) = (err g, s)

abbrev pub wrapped : Execution → DayuAgentError
wrapped x = make_error provider none (some x.details) false

-- The three `except` clauses.
unfoldable pub handle : Execution → Failure → MemoryStore → Outcome
unfolding ensure_cancelled_if_active raise_after
handle x task_cancelled s = raise_after task_cancelled (ensure_cancelled_if_active x s)
handle x (domain e) s =
    raise_after (domain e) (fail_run x.run_id (error_code e.kind) x.close_stamp s)
handle x (key_error k) s =
    raise_after (domain (wrapped x)) (fail_run x.run_id (error_code provider) x.close_stamp s)
handle x other_exception s =
    raise_after (domain (wrapped x)) (fail_run x.run_id (error_code provider) x.close_stamp s)

-- `return result`, when it is committed.
unfoldable pub committed : AgentResult → Result AgentRun × MemoryStore → Outcome
committed result (ok _, s) = (ok result, s)
committed result (err f, s) = (err f, s)

unfoldable pub commit : Execution → Outcome → Outcome
unfolding committed
commit x (err f, s) = (err f, s)
commit x (ok result, s) =
    committed result
      (commit_run_success x.run_id (x.turn result) x.user_stamp x.assistant_stamp x.commit_stamp s)

unfoldable pub work_started : Execution → Result AgentRun × MemoryStore → Outcome
unfolding commit
work_started x (err f, s) = (err f, s)
work_started x (ok _, s) = commit x (x.work s)

-- The body of the `try`.
unfoldable pub body : Execution → MemoryStore → Outcome
unfolding work_started
body x s =
    work_started x (mark_run_running x.run_id x.worker_instance_id x.start_stamp (x.before s))

unfoldable pub closed : Execution → Outcome → Outcome
unfolding handle
closed x (ok result, s) = (ok result, s)
closed x (err f, s) = handle x f (x.interlude s)

unfoldable pub execute_owned : Execution → MemoryStore → Outcome
unfolding body closed
execute_owned x s = closed x (body x s)
