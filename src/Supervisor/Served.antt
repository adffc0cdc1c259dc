-- ===== src/Supervisor/Served.antt =====
-- Whatever a supervisor and its tasks do, no active run of its worker is without a task.
use dayu_water_agent.Prelude.{refl, false, arith}
use dayu_water_agent.Dict.{get}
use dayu_water_agent.Errors
use dayu_water_agent.Memory.Calls.{step}
use dayu_water_agent.Memory.Calls.Laws.{empty-IsValid}
use dayu_water_agent.Supervisor.Agent
use dayu_water_agent.Supervisor.Agent.{
  Host, Phase, scheduled, working, ended, raising, is_ended, Task, SupervisorAgent, new_agent,
}
use dayu_water_agent.Supervisor.Tasks.{
  Move, started, cancelled, initialized, stopped, called, entered, failed, interrupted, committed,
  closed, dropped, done, Runs, here, next,
}
use dayu_water_agent.Supervisor.Owners.{step-Advance}
use dayu_water_agent.Supervisor.Custody.{
  Advance-IsOwned, retask-IsOwned, rephase-IsOwned, remove-IsOwned,
}
use dayu_water_agent.Supervisor.Starts.{OwnedBy, start-IsOwned}
use dayu_water_agent.Supervisor.Moves.{
  finished-idle, cancel-IsOwned, shutdown-IsOwned, initialize-IsOwned,
}
use dayu_water_agent.Supervisor.Stages.{
  enter-IsOwned, ended-IsOwned, commit_result-IsOwned, close_run-IsOwned,
}

Move-IsOwned : (h : Host) (a b : SupervisorAgent) → Move h a b → OwnedBy h a → OwnedBy h b
unfolding Agent.task_done
Move-IsOwned h _ _ (started q d a fresh) o = start-IsOwned h q d a o fresh
Move-IsOwned h _ _ (cancelled id stamp a) o = cancel-IsOwned h id stamp a o
Move-IsOwned h _ _ (initialized draw now a) o = initialize-IsOwned h draw now a o
Move-IsOwned h _ _ (stopped draw a) o = shutdown-IsOwned h draw a o
Move-IsOwned h _ _ (called c a minor) o =
    let s = a.session_store in
    Advance-IsOwned h.worker_instance_id s (step s c) a.tasks (step-Advance s c minor o.valid) o
Move-IsOwned h _ _ (entered id t stamp a at _ _) o = enter-IsOwned h id t a o at stamp
Move-IsOwned h _ _ (failed id t f a at _) o =
    rephase-IsOwned h.worker_instance_id a.session_store a.tasks id t (raising f) at (λ _ _ _. refl)
      o
Move-IsOwned h _ _ (interrupted id t a at _ _) o =
    retask-IsOwned h.worker_instance_id a.session_store a.tasks id t
      (record t { cancelling = false; phase = raising Errors.task_cancelled }) at (λ _ _ _. refl)
      (λ r _ c. absurd (ground (arith, c))) o
Move-IsOwned h _ _ (committed x id t result duration a runs at _) o =
    commit_result-IsOwned h id t a o at x result duration runs
Move-IsOwned h _ _ (closed x id t f duration a runs at _) o =
    close_run-IsOwned h id t a o at x f duration runs
Move-IsOwned h _ _ (dropped id t a at stop _) o =
    let (r, stored, _, over) = o.fits id t at in
    ended-IsOwned h id t a o at a.session_store
      (λ r' at'. finished-idle a.session_store id r r' stored (over stop) at') o
Move-IsOwned h _ _ (done id t a at over) o =
    remove-IsOwned h.worker_instance_id a.session_store a.tasks id t at (ground (arith, over)) o

new_agent-IsOwned : (h : Host) → OwnedBy h new_agent
unfolding get
new_agent-IsOwned h = record {
  valid = empty-IsValid;
  distinct = tt;
  owned = λ k r at. absurd (ground (arith, at));
  fits = λ k t at. absurd (ground (arith, at));
}

Runs-IsOwned : {h : Host} {a b : SupervisorAgent} → Runs h a b → OwnedBy h a → OwnedBy h b
Runs-IsOwned here o = o
Runs-IsOwned (next runs m) o = Move-IsOwned _ _ _ m (Runs-IsOwned runs o)

-- In every state that a new supervisor over a new in-memory store comes to, by requests that draw a
-- fresh run id, cancellations, starts and stops, by the moves of its tasks and by other calls of the
-- store that neither reserve nor start a run: its store is valid, each pending or running run of its
-- worker has a task in its table that is not done, and each task in the table belongs to a stored
-- run of the worker and has a pending `task.cancel()` only if that run is finished.
pub Runs-Owned : (h : Host) (a : SupervisorAgent) → Runs h new_agent a → OwnedBy h a
Runs-Owned h a runs = Runs-IsOwned runs (new_agent-IsOwned h)
