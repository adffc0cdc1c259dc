-- ===== src/Memory/Maintenance.antt =====
-- The methods of `InMemorySessionStore` that walk over all runs.
use dayu_water_agent.Prelude.{
  ℕ, ◌+◌, ◌-◌, String, Bool, not, ◌&&◌, some, List, [], ◌∷◌, ◌==◌, length, keep_if, leb,
  if◌then◌else◌,
}
use dayu_water_agent.Dict.{values}
use dayu_water_agent.Runtime.State.{
  interrupted, is_active, is_terminal, validate_run_transition, run_interrupted, AgentRun,
  StreamEvent,
}
use dayu_water_agent.Memory.Store.{
  Stamp, Exec, ◌>>=◌, ◌>>◌, pure, lift, run_at, put_run, put_events, append_event_locked,
}
use dayu_water_agent.Memory.Lifecycle.{status_payload}

abbrev pub interrupted_run : AgentRun → Stamp → AgentRun
interrupted_run run stamp = record run { status = interrupted; completed_at = some stamp.now }

unfoldable pub interrupt_locked : AgentRun → Stamp → Exec StreamEvent
unfolding append_event_locked validate_run_transition
interrupt_locked run stamp = do
  lift (validate_run_transition run.status interrupted)
  put_run run.id (interrupted_run run stamp)
  append_event_locked run.id run_interrupted (status_payload interrupted) stamp

-- `for run in runs: self._interrupt_locked(run)`; `draw` gives what each round draws.
unfoldable pub interrupt_all : (String → Stamp) → List AgentRun → Exec (Unit {0})
interrupt_all draw [] = pure tt
interrupt_all draw (run ∷ runs) = interrupt_locked run (draw run.id) >> interrupt_all draw runs

abbrev pub owned_by : String → AgentRun → Bool
owned_by worker run = is_active run.status && run.worker_instance_id == worker

abbrev pub orphaned_from : String → AgentRun → Bool
orphaned_from worker run = is_active run.status && not (run.worker_instance_id == worker)

unfoldable pub interrupt_matching : (AgentRun → Bool) → (String → Stamp) → Exec ℕ
interrupt_matching selects draw s =
    let runs = keep_if selects (values s.runs) in (interrupt_all draw runs >> pure (length runs)) s

unfoldable pub interrupt_worker_runs : String → (String → Stamp) → Exec ℕ
interrupt_worker_runs worker = interrupt_matching (owned_by worker)

unfoldable pub reconcile_orphaned_runs : String → (String → Stamp) → Exec ℕ
reconcile_orphaned_runs worker = interrupt_matching (orphaned_from worker)

abbrev pub is_retained : ℕ → StreamEvent → Bool
is_retained before e = leb before e.created_at

unfoldable pub prune_run : ℕ → String → List StreamEvent → ℕ → AgentRun → Exec ℕ
prune_run before run_id events removed run =
    if not (is_terminal run.status) then pure removed else do
      let retained = keep_if (is_retained before) events
      put_events run_id retained
      pure (removed + (length events - length retained))

-- The loop over `_events.items()`, with the count so far.
unfoldable pub prune_all : ℕ → List (String × List StreamEvent) → ℕ → Exec ℕ
unfolding run_at prune_run
prune_all before [] removed = pure removed
prune_all before ((run_id, events) ∷ rest) removed =
    run_at run_id >>= prune_run before run_id events removed >>= prune_all before rest

unfoldable pub prune_stream_events : ℕ → Exec ℕ
prune_stream_events before s = prune_all before s.events 0 s
