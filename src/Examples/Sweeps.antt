-- ===== src/Examples/Sweeps.antt =====
-- Inputs at which the results on sweeps over runs and on event streams apply.
use dayu_water_agent.Prelude.{◌≤◌, ◌≡◌, refl, String, some, [], ◌∷◌, arith, keep_if, first_if}
use dayu_water_agent.Dict.{get, put, values}
use dayu_water_agent.Json.{string}
use dayu_water_agent.Errors.{ok}
use dayu_water_agent.Runtime.State.{
  is_terminal, StreamEvent, run_started, response_completed, response_delta,
}
use dayu_water_agent.Memory.Store.{MemoryStore, Stamp, new_event}
use dayu_water_agent.Memory.Runs.{reserve_run}
use dayu_water_agent.Memory.Lifecycle.{
  mark_run_running, commit_run_success, append_stream_event, list_stream_events,
}
use dayu_water_agent.Memory.Maintenance.{prune_all, prune_stream_events}
use dayu_water_agent.Memory.Contract.Streams.{list_stream_events-resume, append_stream_event-late}
use dayu_water_agent.Examples.Scenes.{
  start_stamp, end_stamp, completed_store, completed_run, completed_store-run,
}

abbrev started_event : StreamEvent
started_event = new_event "run-1" run_started (("status", string "running") ∷ []) start_stamp 1

abbrev completion : StreamEvent
completion = new_event "run-1" response_completed (("result", string "answer") ∷ []) end_stamp 2

abbrev draw : String → Stamp
draw id = end_stamp

abbrev pruned_store : MemoryStore
pruned_store = (prune_stream_events 4 completed_store).1

list_stream_events-resume_example :
    (list_stream_events "run-1" 1 completed_store ≡ (ok (completion ∷ []), completed_store))
    × (started_event ∷ completion ∷ [] ≡ started_event ∷ completion ∷ [])
unfolding get commit_run_success mark_run_running reserve_run first_if values put
list_stream_events-resume_example =
    list_stream_events-resume completed_store "run-1" 1 completed_run
      (started_event ∷ completion ∷ []) completed_store-run refl (refl, (refl, tt))

append_stream_event-late_example :
    (e : StreamEvent) × ((append_stream_event "run-1" response_delta [] start_stamp pruned_store).0
      ≡ ok e)
    × (get (append_stream_event "run-1" response_delta [] start_stamp pruned_store).1.events "run-1"
        ≡ some (completion ∷ e ∷ []))
    × (e.sequence ≤ 2)
unfolding get prune_stream_events prune_all commit_run_success mark_run_running reserve_run first_if
    values put is_terminal keep_if
append_stream_event-late_example =
    append_stream_event-late pruned_store "run-1" response_delta [] start_stamp completed_run []
      completion refl refl refl (omega arith)
