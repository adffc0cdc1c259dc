-- ===== src/Examples/Stores.antt =====
-- Inputs at which the results on the in-memory store apply.
use dayu_water_agent.Prelude.{
  ◌↔◌, ◌≤◌, ◌≡◌, refl, none, some, [], ◌∷◌, ◌++◌, ◌==◌, first_if, if◌then◌else◌,
}
use dayu_water_agent.Dict.{get, put, values}
use dayu_water_agent.Json.{string}
use dayu_water_agent.Errors.{ok, err}
use dayu_water_agent.Runtime.Session.{user}
use dayu_water_agent.Runtime.State.{
  validate_run_transition, is_active, CancelDisposition, pending, running, completed, AgentRun,
  StreamEvent, response_completed, run_started, newly_cancelled, already_cancelled, is_terminal,
}
use dayu_water_agent.Runtime.Transitions.{Transition, validate_run_transition_iff, History}
use dayu_water_agent.Memory.Store.{Stamp, empty, new_event}
use dayu_water_agent.Memory.Runs.{known_key, RunRequest, reserve_run, get_run}
use dayu_water_agent.Memory.Sessions.{append_message, clear_session, get_session, list_messages}
use dayu_water_agent.Memory.Lifecycle.{
  mark_run_running, increment_run_attempt, commit_run_success, fail_run, cancel_run,
  list_stream_events,
}
use dayu_water_agent.Memory.Cases.{cancelled_run}
use dayu_water_agent.Memory.Invariant.{IsValid}
use dayu_water_agent.Memory.Calls.{Call, step, start, call, now, after}
use dayu_water_agent.Memory.Calls.Laws.{Reach-IsValid}
use dayu_water_agent.Memory.Calls.Histories.{Future-run}
use dayu_water_agent.Memory.Contract.Idempotency.{reserve_run-replay, replayed}
use dayu_water_agent.Memory.Contract.Exclusion.{active_run-excludes, busy_failure}
use dayu_water_agent.Memory.Contract.Atomicity.{method-IsAtomic, CallIsAtomic, IsRead}
use dayu_water_agent.Memory.Contract.Turns.{
  commit_run_success-turn, turn_of, terminal_run-frozen, refused,
}
use dayu_water_agent.Memory.Contract.Cancellation.{cancel_run-settled}
use dayu_water_agent.Examples.Scenes.{
  session_stamp, run_stamp, start_stamp, end_stamp, user_stamp, assistant_stamp, request, result,
  turn, pending_store, pending_run, running_store, running_run, completed_store, completed_run,
  cancelled_store, running_store-IsValid, running_store-run, completed_store-run,
}

Reach-IsValid_example : IsValid (step empty (Call.reserve_run request session_stamp run_stamp))
unfolding get
Reach-IsValid_example =
    Reach-IsValid (call start (Call.reserve_run request session_stamp run_stamp) refl)

abbrev fresh_stamp : Stamp
fresh_stamp = record run_stamp { id = "uuid-9" }

abbrev second_request : RunRequest
second_request = record request { session_id = some "session-1"; idempotency_key = some "key-2" }

active_run-excludes_example :
    (append_message "session-1" user "hello" none session_stamp running_store
      ≡ (err (busy_failure running_run), running_store))
    × (clear_session "session-1" 9 running_store ≡ (err (busy_failure running_run), running_store))
    × (reserve_run second_request session_stamp end_stamp running_store
        ≡ (err (busy_failure running_run), running_store))
unfolding is_active known_key get mark_run_running reserve_run first_if values put
active_run-excludes_example =
    active_run-excludes running_store "run-1" running_run user "hello" none 9 second_request
      session_stamp end_stamp running_store-IsValid running_store-run refl refl refl

reserve_run-replay_example :
    (r : AgentRun) × (r.id ≡ "run-1")
    × History pending r.status
    × (r.request_hash ≡ "hash-1")
    × (get pending_store.runs "run-1" ≡ some r)
    × (reserve_run request session_stamp end_stamp pending_store
        ≡ (replayed request r, pending_store))
unfolding get reserve_run first_if values
reserve_run-replay_example =
    reserve_run-replay empty pending_store request request session_stamp run_stamp session_stamp
      end_stamp "key-1" pending_run (Reach-IsValid start) refl refl refl refl now

abbrev started_event : StreamEvent
started_event = new_event "run-1" run_started (("status", string "running") ∷ []) start_stamp 1

abbrev completion : StreamEvent
completion = new_event "run-1" response_completed (("result", string "answer") ∷ []) end_stamp 2

commit_run_success-turn_example :
    ((commit_run_success "run-1" (turn result) user_stamp assistant_stamp end_stamp running_store).0
      ≡ ok completed_run)
    × (get completed_store.runs "run-1"
        ≡ (if "run-1" == "run-1" then some completed_run else get running_store.runs "run-1"))
    × (get completed_store.messages "run-1" ≡ (
        if "session-1" == "run-1"
        then some ([] ++ turn_of running_run (turn result) user_stamp assistant_stamp 0)
        else get running_store.messages "run-1"))
    × (get completed_store.events "run-1" ≡ (
        if "run-1" == "run-1"
        then some (started_event ∷ completion ∷ [])
        else get running_store.events "run-1"))
unfolding reserve_run mark_run_running get first_if values put
commit_run_success-turn_example =
    commit_run_success-turn running_store "run-1" (turn result) user_stamp assistant_stamp end_stamp
      running_run [] (started_event ∷ []) "run-1" running_store-IsValid running_store-run refl refl
      refl

method-IsAtomic_example :
    CallIsAtomic running_store (Call.reserve_run request fresh_stamp fresh_stamp)
    × IsRead running_store (get_session "session-1" running_store)
    × IsRead running_store (list_messages "session-1" running_store)
    × IsRead running_store (get_run "session-1" running_store)
    × IsRead running_store (list_stream_events "session-1" 0 running_store)
unfolding reserve_run mark_run_running get first_if values put
method-IsAtomic_example =
    method-IsAtomic running_store (Call.reserve_run request fresh_stamp fresh_stamp) "session-1" 0
      running_store-IsValid refl

terminal_run-frozen_example :
    (mark_run_running "run-1" "worker-1" start_stamp completed_store
      ≡ (err (refused completed running), completed_store))
    × (increment_run_attempt "run-1" completed_store
        ≡ (err (refused completed running), completed_store))
    × (commit_run_success "run-1" (turn result) user_stamp assistant_stamp end_stamp completed_store
        ≡ (err (refused completed completed), completed_store))
    × (fail_run "run-1" "PROVIDER_ERROR" end_stamp completed_store
        ≡ (ok completed_run, completed_store))
    × (cancel_run "run-1" "worker-1" end_stamp completed_store ≡ (
      ok (record { run = completed_run; disposition = CancelDisposition.already_terminal }),
      completed_store,
    ))
unfolding is_terminal mark_run_running put get commit_run_success reserve_run first_if values
terminal_run-frozen_example =
    terminal_run-frozen completed_store "run-1" "worker-1" "PROVIDER_ERROR" (turn result) user_stamp
      assistant_stamp end_stamp completed_run completed_store-run refl

cancel_run-settled_example : cancel_run "run-1" "worker-2" start_stamp cancelled_store ≡ (
  ok (record { run = cancelled_run running_run end_stamp; disposition = already_cancelled }),
  cancelled_store,
)
unfolding cancel_run get mark_run_running reserve_run first_if values put
cancel_run-settled_example =
    cancel_run-settled running_store cancelled_store "run-1" "worker-1" "worker-2" end_stamp
      start_stamp
      (record { run = cancelled_run running_run end_stamp; disposition = newly_cancelled })
      running_store-IsValid refl now

Future-run_example :
    (r : AgentRun) × (get completed_store.runs "run-1" ≡ some r)
    × History running r.status
    × (0 ≤ r.attempt_count)
    × (r.id ≡ "run-1")
    × (r.session_id ≡ "session-1")
    × (r.idempotency_key ≡ some "key-1")
    × (r.request_hash ≡ "hash-1")
unfolding step
Future-run_example =
    Future-run running_store completed_store "run-1" running_run running_store-IsValid
      (after now
        (Call.commit_run_success "run-1" (turn result) user_stamp assistant_stamp end_stamp) tt)
      running_store-run

validate_run_transition_iff_example :
    (validate_run_transition running completed ≡ ok tt) ↔ Transition running completed
validate_run_transition_iff_example = validate_run_transition_iff running completed
