-- ===== src/Examples/Rows.antt =====
-- The database store at the small database.
use dayu_water_agent.Dict.{values}
use dayu_water_agent.Prelude.{
  first_if, is_some, ◌≡◌, refl, sym, subst, ◌∙◌, ap, eq_iff, String, Bool, true, false, Option,
  none, some, List, [], ◌∷◌, ◌==◌, if◌then◌else◌,
}
use dayu_water_agent.Dict.{get, put}
use dayu_water_agent.Errors.{Result, ok, err}
use dayu_water_agent.Runtime.State.{
  AgentRun, status_value, same_status, completed, validate_run_transition, RunReservation,
  StreamEvent, run_started,
}
use dayu_water_agent.Memory.Lifecycle
use dayu_water_agent.Database.Models.{AgentRunModel, parse_status, or_none, run_record}
use dayu_water_agent.Database.Commits.{Recorded, commit_run_success-Recorded}
use dayu_water_agent.Database.Transcripts.{session_row}
use dayu_water_agent.Runtime.Result.{no_usage}
use dayu_water_agent.Memory.Lifecycle.{Turn}
use dayu_water_agent.Memory.Runs.{reserve_run}
use dayu_water_agent.Database.Reservations
use dayu_water_agent.Database.Reservations.{run_row}
use dayu_water_agent.Database.Lifecycle.{
  mark_run_running, increment_run_attempt, fail_run, cancel_run, append_stream_event,
  commit_run_success,
}
use dayu_water_agent.Database.Outcomes.{Kept}
use dayu_water_agent.Database.Simulation.{Reads, SameRun, Related}
use dayu_water_agent.Database.Refinement.{Agrees, lifecycle-Agrees}
use dayu_water_agent.Database.Numbering.{Published, append_stream_event-Published}
use dayu_water_agent.Database.Ownership.{Reservation, reserve_run-Reservation}
use dayu_water_agent.Examples.Scenes.{
  request, session_stamp, run_stamp, start_stamp, end_stamp, pending_store, pending_run,
  pending_store-IsValid, result, turn,
}
use dayu_water_agent.Examples.Databases.{
  entered, Tables, no_tables, tables, tables-IsDatabase, find_if, greatest, by_key,
}

abbrev pending_row : AgentRunModel
pending_row = run_row request "session-1" run_stamp

abbrev pending_tables : Tables
pending_tables = record no_tables { runs = pending_row ∷ [] }

is_committed : Result AgentRun → Bool
is_committed (ok run) = same_status run.status completed
is_committed (err e) = false

owns : Result RunReservation → Option Bool
owns (ok res) = some res.owns_execution
owns (err e) = none

pending_row-Reads : Reads tables pending_row pending_run
unfolding parse_status first_if status_value or_none
pending_row-Reads = record { status = refl; usage = refl; fields = refl }

only_run :
    (k : String) (b : Bool)
    → ("run-1" == k) ≡ b
    → SameRun tables (tables.run pending_tables k) (if b then some pending_run else none)
unfolding find_if
only_run k true e = rw e pending_row-Reads
only_run k false e = rw e tt

stored_runs :
    (k : String) → get pending_store.runs k ≡ (if "run-1" == k then some pending_run else none)
unfolding reserve_run get put first_if values
stored_runs k = refl

stored_events : get pending_store.events "run-1" ≡ some []
unfolding reserve_run get put first_if values
stored_events = refl

only_events :
    (k : String) (r : AgentRun) (b : Bool)
    → ("run-1" == k) ≡ b
    → (if b then some pending_run else none) ≡ some r
    → (es : List StreamEvent) × (get pending_store.events k ≡ some es)
only_events k r true e h =
    ([], ap (get pending_store.events) (sym ((eq_iff "run-1" k).0 e)) ∙ stored_events)
only_events k r false e h = cc

pending-Related : Related tables pending_tables pending_store
pending-Related = record {
  runs = λ k.
      subst (λ z. SameRun tables (tables.run pending_tables k) z) (sym (stored_runs k))
        (only_run k ("run-1" == k) refl);
  ids = λ k row h. tables-IsDatabase.run_id_lem pending_tables k row h;
  events = λ k r h. only_events k r ("run-1" == k) refl (sym (stored_runs k) ∙ h);
}

lifecycle-Agrees_example :
    Agrees tables "mark_run_running" pending_tables
      (mark_run_running tables "run-1" "worker-1" start_stamp pending_tables)
      (Lifecycle.mark_run_running "run-1" "worker-1" start_stamp pending_store)
    × Agrees tables "increment_run_attempt" pending_tables
        (increment_run_attempt tables "run-1" pending_tables)
        (Lifecycle.increment_run_attempt "run-1" pending_store)
    × Agrees tables "fail_run" pending_tables
        (fail_run tables "run-1" "provider_timeout" start_stamp pending_tables)
        (Lifecycle.fail_run "run-1" "provider_timeout" start_stamp pending_store)
    × Agrees tables "cancel_run" pending_tables
        (cancel_run tables "run-1" "worker-1" start_stamp pending_tables)
        (Lifecycle.cancel_run "run-1" "worker-1" start_stamp pending_store)
lifecycle-Agrees_example =
    lifecycle-Agrees tables tables-IsDatabase pending_tables pending_store "run-1" "worker-1"
      "provider_timeout" start_stamp pending_store-IsValid pending-Related

abbrev running_tables : Tables
running_tables = record no_tables {
  sessions = session_row "session-1" none [] session_stamp ∷ [];
  runs = record pending_row { status = "running" } ∷ [];
}

abbrev unmetered : Turn
unmetered = turn (record result { usage = no_usage })

commit_run_success-Recorded_example :
    Kept tables running_tables
      (Recorded tables "run-1" unmetered run_stamp start_stamp end_stamp running_tables)
      (commit_run_success tables "run-1" unmetered run_stamp start_stamp end_stamp running_tables)
unfolding or_none
commit_run_success-Recorded_example =
    commit_run_success-Recorded tables tables-IsDatabase "run-1" unmetered run_stamp start_stamp
      end_stamp running_tables refl refl

-- The commit goes through.
commit_test :
    is_committed
      (commit_run_success tables "run-1" unmetered run_stamp start_stamp end_stamp running_tables).0
    ≡ true
unfolding is_committed commit_run_success find_if parse_status first_if greatest run_record
    validate_run_transition
commit_test = refl

append_stream_event-Published_example :
    Kept tables pending_tables
      (Published tables pending_tables "run-1")
      (append_stream_event tables "run-1" run_started [] start_stamp pending_tables)
append_stream_event-Published_example =
    append_stream_event-Published tables tables-IsDatabase "run-1" run_started [] start_stamp
      pending_tables

reserve_run-Reservation_example :
    Reservation tables request "session-1" run_stamp
      (λ d. d)
      (λ d. d)
      no_tables
      (Reservations.reserve_run tables request session_stamp run_stamp (λ d. d) (λ d. d) no_tables)
reserve_run-Reservation_example =
    reserve_run-Reservation tables tables-IsDatabase request session_stamp run_stamp (λ d. d)
      (λ d. d) no_tables

-- A reservation that is granted.
grant_test :
    owns
      (Reservations.reserve_run tables request session_stamp run_stamp
        (λ d. d)
        (λ d. d)
        no_tables).0
    ≡ some true
unfolding owns Reservations.reserve_run find_if by_key entered parse_status first_if status_value
grant_test = refl

-- Another worker commits a run with the key after the first check: the second check returns it as a
-- replay, and the session row that was inserted between the checks is committed, with no run.
orphan_test :
    (owns
        (Reservations.reserve_run tables request end_stamp start_stamp
          (λ _. pending_tables)
          (λ d. d)
          no_tables).0
      ≡ some false)
    × (is_some (
          tables.session
            (Reservations.reserve_run tables request end_stamp start_stamp
              (λ _. pending_tables)
              (λ d. d)
              no_tables).1
            end_stamp.id)
        ≡ true)
unfolding owns Reservations.reserve_run find_if by_key Reservations.replay parse_status
orphan_test = (refl, refl)
