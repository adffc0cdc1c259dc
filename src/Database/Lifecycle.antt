-- ===== src/Database/Lifecycle.antt =====
-- The methods of `SQLAlchemyRuntimeStore` that read and advance one run. A loaded row is written back
-- before the next statement, as the session's autoflush does.
use dayu_water_agent.Prelude.{
  ℕ, ◌+◌, String, true, not, none, some, List, [], ◌∷◌, ◌==◌, if◌then◌else◌,
}
use dayu_water_agent.Json.{string, Payload}
use dayu_water_agent.Errors.{Result, ok, err, failure}
use dayu_water_agent.Errors.Kinds.{cancellation_unavailable}
use dayu_water_agent.Runtime.State.{
  CancelDisposition, RunStatus, running, completed, failed, cancelled, same_status, status_value,
  is_terminal, validate_run_transition, StreamEventType, run_started, response_completed,
  run_failed, run_cancelled, AgentRun, StreamEvent, newly_cancelled, already_cancelled,
  already_terminal, CancelResult,
}
use dayu_water_agent.Memory.Store.{Stamp}
use dayu_water_agent.Memory.Lifecycle.{status_payload, Turn}
use dayu_water_agent.Database.Models.{
  AgentRunModel, AgentMessageModel, AgentStreamEventModel, event_record, role_value,
}
use dayu_water_agent.Database.Engine.{Database}
use dayu_water_agent.Database.Transactions.{
  Tx, ◌>>=◌, ◌>>◌, pure, raise, lift, query, execute, method, reading, locked_session, locked_run,
  next_message_sequence, append_event, shown, returned, status_of, converted,
}

module _ (D : Database) where
  open D use {
    Db, select_run, update_run, update_session, insert_message, select_events_after, dump_usage,
  }

  unfoldable pub get_run : String → Db → Result AgentRun × Db
  unfolding reading locked_run
  get_run run_id d = returned D (shown D) (reading D "get_run" (locked_run D run_id) d)

  unfoldable pub marked : String → String → Stamp → Tx Db AgentRunModel
  unfolding locked_run append_event
  marked run_id worker_instance_id stamp = do
    model ← locked_run D run_id
    status ← lift (status_of model)
    lift (validate_run_transition status running)
    let updated = record model {
      status = status_value running;
      started_at = some stamp.now;
      worker_instance_id = worker_instance_id;
    }
    execute (update_run updated)
    append_event D updated run_started (status_payload running) stamp
    pure updated

  unfoldable pub mark_run_running : String → String → Stamp → Db → Result AgentRun × Db
  unfolding method marked
  mark_run_running run_id worker stamp d =
      returned D (shown D) (method D "mark_run_running" (marked run_id worker stamp) d)

  unfoldable pub attempted : String → Tx Db AgentRunModel
  unfolding locked_run
  attempted run_id = do
    model ← locked_run D run_id
    status ← lift (status_of model)
    if same_status status running then pure tt else lift (validate_run_transition status running)
    let updated = record model { attempt_count = model.attempt_count + 1 }
    execute (update_run updated)
    pure updated

  unfoldable pub increment_run_attempt : String → Db → Result AgentRun × Db
  unfolding method attempted
  increment_run_attempt run_id d =
      returned D (shown D) (method D "increment_run_attempt" (attempted run_id) d)

  unfoldable pub appended : String → StreamEventType → Payload → Stamp → Tx Db AgentStreamEventModel
  unfolding locked_run append_event
  appended run_id type payload stamp = do
    run ← locked_run D run_id
    append_event D run type payload stamp

  unfoldable pub append_stream_event :
      String → StreamEventType → Payload → Stamp → Db → Result StreamEvent × Db
  unfolding method appended
  append_stream_event run_id type payload stamp d =
      returned D event_record
        (method D "append_stream_event" (appended run_id type payload stamp) d)

  unfoldable pub list_stream_events : String → ℕ → Db → Result (List StreamEvent) × Db
  unfolding reading locked_run converted
  list_stream_events run_id after_sequence d = returned D (converted event_record) (
      reading D "list_stream_events"
        (locked_run D run_id >> query (select_events_after run_id after_sequence)) d)

  abbrev pub turn_row : AgentRunModel → String → String → ℕ → Payload → Stamp → AgentMessageModel
  turn_row run role content sequence metadata stamp = record {
    id = stamp.id;
    session_id = run.session_id;
    run_id = some run.id;
    role = role;
    content = content;
    sequence = sequence;
    committed = true;
    metadata_json = metadata;
    created_at = stamp.created_at;
  }

  unfoldable pub committed : String → Turn → Stamp → Stamp → Stamp → Tx Db AgentRunModel
  unfolding locked_run locked_session next_message_sequence append_event role_value
  committed run_id turn user_stamp assistant_stamp stamp = do
    run ← locked_run D run_id
    status ← lift (status_of run)
    lift (validate_run_transition status completed)
    x ← locked_session D run.session_id
    sequence ← next_message_sequence D run.session_id
    execute (
        insert_message
          (turn_row run "user" turn.user_content sequence turn.user_metadata user_stamp))
    execute (
        insert_message (
          turn_row run "assistant" turn.assistant_content (sequence + 1) turn.assistant_metadata
            assistant_stamp))
    execute (update_session (record x { version = x.version + 1; updated_at = stamp.now }))
    let updated = record run {
      status = status_value completed;
      completed_at = some stamp.now;
      usage_json = dump_usage turn.result.usage;
      result_json = turn.dumped;
      error_code = none;
    }
    execute (update_run updated)
    append_event D updated response_completed (("result", turn.dumped) ∷ []) stamp
    pure updated

  unfoldable pub commit_run_success :
      String → Turn → Stamp → Stamp → Stamp → Db → Result AgentRun × Db
  unfolding method committed
  commit_run_success run_id turn user_stamp assistant_stamp stamp d =
      returned D (shown D)
        (method D "commit_run_success" (committed run_id turn user_stamp assistant_stamp stamp) d)

  abbrev pub failed_row : AgentRunModel → String → Stamp → AgentRunModel
  failed_row run error_code stamp = record run {
    status = status_value failed;
    completed_at = some stamp.now;
    error_code = some error_code;
  }

  unfoldable pub fail_active : String → Stamp → AgentRunModel → RunStatus → Tx Db AgentRunModel
  unfolding append_event
  fail_active error_code stamp run status = do
    lift (validate_run_transition status failed)
    execute (update_run (failed_row run error_code stamp))
    append_event D (failed_row run error_code stamp) run_failed
        (("status", string (status_value failed)) ∷ ("error_code", string error_code) ∷ []) stamp
    pure (failed_row run error_code stamp)

  -- A row that the transaction reads is shown in it.
  unfoldable pub failing : String → String → Stamp → Tx Db AgentRunModel
  unfolding locked_run fail_active
  failing run_id error_code stamp = do
    run ← locked_run D run_id
    status ← lift (status_of run)
    if is_terminal status
        then lift (shown D run) >> pure run
        else fail_active error_code stamp run status

  unfoldable pub fail_run : String → String → Stamp → Db → Result AgentRun × Db
  unfolding method failing
  fail_run run_id error_code stamp d =
      returned D (shown D) (method D "fail_run" (failing run_id error_code stamp) d)

  abbrev pub cancelled_row : AgentRunModel → Stamp → AgentRunModel
  cancelled_row run stamp = record run {
    status = status_value cancelled;
    completed_at = some stamp.now;
  }

  unfoldable pub cancel_active :
      Stamp → AgentRunModel → RunStatus → Tx Db (CancelDisposition × AgentRunModel)
  unfolding append_event
  cancel_active stamp run status = do
    lift (validate_run_transition status cancelled)
    execute (update_run (cancelled_row run stamp))
    append_event D (cancelled_row run stamp) run_cancelled (status_payload cancelled) stamp
    pure (newly_cancelled, cancelled_row run stamp)

  unfoldable pub cancelling : String → String → Stamp → Tx Db (CancelDisposition × AgentRunModel)
  unfolding locked_run cancel_active
  cancelling run_id worker_instance_id stamp = do
    run ← locked_run D run_id
    status ← lift (status_of run)
    if same_status status cancelled
        then lift (shown D run) >> pure (already_cancelled, run)
        else if is_terminal status
        then lift (shown D run) >> pure (already_terminal, run)
        else if not (run.worker_instance_id == worker_instance_id)
        then raise (
            failure cancellation_unavailable (
              ("run_id", string run.id)
              ∷ ("worker_instance_id", string run.worker_instance_id)
              ∷ []))
        else cancel_active stamp run status

  abbrev pub outcome : CancelDisposition → Result AgentRun → Result CancelResult
  outcome disposition (err e) = err e
  outcome disposition (ok run) = ok (record { run = run; disposition = disposition })

  abbrev pub cancel_outcome : CancelDisposition × AgentRunModel → Result CancelResult
  cancel_outcome (disposition, run) = outcome disposition (shown D run)

  unfoldable pub cancel_run : String → String → Stamp → Db → Result CancelResult × Db
  unfolding method cancelling
  cancel_run run_id worker stamp d =
      returned D cancel_outcome (method D "cancel_run" (cancelling run_id worker stamp) d)
