-- ===== src/Memory/Lifecycle.antt =====
-- The methods of `InMemorySessionStore` that advance one run and its stream.
use dayu_water_agent.Prelude.{
  ℕ, ◌+◌, String, Bool, true, not, none, some, List, [], ◌∷◌, ◌++◌, ◌==◌, length, keep_if, ltb,
  if◌then◌else◌,
}
use dayu_water_agent.Json.{Json, string, Payload}
use dayu_water_agent.Errors.{failure}
use dayu_water_agent.Errors.Kinds.{cancellation_unavailable}
use dayu_water_agent.Runtime.Result.{AgentResult}
use dayu_water_agent.Runtime.Session.{AgentMessage, MessageRole, user, assistant}
use dayu_water_agent.Runtime.State.{
  RunStatus, running, completed, failed, cancelled, same_status, status_value, is_terminal,
  validate_run_transition, StreamEventType, run_started, response_completed, run_failed,
  run_cancelled, AgentRun, StreamEvent, newly_cancelled, already_cancelled, already_terminal,
  CancelResult,
}
use dayu_water_agent.Memory.Store.{
  Stamp, Exec, ◌>>=◌, ◌>>◌, pure, raise, lift, messages_at, events_at, put_session, put_messages,
  put_run, session_locked, run_locked, append_event_locked,
}
use dayu_water_agent.Memory.Sessions.{touched}

abbrev pub status_payload : RunStatus → Payload
status_payload status = ("status", string (status_value status)) ∷ []

unfoldable pub mark_run_running : String → String → Stamp → Exec AgentRun
unfolding run_locked append_event_locked validate_run_transition
mark_run_running run_id worker_instance_id stamp = do
  run ← run_locked run_id
  lift (validate_run_transition run.status running)
  let updated = record run {
    status = running;
    started_at = some stamp.now;
    worker_instance_id = worker_instance_id;
  }
  put_run run_id updated
  append_event_locked run_id run_started (status_payload running) stamp
  pure updated

unfoldable pub increment_run_attempt : String → Exec AgentRun
unfolding run_locked validate_run_transition same_status
increment_run_attempt run_id = do
  run ← run_locked run_id
  if same_status run.status running
      then pure tt
      else lift (validate_run_transition run.status running)
  let updated = record run { attempt_count = run.attempt_count + 1 }
  put_run run_id updated
  pure updated

unfoldable pub append_stream_event : String → StreamEventType → Payload → Stamp → Exec StreamEvent
unfolding run_locked append_event_locked
append_stream_event run_id type payload stamp = do
  run_locked run_id
  append_event_locked run_id type payload stamp

abbrev pub is_after : ℕ → StreamEvent → Bool
is_after cursor e = ltb cursor e.sequence

unfoldable pub list_stream_events : String → ℕ → Exec (List StreamEvent)
unfolding run_locked events_at
list_stream_events run_id after_sequence = do
  run_locked run_id
  events ← events_at run_id
  pure (keep_if (is_after after_sequence) events)

abbrev pub turn_message : AgentRun → MessageRole → String → ℕ → Payload → Stamp → AgentMessage
turn_message run role content sequence metadata stamp = record {
  id = stamp.id;
  session_id = some run.session_id;
  run_id = some run.id;
  role = role;
  content = content;
  sequence = sequence;
  committed = true;
  metadata = metadata;
  created_at = stamp.created_at;
}

-- The keyword arguments of `commit_run_success`; `dumped` is `result.model_dump(mode="json")`,
-- which the validation library computes.
pub record Turn : Type 0 where
  pub user_content : String
  pub user_metadata : Payload
  pub assistant_content : String
  pub assistant_metadata : Payload
  pub result : AgentResult
  pub dumped : Json

unfoldable pub commit_run_success : String → Turn → Stamp → Stamp → Stamp → Exec AgentRun
unfolding run_locked session_locked messages_at append_event_locked validate_run_transition
commit_run_success run_id turn user_stamp assistant_stamp stamp = do
  run ← run_locked run_id
  lift (validate_run_transition run.status completed)
  x ← session_locked run.session_id
  messages ← messages_at run.session_id
  let sequence = length messages + 1
  let asked = turn_message run user turn.user_content sequence turn.user_metadata user_stamp
  let answered =
      turn_message run assistant turn.assistant_content (sequence + 1) turn.assistant_metadata
        assistant_stamp
  put_messages run.session_id (messages ++ (asked ∷ answered ∷ []))
  put_session run.session_id (touched x stamp.now)
  let updated = record run {
    status = completed;
    completed_at = some stamp.now;
    usage = turn.result.usage;
    result = some turn.dumped;
    error_code = none;
  }
  put_run run_id updated
  append_event_locked run_id response_completed (("result", turn.dumped) ∷ []) stamp
  pure updated

unfoldable pub fail_active : String → String → Stamp → AgentRun → Exec AgentRun
unfolding append_event_locked validate_run_transition
fail_active run_id error_code stamp run = do
  lift (validate_run_transition run.status failed)
  let updated = record run {
    status = failed;
    completed_at = some stamp.now;
    error_code = some error_code;
  }
  put_run run_id updated
  append_event_locked run_id run_failed
      (("status", string (status_value failed)) ∷ ("error_code", string error_code) ∷ []) stamp
  pure updated

unfoldable pub fail_run : String → String → Stamp → Exec AgentRun
unfolding run_locked is_terminal fail_active
fail_run run_id error_code stamp = do
  run ← run_locked run_id
  if is_terminal run.status then pure run else fail_active run_id error_code stamp run

unfoldable pub cancel_active : String → Stamp → AgentRun → Exec CancelResult
unfolding append_event_locked validate_run_transition
cancel_active run_id stamp run = do
  lift (validate_run_transition run.status cancelled)
  let updated = record run { status = cancelled; completed_at = some stamp.now }
  put_run run_id updated
  append_event_locked run_id run_cancelled (status_payload cancelled) stamp
  pure (record { run = updated; disposition = newly_cancelled })

unfoldable pub cancel_run : String → String → Stamp → Exec CancelResult
unfolding run_locked same_status is_terminal cancel_active
cancel_run run_id worker_instance_id stamp = do
  run ← run_locked run_id
  if same_status run.status cancelled
      then pure (record { run = run; disposition = already_cancelled })
      else if is_terminal run.status
      then pure (record { run = run; disposition = already_terminal })
      else if not (run.worker_instance_id == worker_instance_id)
      then raise (
          failure cancellation_unavailable (
            ("run_id", string run.id) ∷ ("worker_instance_id", string run.worker_instance_id) ∷ []))
      else cancel_active run_id stamp run
