-- ===== src/Memory/Cases.antt =====
-- What each method leaves in the store: the store as it was, or one written state.
use dayu_water_agent.Prelude.{
  ℕ, ◌+◌, ◌==◌, Option-cases, inl, inr, String, ◌≡◌, true, none, some, List, [], ◌∷◌, ◌++◌, arith,
  length,
}
use dayu_water_agent.Dict.{get, put}
use dayu_water_agent.Json.{string, Payload}
use dayu_water_agent.Runtime.Session.{AgentMessage, SessionRecord, user, assistant}
use dayu_water_agent.Runtime.State.{
  pending, running, completed, failed, cancelled, interrupted, is_active, status_value,
  response_completed, run_failed, run_cancelled, run_interrupted, AgentRun, StreamEvent,
  StreamEventType, run_started,
}
use dayu_water_agent.Memory.Store.{MemoryStore, Stamp, new_event}
use dayu_water_agent.Memory.Sessions.{touched}
use dayu_water_agent.Memory.Lifecycle.{
  mark_run_running, status_payload, increment_run_attempt, append_stream_event, Turn, turn_message,
  commit_run_success, fail_run, cancel_run,
}
use dayu_water_agent.Memory.Maintenance.{interrupt_locked, interrupted_run}

abbrev pub HasEvents : MemoryStore → Type 0
HasEvents s =
    (k : String) (r : AgentRun)
    → get s.runs k ≡ some r
    → (es : List StreamEvent) × (get s.events k ≡ some es)

-- The run `id` is replaced, and an event closes its stream.
abbrev pub advanced :
    MemoryStore
    → String
    → AgentRun
    → List StreamEvent
    → StreamEventType
    → Payload
    → Stamp
    → MemoryStore
advanced s id r es type payload stamp = record s {
  runs = put s.runs id r;
  events = put s.events id (es ++ new_event id type payload stamp (length es + 1) ∷ []);
}

-- The run `id` is replaced.
abbrev pub rewritten : MemoryStore → String → AgentRun → MemoryStore
rewritten s id r = record s { runs = put s.runs id r }

abbrev pub logged : MemoryStore → String → List StreamEvent → StreamEvent → MemoryStore
logged s id es e = record s { events = put s.events id (es ++ e ∷ []) }

abbrev pub started : AgentRun → String → Stamp → AgentRun
started r worker stamp = record r {
  status = running;
  started_at = some stamp.now;
  worker_instance_id = worker;
}

abbrev pub finished : AgentRun → Turn → Stamp → AgentRun
finished r turn stamp = record r {
  status = completed;
  completed_at = some stamp.now;
  usage = turn.result.usage;
  result = some turn.dumped;
  error_code = none;
}

abbrev pub failed_with : AgentRun → String → Stamp → AgentRun
failed_with r error_code stamp = record r {
  status = failed;
  completed_at = some stamp.now;
  error_code = some error_code;
}

abbrev pub cancelled_run : AgentRun → Stamp → AgentRun
cancelled_run r stamp = record r { status = cancelled; completed_at = some stamp.now }

-- The transcript of the run's session gets the turn's two messages.
abbrev pub with_turn :
    MemoryStore
    → AgentRun
    → SessionRecord
    → List AgentMessage
    → Turn
    → Stamp
    → Stamp
    → ℕ
    → MemoryStore
with_turn s r x ms turn user_stamp assistant_stamp now = record s {
  messages = put s.messages r.session_id (ms ++ (asked ∷ answered ∷ []));
  sessions = put s.sessions r.session_id (touched x now);
}
  where
    asked : AgentMessage
    asked = turn_message r user turn.user_content (length ms + 1) turn.user_metadata user_stamp

    answered : AgentMessage
    answered =
        turn_message r assistant turn.assistant_content (length ms + 1 + 1) turn.assistant_metadata
          assistant_stamp

module _ {ℓ} (P : MemoryStore → Type ℓ) (s : MemoryStore) (has : HasEvents s) (kept : P s) where
  pub mark_run_running_cases :
      (id worker : String) (stamp : Stamp)
      → ((r : AgentRun) (es : List StreamEvent)
          → get s.runs id ≡ some r
          → get s.events id ≡ some es
          → r.status ≡ pending
          → P (
              advanced s id (started r worker stamp) es run_started (status_payload running) stamp))
      → P (mark_run_running id worker stamp s).1
  unfolding mark_run_running
  mark_run_running_cases id worker stamp written = elim (Option-cases (get s.runs id)) [
    | inl e ↦ ground arith
    | inr (r, e) ↦ let (es, h) = has id r e in ground (arith, written r es e h)
  ]

  pub increment_run_attempt_cases :
      (id : String)
      → ((r : AgentRun)
          → get s.runs id ≡ some r
          → is_active r.status ≡ true
          → P (rewritten s id (record r { attempt_count = r.attempt_count + 1 })))
      → P (increment_run_attempt id s).1
  unfolding increment_run_attempt is_active
  increment_run_attempt_cases id written = elim (Option-cases (get s.runs id)) [
    | inl e ↦ ground arith
    | inr (r, e) ↦ ground (arith, written r e)
  ]

  pub append_stream_event_cases :
      (id : String) (type : StreamEventType) (payload : Payload) (stamp : Stamp)
      → ((r : AgentRun) (es : List StreamEvent)
          → get s.runs id ≡ some r
          → get s.events id ≡ some es
          → P (logged s id es (new_event id type payload stamp (length es + 1))))
      → P (append_stream_event id type payload stamp s).1
  unfolding append_stream_event
  append_stream_event_cases id type payload stamp written = elim (Option-cases (get s.runs id)) [
    | inl e ↦ ground arith
    | inr (r, e) ↦ let (es, h) = has id r e in ground (arith, written r es e h)
  ]

  pub commit_run_success_cases :
      (id : String) (turn : Turn) (user_stamp assistant_stamp stamp : Stamp)
      → ((r : AgentRun) (es : List StreamEvent) (x : SessionRecord) (ms : List AgentMessage)
          → get s.runs id ≡ some r
          → get s.events id ≡ some es
          → get s.sessions r.session_id ≡ some x
          → get s.messages r.session_id ≡ some ms
          → r.status ≡ running
          → P (
              advanced
                (with_turn s r x ms turn user_stamp assistant_stamp stamp.now)
                id
                (finished r turn stamp)
                es
                response_completed
                (("result", turn.dumped) ∷ [])
                stamp))
      → P (commit_run_success id turn user_stamp assistant_stamp stamp s).1
  unfolding commit_run_success
  commit_run_success_cases id turn user_stamp assistant_stamp stamp written =
      elim (Option-cases (get s.runs id)) [
        | inl e ↦ ground arith
        | inr (r, e) ↦
            let (es, h) = has id r e in
            elim (Option-cases (get s.sessions r.session_id)) [
              | inl f ↦ ground arith
              | inr (x, f) ↦ elim (Option-cases (get s.messages r.session_id)) [
                | inl g ↦ ground arith
                | inr (ms, g) ↦ ground (arith, written r es x ms e h f g)
              ]
            ]
      ]

  pub fail_run_cases :
      (id error_code : String) (stamp : Stamp)
      → ((r : AgentRun) (es : List StreamEvent)
          → get s.runs id ≡ some r
          → get s.events id ≡ some es
          → is_active r.status ≡ true
          → P (
              advanced s id
                (failed_with r error_code stamp)
                es
                run_failed
                (("status", string "failed") ∷ ("error_code", string error_code) ∷ [])
                stamp))
      → P (fail_run id error_code stamp s).1
  unfolding fail_run is_active status_value
  fail_run_cases id error_code stamp written = elim (Option-cases (get s.runs id)) [
    | inl e ↦ ground arith
    | inr (r, e) ↦ let (es, h) = has id r e in ground (arith, written r es e h)
  ]

  pub cancel_run_cases :
      (id worker : String) (stamp : Stamp)
      → ((r : AgentRun) (es : List StreamEvent)
          → get s.runs id ≡ some r
          → get s.events id ≡ some es
          → is_active r.status ≡ true
          → (r.worker_instance_id == worker) ≡ true
          → P (
              advanced s id
                (cancelled_run r stamp)
                es
                run_cancelled
                (status_payload cancelled)
                stamp))
      → P (cancel_run id worker stamp s).1
  unfolding cancel_run is_active
  cancel_run_cases id worker stamp written = elim (Option-cases (get s.runs id)) [
    | inl e ↦ ground arith
    | inr (r, e) ↦ let (es, h) = has id r e in ground (arith, written r es e h)
  ]

  pub interrupt_locked_cases :
      (run : AgentRun) (stamp : Stamp)
      → get s.runs run.id ≡ some run
      → is_active run.status ≡ true
      → ((es : List StreamEvent)
          → get s.events run.id ≡ some es
          → P (
              advanced s run.id
                (interrupted_run run stamp)
                es
                run_interrupted
                (status_payload interrupted)
                stamp))
      → P (interrupt_locked run stamp s).1
  unfolding interrupt_locked is_active
  interrupt_locked_cases run stamp e active written =
      let (es, h) = has run.id run e in ground (arith, written es h)
