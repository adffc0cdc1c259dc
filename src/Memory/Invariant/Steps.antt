-- ===== src/Memory/Invariant/Steps.antt =====
-- The methods that advance a run keep the store valid, whether they return or raise.
use dayu_water_agent.Prelude.{
  ◌+◌, String, ◌≡◌, refl, true, some, List, arith, length, inl, inr, Option-cases,
}
use dayu_water_agent.Dict.{get}
use dayu_water_agent.Dict.Laws.{contains-put_self}
use dayu_water_agent.Json.{Payload}
use dayu_water_agent.Runtime.State.{is_active, AgentRun, StreamEvent, StreamEventType}
use dayu_water_agent.Memory.Store.{MemoryStore, Stamp, new_event}
use dayu_water_agent.Memory.Lifecycle.{
  mark_run_running, increment_run_attempt, append_stream_event, Turn, commit_run_success, fail_run,
  cancel_run,
}
use dayu_water_agent.Memory.Maintenance.{interrupt_locked}
use dayu_water_agent.Memory.Cases.{
  HasEvents, advanced, mark_run_running_cases, increment_run_attempt_cases,
  append_stream_event_cases, commit_run_success_cases, fail_run_cases, cancel_run_cases,
  interrupt_locked_cases,
}
use dayu_water_agent.Memory.Invariant.{IsValid}
use dayu_water_agent.Memory.Invariant.Writes.{
  Succeeds, rewritten-IsValid, events-IsValid, messages-IsValid, session-IsValid, Transcript-append,
  StreamOf-append,
}

pub IsValid-HasEvents : (s : MemoryStore) → IsValid s → HasEvents s
IsValid-HasEvents s v k r e = elim (Option-cases (get s.events k)) [
  | inl f ↦ absurd (ground (arith, v.has_events k))
  | inr h ↦ h
]

pub advanced-IsValid :
    (s : MemoryStore) (id : String) (r r' : AgentRun) (es : List StreamEvent)
    (type : StreamEventType) (payload : Payload) (stamp : Stamp)
    → IsValid s
    → get s.runs id ≡ some r
    → get s.events id ≡ some es
    → Succeeds r r'
    → IsValid (advanced s id r' es type payload stamp)
unfolding new_event
advanced-IsValid s id r r' es type payload stamp v e h c =
    rewritten-IsValid _ id r r'
      (events-IsValid s id _ v (ground arith) (StreamOf-append id es _ (v.streams id es h) refl)) e
      c

module _ (s : MemoryStore) (v : IsValid s) where
  pub mark_run_running-IsValid :
      (id worker : String) (stamp : Stamp) → IsValid (mark_run_running id worker stamp s).1
  mark_run_running-IsValid id worker stamp =
      mark_run_running_cases IsValid s (IsValid-HasEvents s v) v id worker stamp λ r es e h p.
        advanced-IsValid s id r _ es _ _ stamp v e h (record {
          id = refl;
          session = refl;
          key = refl;
          active = λ _. unfold is_active in ground arith;
          fields = ground (arith, v.fields id r e);
        })

  pub increment_run_attempt-IsValid : (id : String) → IsValid (increment_run_attempt id s).1
  increment_run_attempt-IsValid id =
      increment_run_attempt_cases IsValid s (IsValid-HasEvents s v) v id λ r e a.
        rewritten-IsValid s id r _ v e (record {
          id = refl;
          session = refl;
          key = refl;
          active = λ x. x;
          fields = ground (arith, v.fields id r e);
        })

  pub append_stream_event-IsValid :
      (id : String) (type : StreamEventType) (payload : Payload) (stamp : Stamp)
      → IsValid (append_stream_event id type payload stamp s).1
  unfolding new_event
  append_stream_event-IsValid id type payload stamp =
      append_stream_event_cases IsValid s (IsValid-HasEvents s v) v id type payload stamp
        λ r es e h.
          events-IsValid s id _ v (ground arith) (StreamOf-append id es _ (v.streams id es h) refl)

  pub fail_run-IsValid :
      (id error_code : String) (stamp : Stamp) → IsValid (fail_run id error_code stamp s).1
  fail_run-IsValid id error_code stamp =
      fail_run_cases IsValid s (IsValid-HasEvents s v) v id error_code stamp λ r es e h a.
        advanced-IsValid s id r _ es _ _ stamp v e h (record {
          id = refl;
          session = refl;
          key = refl;
          active = λ _. a;
          fields = unfold is_active in ground (arith, v.fields id r e);
        })

  pub cancel_run-IsValid :
      (id worker : String) (stamp : Stamp) → IsValid (cancel_run id worker stamp s).1
  cancel_run-IsValid id worker stamp =
      cancel_run_cases IsValid s (IsValid-HasEvents s v) v id worker stamp λ r es e h a w.
        advanced-IsValid s id r _ es _ _ stamp v e h (record {
          id = refl;
          session = refl;
          key = refl;
          active = λ _. a;
          fields = unfold is_active in ground (arith, v.fields id r e);
        })

  pub interrupt_locked-IsValid :
      (run : AgentRun) (stamp : Stamp)
      → get s.runs run.id ≡ some run
      → is_active run.status ≡ true
      → IsValid (interrupt_locked run stamp s).1
  interrupt_locked-IsValid run stamp e a =
      interrupt_locked_cases IsValid s (IsValid-HasEvents s v) v run stamp e a λ es h.
        advanced-IsValid s run.id run _ es _ _ stamp v e h (record {
          id = refl;
          session = refl;
          key = refl;
          active = λ _. a;
          fields = unfold is_active in ground (arith, v.fields run.id run e);
        })

  pub commit_run_success-IsValid :
      (id : String) (turn : Turn) (user_stamp assistant_stamp stamp : Stamp)
      → IsValid (commit_run_success id turn user_stamp assistant_stamp stamp s).1
  commit_run_success-IsValid id turn user_stamp assistant_stamp stamp =
      commit_run_success_cases IsValid s (IsValid-HasEvents s v) v id turn user_stamp
        assistant_stamp stamp
        λ r es x ms e h f g p.
          advanced-IsValid _ id r _ es _ _ stamp
            (session-IsValid _ r.session_id _
              (messages-IsValid s r.session_id _ v (
                Transcript-append r.session_id 1 (length ms + 1) ms _ (omega arith)
                  (v.transcripts r.session_id ms g) (refl, refl, refl, (refl, refl, refl, tt))))
              (v.session_key r.session_id x f) (contains-put_self s.messages r.session_id _))
            e h
            (record {
              id = refl;
              session = refl;
              key = refl;
              active = λ _. unfold is_active in ground arith;
              fields = ground (arith, v.fields id r e);
            })
