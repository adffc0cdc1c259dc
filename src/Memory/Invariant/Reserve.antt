-- ===== src/Memory/Invariant/Reserve.antt =====
-- The session methods and `reserve_run` keep the store valid, where a drawn uuid is fresh.
use dayu_water_agent.Prelude.{
  ℕ, ◌+◌, String, ◌≡◌, refl, true, Option, some, none, List, [], arith, length, inl, inr,
  Bool-cases, eq_iff, eq_refl, ◌==◌,
}
use dayu_water_agent.Dict.{get, put, contains}
use dayu_water_agent.Dict.Laws.{get-put, get-put-keeps, put-Distinct, contains-put_self}
use dayu_water_agent.Dict.Values.{first-none}
use dayu_water_agent.Json.{Payload}
use dayu_water_agent.Runtime.Session.{MessageRole, SessionRecord, AgentMessage}
use dayu_water_agent.Runtime.State.{is_active, AgentRun}
use dayu_water_agent.Memory.Store.{MemoryStore, Stamp, active_run_locked, is_active_in}
use dayu_water_agent.Memory.Sessions.{create_session, append_message, clear_session}
use dayu_water_agent.Memory.Runs.{RunRequest, new_run, enter_run, reserve_run}
use dayu_water_agent.Memory.Entries.{
  with_session, bound, rewritten_session, create_session_cases, append_message_cases,
  clear_session_cases, enter_run_cases, reserve_new_cases, reserve_run_cases,
}
use dayu_water_agent.Memory.Invariant.{IsValid, Transcript}
use dayu_water_agent.Memory.Invariant.Writes.{messages-IsValid, session-IsValid, Transcript-append}

module _ (s : MemoryStore) (v : IsValid s) where
  pub with_session-IsValid : (x : SessionRecord) → IsValid (with_session s x)
  with_session-IsValid x =
      session-IsValid _ x.id x (messages-IsValid s x.id [] v tt) refl
        (contains-put_self s.messages x.id [])

  pub rewritten_session-IsValid :
      (id : String) (x : SessionRecord) (ms : List AgentMessage) (now : ℕ)
      → get s.sessions id ≡ some x
      → Transcript id 1 ms
      → IsValid (rewritten_session s id x ms now)
  rewritten_session-IsValid id x ms now e t =
      session-IsValid _ id _ (messages-IsValid s id ms v t) (v.session_key id x e)
        (contains-put_self s.messages id ms)

  pub create_session-IsValid :
      (metadata : Option Payload) (session_id user_id : Option String) (stamp : Stamp)
      → IsValid (create_session metadata session_id user_id stamp s).1
  create_session-IsValid metadata session_id user_id stamp =
      create_session_cases IsValid s v metadata session_id user_id stamp
        λ x e. with_session-IsValid x

  pub append_message-IsValid :
      (id : String) (role : MessageRole) (content : String) (metadata : Option Payload)
      (stamp : Stamp)
      → IsValid (append_message id role content metadata stamp s).1
  append_message-IsValid id role content metadata stamp =
      append_message_cases IsValid s v id role content metadata stamp λ x ms e f a.
        rewritten_session-IsValid id x _ stamp.now e (
          Transcript-append id 1 (length ms + 1) ms _ (omega arith) (v.transcripts id ms f)
            (refl, refl, refl, tt))

  pub clear_session-IsValid : (id : String) (now : ℕ) → IsValid (clear_session id now s).1
  clear_session-IsValid id now =
      clear_session_cases IsValid s v id now
        λ x ms e f a. rewritten_session-IsValid id x [] now e tt

  -- No run that a key reads is active in a session that shows no active run.
  pub no_active :
      (id k : String) (r : AgentRun)
      → active_run_locked id s ≡ none
      → get s.runs k ≡ some r
      → is_active r.status ≡ true
      → r.session_id ≡ id
      → ⊥
  unfolding active_run_locked
  no_active id k r n e a same =
      ground (arith, first-none (is_active_in id) s.runs k r n e, eq_iff r.session_id id)

  -- The run before its key is bound.
  entered-IsValid :
      (q : RunRequest) (x : SessionRecord) (stamp : Stamp)
      → get s.runs stamp.id ≡ none
      → contains s.sessions x.id ≡ true
      → active_run_locked x.id s ≡ none
      → IsValid (record s {
        runs = put s.runs stamp.id (new_run q x.id stamp);
        events = put s.events stamp.id [];
      })
  entered-IsValid q x stamp fresh known free =
      let r = new_run q x.id stamp in
      let id = stamp.id in
      record {
        distinct_runs = put-Distinct s.runs id r v.distinct_runs;
        distinct_events = put-Distinct s.events id [] v.distinct_events;
        session_key = v.session_key;
        run_key = λ k y h. ground (arith, get-put s.runs id k r, eq_iff id k, v.run_key k y);
        has_messages = v.has_messages;
        has_events =
            λ k. ground (arith, get-put s.runs id k r, get-put s.events id k [], v.has_events k);
        has_session = λ k y h. ground (arith, get-put s.runs id k r, v.has_session k y);
        single_active = λ j k a b ha hb aa ab es. ground (
          arith,
          get-put s.runs id j r,
          get-put s.runs id k r,
          eq_iff id k,
          eq_iff id j,
          v.single_active j k a b,
          no_active x.id k b free,
          no_active x.id j a free,
        );
        idempotent = λ key k h.
            let (y, hy, ky) = v.idempotent key k h in
            get-put-keeps (λ z. z.idempotency_key ≡ some key) s.runs id k r y hy ky
              (λ e. absurd (ground (arith, fresh, e)));
        fields = λ k y h. ground (arith, get-put s.runs id k r, v.fields k y);
        transcripts = v.transcripts;
        streams = λ k es h. ground (arith, get-put s.events id k [], v.streams k es);
      }

pub bound-IsValid :
    (s : MemoryStore) (v : IsValid s) (key : Option String) (id : String) (r : AgentRun)
    → get s.runs id ≡ some r
    → r.idempotency_key ≡ key
    → IsValid (bound s key id)
bound-IsValid s v none id r e b = v
bound-IsValid s v (some key) id r e b = record {
  distinct_runs = v.distinct_runs;
  distinct_events = v.distinct_events;
  session_key = v.session_key;
  run_key = v.run_key;
  has_messages = v.has_messages;
  has_events = v.has_events;
  has_session = v.has_session;
  single_active = v.single_active;
  idempotent = λ other k h. elim (Bool-cases (key == other)) [
    | inl same ↦
        let at : id ≡ k = ground (arith, get-put s.idempotency key other id) in
        (r, rw at at e, ground (arith, eq_iff key other))
    | inr differ ↦ v.idempotent other k (ground (arith, get-put s.idempotency key other id))
  ];
  fields = v.fields;
  transcripts = v.transcripts;
  streams = v.streams;
}

pub enter_run-IsValid :
    (s : MemoryStore) (v : IsValid s) (q : RunRequest) (stamp : Stamp) (x : SessionRecord)
    → get s.runs stamp.id ≡ none
    → contains s.sessions x.id ≡ true
    → IsValid (enter_run q stamp x s).1
enter_run-IsValid s v q stamp x fresh known = enter_run_cases IsValid s v q stamp x λ free.
    bound-IsValid _ (entered-IsValid s v q x stamp fresh known free) q.idempotency_key stamp.id
      (new_run q x.id stamp)
      (ground (arith, get-put s.runs stamp.id stamp.id (new_run q x.id stamp), eq_refl stamp.id))
      refl

pub reserve_run-IsValid :
    (s : MemoryStore) (v : IsValid s) (q : RunRequest) (session_stamp run_stamp : Stamp)
    → get s.runs run_stamp.id ≡ none
    → IsValid (reserve_run q session_stamp run_stamp s).1
reserve_run-IsValid s v q session_stamp run_stamp fresh =
    reserve_run_cases IsValid s q session_stamp run_stamp v λ _.
      reserve_new_cases IsValid s q session_stamp run_stamp v
        (λ x _.
          enter_run-IsValid _ (with_session-IsValid s v x) q run_stamp x fresh
            (contains-put_self s.sessions x.id x))
        (λ k x e.
          enter_run-IsValid s v q run_stamp x fresh (ground (arith, v.session_key k x e, e)))
