-- ===== src/Memory/Invariant/Writes.antt =====
-- The writes that methods are made of keep the store valid.
use dayu_water_agent.Prelude.{
  ℕ, ◌+◌, String, ◌≡◌, true, some, List, [], ◌∷◌, ◌++◌, arith, eq_iff, length,
}
use dayu_water_agent.Dict.{get, put, contains}
use dayu_water_agent.Dict.Laws.{get-put, get-put-keeps, put-Distinct}
use dayu_water_agent.Runtime.Session.{AgentMessage, SessionRecord}
use dayu_water_agent.Runtime.State.{is_active, AgentRun, StreamEvent}
use dayu_water_agent.Memory.Store.{MemoryStore}
use dayu_water_agent.Memory.Cases.{rewritten}
use dayu_water_agent.Memory.Invariant.{FieldsOf, Transcript, StreamOf, IsValid}

-- `r'` may replace `r`: it is the same reservation, and was not brought back to life.
pub record Succeeds (r r' : AgentRun) : Type 0 where
  pub id : r'.id ≡ r.id
  pub session : r'.session_id ≡ r.session_id
  pub key : r'.idempotency_key ≡ r.idempotency_key
  pub active : is_active r'.status ≡ true → is_active r.status ≡ true
  pub fields : FieldsOf r'.status r'

pub rewritten-IsValid :
    (s : MemoryStore) (id : String) (r r' : AgentRun)
    → IsValid s
    → get s.runs id ≡ some r
    → Succeeds r r'
    → IsValid (rewritten s id r')
rewritten-IsValid s id r r' v e c = record {
  distinct_runs = put-Distinct s.runs id r' v.distinct_runs;
  distinct_events = v.distinct_events;
  session_key = v.session_key;
  run_key =
      λ k x h. ground (arith, get-put s.runs id k r', eq_iff id k, v.run_key k x, v.run_key id r e);
  has_messages = v.has_messages;
  has_events = λ k. ground (arith, get-put s.runs id k r', eq_iff id k, v.has_events k);
  has_session = λ k x h.
      ground (arith, get-put s.runs id k r', eq_iff id k, v.has_session k x, v.has_session id r e);
  single_active = λ j k a b ha hb aa ab es. ground (
    arith,
    get-put s.runs id j r',
    get-put s.runs id k r',
    eq_iff id k,
    eq_iff id j,
    v.single_active j k a b,
    v.single_active id k r b,
    v.single_active j id a r,
  );
  idempotent = λ key k h.
      let (x, hx, kx) = v.idempotent key k h in
      get-put-keeps (λ y. y.idempotency_key ≡ some key) s.runs id k r' x hx kx
        (λ hr. ground (arith, c.key));
  fields = λ k x h. ground (arith, get-put s.runs id k r', eq_iff id k, v.fields k x);
  transcripts = v.transcripts;
  streams = v.streams;
}

pub events-IsValid :
    (s : MemoryStore) (id : String) (es : List StreamEvent)
    → IsValid s
    → contains s.runs id ≡ true
    → StreamOf id es
    → IsValid (record s { events = put s.events id es })
events-IsValid s id es v known own = record {
  distinct_runs = v.distinct_runs;
  distinct_events = put-Distinct s.events id es v.distinct_events;
  session_key = v.session_key;
  run_key = v.run_key;
  has_messages = v.has_messages;
  has_events = λ k. ground (arith, get-put s.events id k es, eq_iff id k, v.has_events k);
  has_session = v.has_session;
  single_active = v.single_active;
  idempotent = v.idempotent;
  fields = v.fields;
  transcripts = v.transcripts;
  streams = λ k fs h. ground (arith, get-put s.events id k es, eq_iff id k, v.streams k fs);
}

pub messages-IsValid :
    (s : MemoryStore) (id : String) (ms : List AgentMessage)
    → IsValid s
    → Transcript id 1 ms
    → IsValid (record s { messages = put s.messages id ms })
messages-IsValid s id ms v t = record {
  distinct_runs = v.distinct_runs;
  distinct_events = v.distinct_events;
  session_key = v.session_key;
  run_key = v.run_key;
  has_messages = λ k. ground (arith, get-put s.messages id k ms, eq_iff id k, v.has_messages k);
  has_events = v.has_events;
  has_session = v.has_session;
  single_active = v.single_active;
  idempotent = v.idempotent;
  fields = v.fields;
  transcripts =
      λ k fs h. ground (arith, get-put s.messages id k ms, eq_iff id k, v.transcripts k fs);
  streams = v.streams;
}

-- A session record may be written where its transcript stands already.
pub session-IsValid :
    (s : MemoryStore) (id : String) (x : SessionRecord)
    → IsValid s
    → x.id ≡ id
    → contains s.messages id ≡ true
    → IsValid (record s { sessions = put s.sessions id x })
session-IsValid s id x v key has = record {
  distinct_runs = v.distinct_runs;
  distinct_events = v.distinct_events;
  session_key = λ k y h. ground (arith, get-put s.sessions id k x, eq_iff id k, v.session_key k y);
  run_key = v.run_key;
  has_messages = λ k h. ground (arith, get-put s.sessions id k x, eq_iff id k, v.has_messages k);
  has_events = v.has_events;
  has_session = λ k r h. ground (arith, get-put s.sessions id r.session_id x, v.has_session k r);
  single_active = v.single_active;
  idempotent = v.idempotent;
  fields = v.fields;
  transcripts = v.transcripts;
  streams = v.streams;
}

-- Messages numbered from `k` may follow, where `k` is the next free number.
pub Transcript-append :
    (id : String) (n k : ℕ) (ms new : List AgentMessage)
    → n + length ms ≡ k
    → Transcript id n ms
    → Transcript id k new
    → Transcript id n (ms ++ new)
Transcript-append id n k [] new e t u = let same : n ≡ k = omega arith in rw same u
Transcript-append id n k (x ∷ ms) new e t u =
    (t.0, t.1, t.2, Transcript-append id (n + 1) k ms new (omega arith) t.3 u)

pub StreamOf-append :
    (id : String) (es : List StreamEvent) (e : StreamEvent)
    → StreamOf id es
    → e.run_id ≡ id
    → StreamOf id (es ++ e ∷ [])
StreamOf-append id [] e t u = (u, tt)
StreamOf-append id (x ∷ es) e t u = (t.0, StreamOf-append id es e t.1 u)
