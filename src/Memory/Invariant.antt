-- ===== src/Memory/Invariant.antt =====
-- What every reachable `InMemorySessionStore` satisfies.
pub mod Writes
pub mod Reserve
pub mod Steps
use dayu_water_agent.Prelude.{ℕ, ◌+◌, String, ◌≡◌, true, Option, none, some, List, [], ◌∷◌, is_some}
use dayu_water_agent.Dict.{get, contains}
use dayu_water_agent.Dict.Laws.{Distinct}
use dayu_water_agent.Runtime.Session.{AgentMessage, SessionRecord}
use dayu_water_agent.Runtime.State.{
  RunStatus, pending, running, completed, failed, cancelled, interrupted, is_active, AgentRun,
  StreamEvent,
}
use dayu_water_agent.Memory.Store.{MemoryStore}

-- The fields of a run that its status determines.
abbrev pub FieldsOf : RunStatus → AgentRun → Type 0
FieldsOf pending r =
    (r.started_at ≡ none) × (r.completed_at ≡ none) × (r.result ≡ none) × (r.error_code ≡ none)
FieldsOf running r =
    (is_some r.started_at ≡ true)
    × (r.completed_at ≡ none)
    × (r.result ≡ none)
    × (r.error_code ≡ none)
FieldsOf completed r =
    (is_some r.started_at ≡ true)
    × (is_some r.completed_at ≡ true)
    × (is_some r.result ≡ true)
    × (r.error_code ≡ none)
FieldsOf failed r =
    (is_some r.completed_at ≡ true) × (r.result ≡ none) × (is_some r.error_code ≡ true)
FieldsOf cancelled r = (is_some r.completed_at ≡ true) × (r.result ≡ none) × (r.error_code ≡ none)
FieldsOf interrupted r = (is_some r.completed_at ≡ true) × (r.result ≡ none) × (r.error_code ≡ none)

-- Messages of session `id`, numbered from `n` without a gap.
abbrev pub Transcript : String → ℕ → List AgentMessage → Type 0
Transcript id n [] = Unit
Transcript id n (m ∷ ms) =
    (m.sequence ≡ n) × (m.session_id ≡ some id) × (m.committed ≡ true) × Transcript id (n + 1) ms

-- Events of run `id`.
abbrev pub StreamOf : String → List StreamEvent → Type 0
StreamOf id [] = Unit
StreamOf id (e ∷ es) = (e.run_id ≡ id) × StreamOf id es

pub record IsValid (s : MemoryStore) : Type 0 where
  pub distinct_runs : Distinct s.runs
  pub distinct_events : Distinct s.events
  pub session_key : (k : String) (x : SessionRecord) → get s.sessions k ≡ some x → x.id ≡ k
  pub run_key : (k : String) (r : AgentRun) → get s.runs k ≡ some r → r.id ≡ k
  pub has_messages : (k : String) → contains s.sessions k ≡ true → contains s.messages k ≡ true
  pub has_events : (k : String) → contains s.runs k ≡ contains s.events k
  pub has_session :
      (k : String) (r : AgentRun) → get s.runs k ≡ some r → contains s.sessions r.session_id ≡ true
  -- One session has at most one pending or running run.
  pub single_active :
      (j k : String) (a b : AgentRun)
      → get s.runs j ≡ some a
      → get s.runs k ≡ some b
      → is_active a.status ≡ true
      → is_active b.status ≡ true
      → a.session_id ≡ b.session_id
      → j ≡ k
  -- An idempotency key names a run that was reserved under it.
  pub idempotent :
      (key k : String)
      → get s.idempotency key ≡ some k
      → (r : AgentRun) × (get s.runs k ≡ some r) × (r.idempotency_key ≡ some key)
  pub fields : (k : String) (r : AgentRun) → get s.runs k ≡ some r → FieldsOf r.status r
  pub transcripts :
      (k : String) (ms : List AgentMessage) → get s.messages k ≡ some ms → Transcript k 1 ms
  pub streams : (k : String) (es : List StreamEvent) → get s.events k ≡ some es → StreamOf k es
