-- ===== src/Memory/Store.antt =====
-- The state of `InMemorySessionStore`, its private helpers, and how its methods run.
-- A method holds the store's lock from its first read to its last write, so a call is one step.
-- Copies that a method hands out are values, which nothing can write through.
use dayu_water_agent.Prelude.{
  ℕ, ◌+◌, String, Bool, true, ◌&&◌, Option, none, some, List, [], ◌∷◌, ◌++◌, ◌==◌, length, first_if,
}
use dayu_water_agent.Dict.{Dict, get, put, values}
use dayu_water_agent.Json.{string, Payload}
use dayu_water_agent.Errors.{Failure, key_error, Result, ok, err, failure}
use dayu_water_agent.Errors.Kinds.{session_not_found, session_busy, run_not_found}
use dayu_water_agent.Runtime.Session.{AgentMessage, SessionRecord}
use dayu_water_agent.Runtime.State.{AgentRun, StreamEvent, StreamEventType, is_active}

pub record MemoryStore : Type 0 where
  pub sessions : Dict SessionRecord
  pub messages : Dict (List AgentMessage)
  pub runs : Dict AgentRun
  pub events : Dict (List StreamEvent)
  pub idempotency : Dict String
  pub ready : Bool

-- InMemorySessionStore()
abbrev pub empty : MemoryStore
empty = record {
  sessions = [];
  messages = [];
  runs = [];
  events = [];
  idempotency = [];
  ready = true;
}

-- What the default factories of one new object draw, `uuid4` and `utc_now`, and the time that the
-- method itself reads.
pub record Stamp : Type 0 where
  pub id : String
  pub created_at : ℕ
  pub now : ℕ

-- A method that may raise. What it wrote before a raise stays written.
abbrev pub Exec {ℓ} : Type ℓ → Type ℓ
Exec A = MemoryStore → Result A × MemoryStore

abbrev pub continue {ℓ κ} :
    {A : Type ℓ} {B : Type κ}
    → Result A
    → (A → MemoryStore → Result B × MemoryStore)
    → MemoryStore
    → Result B × MemoryStore
continue (ok a) f s = f a s
continue (err e) f s = (err e, s)

infixl 5 ◌>>=◌ ◌>>◌
abbrev pub ◌>>=◌ {ℓ κ} : {A : Type ℓ} {B : Type κ} → Exec A → (A → Exec B) → Exec B
◌>>=◌ m f s = continue (m s).0 f (m s).1

abbrev pub ◌>>◌ {ℓ κ} : {A : Type ℓ} {B : Type κ} → Exec A → Exec B → Exec B
m >> n = m >>= λ _. n

abbrev pub pure {ℓ} : {A : Type ℓ} → A → Exec A
pure a s = (ok a, s)

abbrev pub raise {ℓ} : {A : Type ℓ} → Failure → Exec A
raise e s = (err e, s)

abbrev pub lift {ℓ} : {A : Type ℓ} → Result A → Exec A
lift r s = (r, s)

-- `d[k]` of a dictionary of the store
abbrev pub found {ℓ} : {A : Type ℓ} → Failure → Option A → Result A
found e none = err e
found e (some a) = ok a

unfoldable pub messages_at : String → Exec (List AgentMessage)
messages_at id s = (found (key_error id) (get s.messages id), s)

unfoldable pub events_at : String → Exec (List StreamEvent)
events_at id s = (found (key_error id) (get s.events id), s)

unfoldable pub run_at : String → Exec AgentRun
run_at id s = (found (key_error id) (get s.runs id), s)

abbrev pub put_session : String → SessionRecord → Exec (Unit {0})
put_session id x s = (ok tt, record s { sessions = put s.sessions id x })

abbrev pub put_messages : String → List AgentMessage → Exec (Unit {0})
put_messages id ms s = (ok tt, record s { messages = put s.messages id ms })

abbrev pub put_run : String → AgentRun → Exec (Unit {0})
put_run id r s = (ok tt, record s { runs = put s.runs id r })

abbrev pub put_events : String → List StreamEvent → Exec (Unit {0})
put_events id es s = (ok tt, record s { events = put s.events id es })

abbrev pub put_idempotency : String → String → Exec (Unit {0})
put_idempotency key id s = (ok tt, record s { idempotency = put s.idempotency key id })

abbrev pub session_details : String → Payload
session_details id = ("session_id", string id) ∷ []

abbrev pub run_details : String → Payload
run_details id = ("run_id", string id) ∷ []

unfoldable pub session_locked : String → Exec SessionRecord
session_locked id s =
    (found (failure session_not_found (session_details id)) (get s.sessions id), s)

unfoldable pub run_locked : String → Exec AgentRun
run_locked id s = (found (failure run_not_found (run_details id)) (get s.runs id), s)

abbrev pub is_active_in : String → AgentRun → Bool
is_active_in session_id run = run.session_id == session_id && is_active run.status

unfoldable pub active_run_locked : String → MemoryStore → Option AgentRun
active_run_locked session_id s = first_if (is_active_in session_id) (values s.runs)

abbrev pub busy : String → Option AgentRun → Result (Unit {0})
busy session_id none = ok tt
busy session_id (some active) =
    err
      (failure session_busy (("session_id", string session_id) ∷ ("run_id", string active.id) ∷ []))

-- `if active is not None: raise SessionBusyError(...)`
unfoldable pub refuse_active : String → Exec (Unit {0})
unfolding active_run_locked
refuse_active session_id s = (busy session_id (active_run_locked session_id s), s)

unfoldable pub new_event : String → StreamEventType → Payload → Stamp → ℕ → StreamEvent
new_event run_id type payload stamp sequence = record {
  id = stamp.id;
  run_id = run_id;
  sequence = sequence;
  type = type;
  created_at = stamp.created_at;
  payload = payload;
}

unfoldable pub append_event_locked : String → StreamEventType → Payload → Stamp → Exec StreamEvent
unfolding events_at new_event
append_event_locked run_id type payload stamp = do
  events ← events_at run_id
  let event = new_event run_id type payload stamp (length events + 1)
  put_events run_id (events ++ event ∷ [])
  pure event
