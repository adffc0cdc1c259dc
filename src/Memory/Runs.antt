-- ===== src/Memory/Runs.antt =====
-- Reservation of runs in `InMemorySessionStore`.
use dayu_water_agent.Prelude.{
  String, true, false, not, Option, none, some, [], ◌∷◌, ◌==◌, if◌then◌else◌,
}
use dayu_water_agent.Dict.{get}
use dayu_water_agent.Json.{string, Payload}
use dayu_water_agent.Errors.{failure}
use dayu_water_agent.Errors.Kinds.{idempotency_conflict}
use dayu_water_agent.Runtime.Result.{no_usage}
use dayu_water_agent.Runtime.Session.{SessionRecord}
use dayu_water_agent.Runtime.State.{pending, AgentRun, RunReservation}
use dayu_water_agent.Memory.Store.{
  MemoryStore, Stamp, Exec, ◌>>=◌, ◌>>◌, pure, raise, run_at, put_run, put_events, put_idempotency,
  session_locked, run_locked, refuse_active,
}
use dayu_water_agent.Memory.Sessions.{new_session, add_session}

-- The keyword arguments of `reserve_run`.
pub record RunRequest : Type 0 where
  pub session_id : Option String
  pub session_metadata : Payload
  pub user_id : Option String
  pub idempotency_key : Option String
  pub request_hash : String
  pub request_id : String
  pub trace_id : String
  pub provider : String
  pub model : String
  pub worker_instance_id : String
  pub run_metadata : Payload

-- AgentRun(...), its other fields by default
abbrev pub new_run : RunRequest → String → Stamp → AgentRun
new_run q session_id stamp = record {
  id = stamp.id;
  request_id = q.request_id;
  trace_id = q.trace_id;
  session_id = session_id;
  idempotency_key = q.idempotency_key;
  request_hash = q.request_hash;
  status = pending;
  provider = q.provider;
  model = q.model;
  attempt_count = 0;
  worker_instance_id = q.worker_instance_id;
  created_at = stamp.created_at;
  started_at = none;
  completed_at = none;
  usage = no_usage;
  error_code = none;
  result = none;
  metadata = q.run_metadata;
}

-- `idempotency_key is not None and idempotency_key in self._idempotency`
unfoldable pub known_key : Option String → MemoryStore → Option String
known_key none s = none
known_key (some key) s = get s.idempotency key

abbrev pub conflict_details : Option String → String → Payload
conflict_details none run_id = ("run_id", string run_id) ∷ []
conflict_details (some key) run_id =
    ("idempotency_key", string key) ∷ ("run_id", string run_id) ∷ []

unfoldable pub replay : RunRequest → AgentRun → Exec RunReservation
replay q existing =
    if not (existing.request_hash == q.request_hash)
    then raise (failure idempotency_conflict (conflict_details q.idempotency_key existing.id))
    else pure (record { run = existing; owns_execution = false })

-- The session that the run belongs to: a new one, or the one that is named.
unfoldable pub owning_session : RunRequest → Stamp → Exec SessionRecord
unfolding session_locked
owning_session q stamp = elim q.session_id [
  | none ↦
      let x = new_session stamp.id q.user_id q.session_metadata stamp in do add_session x; pure x
  | some id ↦ session_locked id
]

unfoldable pub bind_key : Option String → String → Exec (Unit {0})
bind_key none run_id = pure tt
bind_key (some key) run_id = put_idempotency key run_id

unfoldable pub enter_run : RunRequest → Stamp → SessionRecord → Exec RunReservation
unfolding refuse_active bind_key
enter_run q stamp x = do
  refuse_active x.id
  let run = new_run q x.id stamp
  put_run run.id run
  put_events run.id []
  bind_key q.idempotency_key run.id
  pure (record { run = run; owns_execution = true })

unfoldable pub reserve_new : RunRequest → Stamp → Stamp → Exec RunReservation
unfolding owning_session enter_run
reserve_new q session_stamp run_stamp = owning_session q session_stamp >>= enter_run q run_stamp

unfoldable pub reserve_run : RunRequest → Stamp → Stamp → Exec RunReservation
unfolding known_key replay run_at reserve_new
reserve_run q session_stamp run_stamp s = elim (known_key q.idempotency_key s) [
  | some run_id ↦ (run_at run_id >>= replay q) s
  | none ↦ reserve_new q session_stamp run_stamp s
]

unfoldable pub get_run : String → Exec AgentRun
get_run = run_locked
