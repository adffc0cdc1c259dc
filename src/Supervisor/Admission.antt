-- ===== src/Supervisor/Admission.antt =====
-- What `_start` of the supervisor does, by its result.
use Prim.Native.Char.{Char}
use dayu_water_agent.Prelude.{
  String, ◌≡◌, refl, ap, Bool, true, false, not, Option, none, some, [], ◌∷◌, inl, inr, ◌⊎◌, ◌+◌,
  ◌==◌, Bool-cases, eq_iff, if◌then◌else◌,
}
use dayu_water_agent.Dict.{get, put}
use dayu_water_agent.Json.{boolean, string, object, end_fields, field}
use dayu_water_agent.Errors.{Result, ok, err}
use dayu_water_agent.Guardrails.{check}
use dayu_water_agent.Metrics.{RuntimeMetrics, run_started}
use dayu_water_agent.Runtime.Result.{no_usage}
use dayu_water_agent.Runtime.Session.{SessionRecord}
use dayu_water_agent.Runtime.State.{pending, AgentRun, RunReservation}
use dayu_water_agent.Memory.Store.{MemoryStore, active_run_locked}
use dayu_water_agent.Memory.Runs.{reserve_run}
use dayu_water_agent.Memory.Sessions.{or_empty, or_uuid}
use dayu_water_agent.Memory.Entries.{with_run}
use dayu_water_agent.Memory.Invariant.{IsValid}
use dayu_water_agent.Supervisor.Agent.{Host, Phase, Task, SupervisorAgent}
use dayu_water_agent.Supervisor.Requests.{
  StartRequest, Draws, strip, text_or_null, fields_of, reservation_request, started, admitted,
  unavailable, start, new_task, request_hash, provisional,
}
use dayu_water_agent.Supervisor.Granted.{Answered, IsReplay, InSession, reserve_run-Answered}

-- The text that was given, unless it is missing or empty.
pub given_or : Option String → String → String
given_or none drawn = drawn
given_or (some String.[]) drawn = drawn
given_or (some (String.◌∷◌ c s)) drawn = String.◌∷◌ c s

has_letters : String → Bool
has_letters String.[] = false
has_letters (String.◌∷◌ c s) = true

cons_not_nil : (c : Char) (s : String) → String.◌∷◌ c s ≡ "" → ⊥
unfolding has_letters
cons_not_nil c s e = let same : true ≡ false = ap has_letters e in cc

given_or_lem : (given : Option String) (drawn : String) → or_uuid given drawn ≡ given_or given drawn
unfolding given_or
given_or_lem none drawn = refl
given_or_lem (some String.[]) drawn = refl
given_or_lem (some (String.◌∷◌ c s)) drawn = elim (Bool-cases (String.◌∷◌ c s == "")) [
  | inl y ↦ absurd (cons_not_nil c s ((eq_iff (String.◌∷◌ c s) "").0 y))
  | inr n ↦ rw n refl
]

-- The hash of a request: that of its message, stripped, its metadata, session and user.
abbrev pub hash_of : Host → StartRequest → String
hash_of h q = h.digest (
    object (
      field "message" (string (strip q.message)) (
        field "metadata" (object (fields_of (or_empty q.metadata))) (
          field "session_id" (text_or_null q.session_id)
            (field "user_id" (text_or_null q.user_id) end_fields)))))

-- The run that a request is granted in a session.
abbrev pub granted_run : Host → StartRequest → Draws → String → AgentRun
granted_run h q d session_id = record {
  id = d.run_stamp.id;
  request_id = given_or q.request_id d.request_id;
  trace_id = d.trace_id;
  session_id = session_id;
  idempotency_key = q.idempotency_key;
  request_hash = hash_of h q;
  status = pending;
  provider = h.settings.provider_name;
  model = h.settings.model_name;
  attempt_count = 0;
  worker_instance_id = h.worker_instance_id;
  created_at = d.run_stamp.created_at;
  started_at = none;
  completed_at = none;
  usage = no_usage;
  error_code = none;
  result = none;
  metadata = ("streaming", boolean q.streaming) ∷ [];
}

-- The session of a request that names none.
abbrev pub granted_session : StartRequest → Draws → SessionRecord
granted_session q d = record {
  id = d.session_stamp.id;
  user_id = q.user_id;
  status = "open";
  metadata = or_empty q.metadata;
  version = 1;
  created_at = d.session_stamp.created_at;
  updated_at = d.session_stamp.now;
}

-- The task that will execute the run: scheduled, and not asked to cancel.
abbrev pub granted_task : Host → StartRequest → Draws → String → Task
granted_task h q d session_id = record {
  context = record {
    request_id = given_or q.request_id d.request_id;
    run_id = some d.run_stamp.id;
    trace_id = d.trace_id;
    session_id = session_id;
    user_id = q.user_id;
    agent_name = h.settings.name;
    metadata = or_empty q.metadata;
    created_at = d.created_at;
  };
  user_content = strip q.message;
  user_metadata = or_empty q.metadata;
  streaming = q.streaming;
  phase = Phase.scheduled;
  cancelling = false;
}

-- One more run was counted, in total and as active.
abbrev pub counted_run : RuntimeMetrics → RuntimeMetrics
counted_run m = record m {
  agent_runs_total = m.agent_runs_total + 1;
  active_runs = m.active_runs + 1;
}

-- The stored run under the request's key, entered for an equal request, and nothing changed.
abbrev pub IsReplayed : Host → StartRequest → AgentRun → SupervisorAgent → SupervisorAgent → Type 0
IsReplayed h q run a b = (b ≡ a) × IsReplay a.session_store q.idempotency_key (hash_of h q) run

-- The run was entered as pending with no events, under its key, in a session that had no active run:
-- a new one, or the stored one that the request names. It has a task and was counted.
abbrev pub IsGranted :
    Host → StartRequest → Draws → AgentRun → SupervisorAgent → SupervisorAgent → Type 0
IsGranted h q d run a b =
    (x : SessionRecord) × (s : MemoryStore) × InSession a.session_store q.session_id
      (granted_session q d) x s
    × (active_run_locked x.id a.session_store ≡ none)
    × (run ≡ granted_run h q d x.id)
    × (b ≡ record a {
      session_store = with_run s (granted_run h q d x.id);
      tasks = put a.tasks d.run_stamp.id (granted_task h q d x.id);
      metrics = counted_run a.metrics;
    })

abbrev pub Started :
    Host → StartRequest → Draws → SupervisorAgent → Result AgentRun × SupervisorAgent → Type 0
Started h q d a (err f, b) = b ≡ a
Started h q d a (ok run, b) =
    (a.accepting ≡ true)
    × (check h.input_guardrails (strip q.message) ≡ ok tt)
    × (IsReplayed h q run a b ⊎ IsGranted h q d run a b)

same_agent :
    (a : SupervisorAgent) (t : MemoryStore)
    → t ≡ a.session_store
    → ◌≡◌ {A = SupervisorAgent} (record a { session_store = t }) a
same_agent a t e = ap {B = SupervisorAgent} (λ s. record a { session_store = s }) e

module _ (h : Host) (q : StartRequest) (d : Draws) (a : SupervisorAgent) where
  -- The agent after a grant, with the id that the run is given.
  abbrev scheduled : SessionRecord → MemoryStore → String → SupervisorAgent
  scheduled x s id = record a {
    session_store = with_run s (record (granted_run h q d x.id) { request_id = id });
    tasks = put a.tasks d.run_stamp.id (record (granted_task h q d x.id) {
      context = record (granted_task h q d x.id).context { request_id = id };
    });
    metrics = counted_run a.metrics;
  }

  granted-Started :
      (x : SessionRecord) (s : MemoryStore) (id : String)
      → id ≡ given_or q.request_id d.request_id
      → a.accepting ≡ true
      → check h.input_guardrails (strip q.message) ≡ ok tt
      → InSession a.session_store q.session_id (granted_session q d) x s
      → active_run_locked x.id a.session_store ≡ none
      → Started h q d a (ok (record (granted_run h q d x.id) { request_id = id }), scheduled x s id)
  granted-Started x s id e accepts pass place idle = (
    accepts,
    pass,
    inr (
      x,
      s,
      place,
      idle,
      ap {B = AgentRun} (λ i. record (granted_run h q d x.id) { request_id = i }) e,
      ap (scheduled x s) e,
    ),
  )

  started-Started :
      (out : Result RunReservation × MemoryStore)
      → a.accepting ≡ true
      → check h.input_guardrails (strip q.message) ≡ ok tt
      → Answered a.session_store (reservation_request h q d) d.session_stamp d.run_stamp out
      → Started h q d a (started h q d a out)
  unfolding reservation_request provisional request_hash new_task run_started
  started-Started (err f, s) accepts pass same = same_agent a s same
  started-Started (ok res, s) accepts pass (inl (owns, same, found)) =
      rw owns (accepts, pass, inl (same_agent a s same, found))
  started-Started (ok res, t) accepts pass (inr (owns, x, s, place, idle, run, store)) = rw owns (
      rw run (
        rw store (
          granted-Started x s (or_uuid q.request_id d.request_id)
            (given_or_lem q.request_id d.request_id) accepts pass place idle)))

  admitted-Started :
      (checked : Result (Unit {0}))
      → IsValid a.session_store
      → get a.session_store.sessions d.session_stamp.id ≡ none
      → a.accepting ≡ true
      → check h.input_guardrails (strip q.message) ≡ checked
      → Started h q d a (admitted h q d a checked)
  admitted-Started (err f) v fresh accepts pass = refl
  admitted-Started (ok _) v fresh accepts pass =
      let q' = reservation_request h q d in
      started-Started (reserve_run q' d.session_stamp d.run_stamp a.session_store) accepts pass
        (reserve_run-Answered a.session_store q' d.session_stamp d.run_stamp v fresh)

  gate-Started :
      (accepting : Bool)
      → IsValid a.session_store
      → get a.session_store.sessions d.session_stamp.id ≡ none
      → a.accepting ≡ accepting
      → Started h q d a (
          if not accepting
          then (err unavailable, a)
          else admitted h q d a (check h.input_guardrails (strip q.message)))
  gate-Started true v fresh accepts =
      admitted-Started (check h.input_guardrails (strip q.message)) v fresh accepts refl
  gate-Started false v fresh closed = refl

  -- Over a valid store, where the uuid drawn for a new session names no session yet: a request that
  -- raises leaves the whole supervisor as it was, its store, tasks, metrics and flag included. A
  -- request is answered with a run only when the supervisor takes requests and every input guardrail
  -- passes the stripped message. Then either the run is the stored one under the request's key, which
  -- was entered with the hash of this request, and the whole supervisor is as before; or the run is a
  -- pending one of this worker for this request, in a session that had no active run, which is a new
  -- one or the stored one that is named, and the supervisor is as before but for that session, the
  -- run with no events, its key, one scheduled task for it, and one more run counted.
  pub start-Started :
      IsValid a.session_store
      → get a.session_store.sessions d.session_stamp.id ≡ none
      → Started h q d a (start h q d a)
  unfolding start
  start-Started v fresh = gate-Started a.accepting v fresh refl
