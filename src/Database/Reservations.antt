-- ===== src/Database/Reservations.antt =====
-- `reserve_run` of `SQLAlchemyRuntimeStore`. Other workers may commit while the transaction waits for
-- a lock, and before a race is resolved.
use dayu_water_agent.Prelude.{
  String, true, false, not, Option, none, some, ◌==◌, if◌then◌else◌, ◌⊎◌, inl, inr,
}
use dayu_water_agent.Errors.{Result, ok, err, failure}
use dayu_water_agent.Errors.Kinds.{idempotency_conflict}
use dayu_water_agent.Runtime.State.{AgentRun}
use dayu_water_agent.Database.Models.{AgentRunModel, run_record}
use dayu_water_agent.Database.Transactions.{
  Ending, done, conflicted, broken, raised, Tx, ◌>>=◌, ◌>>◌, pure, raise, execute, reading, close,
  unavailable, locked_session, idempotent_run, refuse_active, shown,
}
use dayu_water_agent.Json.{object, end_fields}
use dayu_water_agent.Memory.Store.{Stamp}
use dayu_water_agent.Memory.Sessions.{or_uuid}
use dayu_water_agent.Memory.Runs.{RunRequest, conflict_details}
use dayu_water_agent.Runtime.State.{RunReservation}
use dayu_water_agent.Database.Engine.{Database}
use dayu_water_agent.Database.Transcripts.{session_row}

abbrev pub run_row : RunRequest → String → Stamp → AgentRunModel
run_row q session_id stamp = record {
  id = stamp.id;
  request_id = q.request_id;
  trace_id = q.trace_id;
  session_id = session_id;
  idempotency_key = q.idempotency_key;
  request_hash = q.request_hash;
  status = "pending";
  provider = q.provider;
  model = q.model;
  attempt_count = 0;
  worker_instance_id = q.worker_instance_id;
  created_at = stamp.created_at;
  started_at = none;
  completed_at = none;
  usage_json = object end_fields;
  error_code = none;
  result_json = object end_fields;
  metadata_json = q.run_metadata;
}

module _ (D : Database) where
  open D use {Db, insert_session, insert_run, select_run_by_key, select_active_run}

  abbrev pub replayed : Result AgentRun → Ending RunReservation
  replayed (err e) = raised e
  replayed (ok run) = done (record { run = run; owns_execution = false })

  unfoldable pub idempotent_reservation : AgentRunModel → String → Tx Db RunReservation
  unfolding run_record
  idempotent_reservation model request_hash =
      if not (model.request_hash == request_hash)
      then raise (failure idempotency_conflict (conflict_details model.idempotency_key model.id))
      else λ d. (replayed (shown D model), d)

  -- The session of the run: a row that is inserted, or one that is locked.
  abbrev pub session_entered : RunRequest → String → Stamp → Option String → Tx Db (Unit {0})
  session_entered q session_id stamp none =
      execute (insert_session (session_row session_id q.user_id q.session_metadata stamp))
  session_entered q session_id stamp (some _) = locked_session D session_id >> pure tt

  unfoldable pub owning_session : RunRequest → String → Stamp → Tx Db (Unit {0})
  unfolding locked_session
  owning_session q session_id stamp = session_entered q session_id stamp q.session_id

  -- `others`: what other transactions commit while this one waits.
  abbrev pub waited : (Db → Db) → Tx Db (Unit {0})
  waited others d = (done tt, others d)

  -- The run that an earlier request made, or the row that this one inserts.
  unfoldable pub run_entered : RunRequest → String → Stamp → Tx Db (RunReservation ⊎ AgentRunModel)
  unfolding refuse_active
  run_entered q session_id stamp = do
    refuse_active D session_id
    let model = run_row q session_id stamp
    execute (insert_run model)
    pure (inr model)

  unfoldable pub replay : AgentRunModel → String → Tx Db (RunReservation ⊎ AgentRunModel)
  unfolding idempotent_reservation
  replay existing request_hash = do
    reservation ← idempotent_reservation existing request_hash
    pure (inl reservation)

  -- `if existing is not None: return ...`
  abbrev pub unless_known :
      String
      → Tx Db (RunReservation ⊎ AgentRunModel)
      → Option AgentRunModel
      → Tx Db (RunReservation ⊎ AgentRunModel)
  unless_known request_hash next none = next
  unless_known request_hash next (some existing) = replay existing request_hash

  unfoldable pub reserve_new :
      RunRequest → String → Stamp → Stamp → (Db → Db) → Tx Db (RunReservation ⊎ AgentRunModel)
  unfolding owning_session idempotent_run run_entered
  reserve_new q session_id session_stamp run_stamp others = do
    waited others
    owning_session q session_id session_stamp
    existing ← idempotent_run D q.idempotency_key
    unless_known q.request_hash (run_entered q session_id run_stamp) existing

  unfoldable pub reserving :
      RunRequest → String → Stamp → Stamp → (Db → Db) → Tx Db (RunReservation ⊎ AgentRunModel)
  unfolding idempotent_run reserve_new
  reserving q session_id session_stamp run_stamp others = do
    existing ← idempotent_run D q.idempotency_key
    unless_known q.request_hash (reserve_new q session_id session_stamp run_stamp others) existing

  abbrev pub race_resolved : RunRequest → String → Option AgentRunModel → Tx Db RunReservation
  race_resolved q session_id (some existing) = idempotent_reservation existing q.request_hash
  race_resolved q session_id none = refuse_active D session_id >> raise (unavailable "reserve_run")

  unfoldable pub resolve_reservation_race : RunRequest → String → Db → Result RunReservation × Db
  unfolding reading idempotent_run idempotent_reservation refuse_active
  resolve_reservation_race q session_id d =
      reading D "resolve_reservation_race"
        (idempotent_run D q.idempotency_key >>= race_resolved q session_id) d

  abbrev pub owned : Result AgentRun → Result RunReservation
  owned (err e) = err e
  owned (ok run) = ok (record { run = run; owns_execution = true })

  -- What follows the transaction; `later` is what other transactions commit before a race is resolved.
  abbrev pub reserved :
      RunRequest
      → String
      → (Db → Db)
      → Ending (RunReservation ⊎ AgentRunModel) × Db
      → Result RunReservation × Db
  reserved q session_id later (done (inl reservation), d) = (ok reservation, d)
  reserved q session_id later (done (inr model), d) = (owned (shown D model), d)
  reserved q session_id later (conflicted, d) = resolve_reservation_race q session_id (later d)
  reserved q session_id later (broken, d) = (err (unavailable "reserve_run"), d)
  reserved q session_id later (raised e, d) = (err e, d)

  unfoldable pub reserve_run :
      RunRequest → Stamp → Stamp → (Db → Db) → (Db → Db) → Db → Result RunReservation × Db
  unfolding reserving resolve_reservation_race run_record
  reserve_run q session_stamp run_stamp others later d =
      let session_id = or_uuid q.session_id session_stamp.id in
      reserved q session_id later (
        close D.commit D.rollback (reserving q session_id session_stamp run_stamp others d)
          (others d))
