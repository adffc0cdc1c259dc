-- ===== src/Database/Sweeps.antt =====
-- The methods of `SQLAlchemyRuntimeStore` that walk over many rows, and its probes.
use dayu_water_agent.Prelude.{ℕ, String, Bool, true, false, some, List, [], ◌∷◌, length}
use dayu_water_agent.Errors.{Result, ok, err}
use dayu_water_agent.Runtime.State.{validate_run_transition, interrupted, run_interrupted}
use dayu_water_agent.Database.Models.{AgentRunModel}
use dayu_water_agent.Database.Transactions.{
  done, conflicted, broken, Tx, ◌>>=◌, ◌>>◌, pure, lift, query, execute, method, unavailable,
  append_event, status_of,
}
use dayu_water_agent.Memory.Store.{Stamp}
use dayu_water_agent.Memory.Lifecycle.{status_payload}
use dayu_water_agent.Runtime.State.{status_value}
use dayu_water_agent.Database.Engine.{Database, Answer, rows, integrity_error, database_error}

module _ (D : Database) where
  open D use {Db, select_active_runs, update_run, delete_expired_events}

  abbrev pub interrupted_row : AgentRunModel → Stamp → AgentRunModel
  interrupted_row run stamp = record run {
    status = status_value interrupted;
    completed_at = some stamp.now;
  }

  -- One round of the loop.
  unfoldable pub interrupt_row : AgentRunModel → Stamp → Tx Db (Unit {0})
  unfolding append_event
  interrupt_row run stamp = do
    status ← lift (status_of run)
    lift (validate_run_transition status interrupted)
    execute (update_run (interrupted_row run stamp))
    append_event D (interrupted_row run stamp) run_interrupted (status_payload interrupted) stamp
    pure tt

  unfoldable pub interrupt_rows : (String → Stamp) → List AgentRunModel → Tx Db (Unit {0})
  unfolding interrupt_row
  interrupt_rows draw [] = pure tt
  interrupt_rows draw (run ∷ runs) = interrupt_row run (draw run.id) >> interrupt_rows draw runs

  -- `select_active_runs` leaves out the rows that other transactions hold locked.
  unfoldable pub interrupting : Bool → String → (String → Stamp) → Tx Db ℕ
  unfolding interrupt_rows
  interrupting same_worker worker_instance_id draw = do
    runs ← query (select_active_runs same_worker worker_instance_id)
    interrupt_rows draw runs
    pure (length runs)

  unfoldable pub interrupt_matching : Bool → String → (String → Stamp) → Db → Result ℕ × Db
  unfolding method interrupting
  interrupt_matching same_worker worker_instance_id draw d =
      method D "interrupt_runs" (interrupting same_worker worker_instance_id draw) d

  unfoldable pub interrupt_worker_runs : String → (String → Stamp) → Db → Result ℕ × Db
  unfolding interrupt_matching
  interrupt_worker_runs worker_instance_id = interrupt_matching true worker_instance_id

  unfoldable pub reconcile_orphaned_runs : String → (String → Stamp) → Db → Result ℕ × Db
  unfolding interrupt_matching
  reconcile_orphaned_runs worker_instance_id = interrupt_matching false worker_instance_id

  -- A statement that writes, with the number of its rows.
  abbrev pub counted : Answer (ℕ × Db) → Tx Db ℕ
  counted (rows (n, d')) d = (done n, d')
  counted integrity_error d = (conflicted, d)
  counted database_error d = (broken, d)

  unfoldable pub prune_stream_events : ℕ → Db → Result ℕ × Db
  unfolding method
  prune_stream_events before d =
      method D "prune_stream_events" (λ d'. counted (delete_expired_events before d') d') d

  -- `ping` and `initialize` send one statement, whose answer is the argument.
  unfoldable pub ping : Answer (Unit {0}) → Bool
  ping (rows _) = true
  ping _ = false

  unfoldable pub initialize : Answer (Unit {0}) → Result (Unit {0})
  initialize (rows _) = ok tt
  initialize _ = err (unavailable "initialize")
