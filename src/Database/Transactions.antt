-- ===== src/Database/Transactions.antt =====
-- Transactions of src/dayu_agent/database/store.py: `async with self._sessions.begin()` and the
-- `except` clauses around it, and the helpers that run inside of one. A row that is locked cannot be
-- changed by another transaction, so a transaction on one run or session is one step.
use dayu_water_agent.Prelude.{ℕ, ◌+◌, String, Option, none, some, List, [], ◌∷◌}
use dayu_water_agent.Json.{string, Payload}
use dayu_water_agent.Errors.{Failure, other_exception, Result, ok, err, failure}
use dayu_water_agent.Errors.Kinds.{
  database_unavailable, session_not_found, run_not_found, session_busy,
}
use dayu_water_agent.Runtime.State.{StreamEventType, RunStatus, AgentRun}
use dayu_water_agent.Memory.Store.{Stamp, session_details, run_details}
use dayu_water_agent.Database.Models.{
  AgentSessionModel, AgentRunModel, AgentStreamEventModel, event_type_value, parse_status,
  run_record,
}
use dayu_water_agent.Database.Engine.{Answer, rows, integrity_error, database_error, Database}

-- How the body of a transaction ends.
pub data Ending {ℓ} (A : Type ℓ) : Type ℓ where
  done : A → Ending A
  conflicted : Ending A
  broken : Ending A
  raised : Failure → Ending A

-- `_database_error`
abbrev pub unavailable : String → Failure
unavailable operation = failure database_unavailable (("operation", string operation) ∷ [])

-- `except DayuAgentError: raise`, `except SQLAlchemyError`, which covers `IntegrityError`, and any
-- other exception, which passes.
unfoldable pub translated {ℓ} : {A : Type ℓ} → String → Ending A → Result A
translated operation (done a) = ok a
translated operation conflicted = err (unavailable operation)
translated operation broken = err (unavailable operation)
translated operation (raised f) = err f

-- The body of a transaction. What it wrote before a raise is still there, for the roll-back to drop.
abbrev pub Tx {ℓ} : Type 0 → Type ℓ → Type ℓ
Tx S A = S → Ending A × S

abbrev pub continue {ℓ κ} :
    {S : Type 0} {A : Type ℓ} {B : Type κ} → Ending A → (A → Tx S B) → Tx S B
continue (done a) f d = f a d
continue conflicted f d = (conflicted, d)
continue broken f d = (broken, d)
continue (raised e) f d = (raised e, d)

infixl 5 ◌>>=◌ ◌>>◌
abbrev pub ◌>>=◌ {ℓ κ} : {S : Type 0} {A : Type ℓ} {B : Type κ} → Tx S A → (A → Tx S B) → Tx S B
◌>>=◌ m f d = continue (m d).0 f (m d).1

abbrev pub ◌>>◌ {ℓ κ} : {S : Type 0} {A : Type ℓ} {B : Type κ} → Tx S A → Tx S B → Tx S B
m >> n = m >>= λ _. n

abbrev pub pure {ℓ} : {S : Type 0} {A : Type ℓ} → A → Tx S A
pure a d = (done a, d)

abbrev pub raise {ℓ} : {S : Type 0} {A : Type ℓ} → Failure → Tx S A
raise e d = (raised e, d)

abbrev pub lifted {ℓ} : {A : Type ℓ} → Result A → Ending A
lifted (ok a) = done a
lifted (err e) = raised e

abbrev pub lift {ℓ} : {S : Type 0} {A : Type ℓ} → Result A → Tx S A
lift r d = (lifted r, d)

abbrev pub answered {ℓ} : {S : Type 0} {A : Type ℓ} → Answer A → Tx S A
answered (rows a) d = (done a, d)
answered integrity_error d = (conflicted, d)
answered database_error d = (broken, d)

-- A statement that reads.
abbrev pub query {ℓ} : {S : Type 0} {A : Type ℓ} → (S → Answer A) → Tx S A
query statement d = answered (statement d) d

abbrev pub written : {S : Type 0} → Answer S → Tx S (Unit {0})
written (rows d') d = (done tt, d')
written integrity_error d = (conflicted, d)
written database_error d = (broken, d)

-- A statement that writes.
abbrev pub execute : {S : Type 0} → (S → Answer S) → Tx S (Unit {0})
execute statement d = written (statement d) d

-- The answer to a commit; where it fails, the transaction is rolled back to `d`.
abbrev pub finish {ℓ} : {S : Type 0} {A : Type ℓ} → A → Answer S → Tx S A
finish a (rows d') d = (done a, d')
finish a integrity_error d = (conflicted, d)
finish a database_error d = (broken, d)

-- The end of a transaction that began with `d`.
abbrev pub close {ℓ} :
    {S : Type 0} {A : Type ℓ} → (S → Answer S) → (S → S → S) → Ending A × S → Tx S A
close commit rollback (done a, d') d = finish a (commit d') (rollback d d')
close commit rollback (conflicted, d') d = (conflicted, rollback d d')
close commit rollback (broken, d') d = (broken, rollback d d')
close commit rollback (raised e, d') d = (raised e, rollback d d')

abbrev pub new_event : String → StreamEventType → Payload → Stamp → ℕ → AgentStreamEventModel
new_event run_id type payload stamp sequence = record {
  id = stamp.id;
  run_id = run_id;
  sequence = sequence;
  event_type = event_type_value type;
  payload_json = payload;
  created_at = stamp.created_at;
}

module _ (D : Database) where
  open D use {
    Db, select_session, select_run, select_active_run, select_run_by_key, max_event_sequence,
    max_message_sequence, insert_event,
  }

  -- A transaction commits when its body returns, and rolls back when it raises.
  unfoldable pub transaction {ℓ} : {A : Type ℓ} → Tx Db A → Tx Db A
  transaction body d = close D.commit D.rollback (body d) d

  -- A method: one transaction, with its exceptions translated.
  unfoldable pub method {ℓ} : {A : Type ℓ} → String → Tx Db A → Db → Result A × Db
  unfolding transaction translated
  method operation body d = (translated operation (transaction body d).0, (transaction body d).1)

  -- A method that only reads: its session is closed without a commit.
  unfoldable pub reading {ℓ} : {A : Type ℓ} → String → Tx Db A → Db → Result A × Db
  unfolding translated
  reading operation body d = (translated operation (body d).0, d)

  abbrev pub session_or_raise : String → Option AgentSessionModel → Tx Db AgentSessionModel
  session_or_raise id none = raise (failure session_not_found (session_details id))
  session_or_raise id (some x) = pure x

  unfoldable pub locked_session : String → Tx Db AgentSessionModel
  locked_session session_id = query (select_session session_id) >>= session_or_raise session_id

  abbrev pub run_or_raise : String → Option AgentRunModel → Tx Db AgentRunModel
  run_or_raise id none = raise (failure run_not_found (run_details id))
  run_or_raise id (some r) = pure r

  unfoldable pub locked_run : String → Tx Db AgentRunModel
  locked_run run_id = query (select_run run_id) >>= run_or_raise run_id

  unfoldable pub idempotent_run : Option String → Tx Db (Option AgentRunModel)
  idempotent_run none = pure none
  idempotent_run (some key) = query (select_run_by_key key)

  abbrev pub busy : String → Option AgentRunModel → Tx Db (Unit {0})
  busy session_id none = pure tt
  busy session_id (some active) =
      raise (
        failure session_busy
          (("session_id", string session_id) ∷ ("run_id", string active.id) ∷ []))

  -- `if active is not None: raise SessionBusyError(...)`
  unfoldable pub refuse_active : String → Tx Db (Unit {0})
  refuse_active session_id = query (select_active_run session_id) >>= busy session_id

  unfoldable pub next_message_sequence : String → Tx Db ℕ
  next_message_sequence session_id = do n ← query (max_message_sequence session_id); pure (n + 1)

  unfoldable pub append_event :
      AgentRunModel → StreamEventType → Payload → Stamp → Tx Db AgentStreamEventModel
  append_event run type payload stamp = do
    n ← query (max_event_sequence run.id)
    let event = new_event run.id type payload stamp (n + 1)
    execute (insert_event event)
    pure event

  -- `return self._run(model)`, after the transaction or in it
  abbrev pub shown : AgentRunModel → Result AgentRun
  shown model = run_record D.validate_usage model

  abbrev pub returned {ℓ κ} :
      {A : Type ℓ} {B : Type κ} → (A → Result B) → Result A × Db → Result B × Db
  returned f (ok a, d) = (f a, d)
  returned f (err e, d) = (err e, d)

-- `RunStatus(model.status)`
abbrev pub status_or_raise : Option RunStatus → Result RunStatus
status_or_raise none = err other_exception
status_or_raise (some status) = ok status

abbrev pub status_of : AgentRunModel → Result RunStatus
status_of model = status_or_raise (parse_status model.status)

-- `tuple(convert(model) for model in models)`
abbrev consed {ℓ} : {A : Type ℓ} → Result A → Result (List A) → Result (List A)
consed (err e) rest = err e
consed (ok a) (err e) = err e
consed (ok a) (ok as') = ok (a ∷ as')

unfoldable pub converted {ℓ κ} :
    {A : Type ℓ} {B : Type κ} → (A → Result B) → List A → Result (List B)
converted f [] = ok []
converted f (x ∷ xs) = consed (f x) (converted f xs)
