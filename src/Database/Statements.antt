-- ===== src/Database/Statements.antt =====
-- Rules for the first statement of a transaction of the database store.
use dayu_water_agent.Prelude.{◌≡◌, refl, sym, ℕ, ◌+◌, String, Option, none, some}
use dayu_water_agent.Json.{Payload}
use dayu_water_agent.Errors.{Result, ok, err}
use dayu_water_agent.Memory.Store.{Stamp}
use dayu_water_agent.Runtime.State.{StreamEventType}
use dayu_water_agent.Database.Models.{AgentSessionModel, AgentRunModel}
use dayu_water_agent.Database.Engine.{
  Answer, rows, integrity_error, database_error, Database, IsDatabase,
}
use dayu_water_agent.Database.Transactions.{
  Tx, ◌>>=◌, pure, lift, execute, answered, written, locked_run, locked_session, run_or_raise,
  session_or_raise, next_message_sequence, append_event, new_event,
}
use dayu_water_agent.Database.Outcomes.{Ends}

module _ (D : Database) {B : Type 0} (Q : B → D.Db → Type 0) where
  written_first :
      (x : Answer D.Db) (f : Tx D.Db B) (d : D.Db)
      → ((d' : D.Db) → x ≡ rows d' → Ends D Q (f d'))
      → Ends D Q ((written x >>= λ _. f) d)
  written_first (rows d') f d k = k d' refl
  written_first integrity_error f d k = tt
  written_first database_error f d k = tt

  pub execute_first :
      (st : D.Db → Answer D.Db) (f : Tx D.Db B) (d : D.Db)
      → ((d' : D.Db) → st d ≡ rows d' → Ends D Q (f d'))
      → Ends D Q ((execute st >>= λ _. f) d)
  execute_first st f d k = written_first (st d) f d k

  pub lift_first :
      {A : Type 0} (r : Result A) (f : A → Tx D.Db B) (d : D.Db)
      → ((a : A) → r ≡ ok a → Ends D Q (f a d))
      → Ends D Q ((lift r >>= f) d)
  lift_first (ok a) f d k = k a refl
  lift_first (err e) f d k = tt

  run_first :
      (id : String) (x : Answer (Option AgentRunModel)) (f : AgentRunModel → Tx D.Db B) (d : D.Db)
      → ((row : AgentRunModel) → x ≡ rows (some row) → Ends D Q (f row d))
      → Ends D Q ((answered x >>= run_or_raise D id >>= f) d)
  run_first id (rows none) f d k = tt
  run_first id (rows (some row)) f d k = k row refl
  run_first id integrity_error f d k = tt
  run_first id database_error f d k = tt

  pub locked_run_first :
      (L : IsDatabase D) (id : String) (f : AgentRunModel → Tx D.Db B) (d : D.Db)
      → ((row : AgentRunModel) → D.run d id ≡ some row → Ends D Q (f row d))
      → Ends D Q ((locked_run D id >>= f) d)
  unfolding locked_run
  locked_run_first L id f d k =
      run_first id (D.select_run id d) f d λ row e. k row (sym (L.select_run_lem id d (some row) e))

  session_first :
      (id : String) (x : Answer (Option AgentSessionModel)) (f : AgentSessionModel → Tx D.Db B)
      (d : D.Db)
      → ((row : AgentSessionModel) → Ends D Q (f row d))
      → Ends D Q ((answered x >>= session_or_raise D id >>= f) d)
  session_first id (rows none) f d k = tt
  session_first id (rows (some row)) f d k = k row
  session_first id integrity_error f d k = tt
  session_first id database_error f d k = tt

  pub locked_session_first :
      (id : String) (f : AgentSessionModel → Tx D.Db B) (d : D.Db)
      → ((row : AgentSessionModel) → Ends D Q (f row d))
      → Ends D Q ((locked_session D id >>= f) d)
  unfolding locked_session
  locked_session_first id f d k = session_first id (D.select_session id d) f d k

  number_first :
      (x : Answer ℕ) (f : ℕ → Tx D.Db B) (d : D.Db)
      → ((n : ℕ) → x ≡ rows n → Ends D Q (f (n + 1) d))
      → Ends D Q (((answered x >>= λ n. pure (n + 1)) >>= f) d)
  number_first (rows n) f d k = k n refl
  number_first integrity_error f d k = tt
  number_first database_error f d k = tt

  pub next_message_sequence_first :
      (id : String) (f : ℕ → Tx D.Db B) (d : D.Db)
      → ((n : ℕ) → D.max_message_sequence id d ≡ rows n → Ends D Q (f (n + 1) d))
      → Ends D Q ((next_message_sequence D id >>= f) d)
  unfolding next_message_sequence
  next_message_sequence_first id f d k = number_first (D.max_message_sequence id d) f d k

  event_first :
      {E : Type 0} (x : Answer ℕ) (insert : ℕ → D.Db → Answer D.Db) (event : ℕ → E) (f : Tx D.Db B)
      (d : D.Db)
      → ((n : ℕ) (d' : D.Db) → insert n d ≡ rows d' → Ends D Q (f d'))
      → Ends D Q (((answered x >>= λ n. execute (insert n) >>= λ _. pure (event n)) >>= λ _. f) d)
  event_first (rows n) insert event f d k = inserted (insert n d) (k n)
    where
      inserted :
          (y : Answer D.Db)
          → ((d' : D.Db) → y ≡ rows d' → Ends D Q (f d'))
          → Ends D Q (((written y >>= λ _. pure (event n)) >>= λ _. f) d)
      inserted (rows d') k = k d' refl
      inserted integrity_error k = tt
      inserted database_error k = tt
  event_first integrity_error insert event f d k = tt
  event_first database_error insert event f d k = tt

  pub append_event_first :
      (run : AgentRunModel) (type : StreamEventType) (payload : Payload) (stamp : Stamp)
      (f : Tx D.Db B) (d : D.Db)
      → ((n : ℕ) (d' : D.Db)
          → D.insert_event (new_event run.id type payload stamp n) d ≡ rows d'
          → Ends D Q (f d'))
      → Ends D Q ((append_event D run type payload stamp >>= λ _. f) d)
  unfolding append_event
  append_event_first run type payload stamp f d k =
      event_first (D.max_event_sequence run.id d)
        (λ n. D.insert_event (new_event run.id type payload stamp (n + 1)))
        (λ n. new_event run.id type payload stamp (n + 1)) f d λ n d' h. k (n + 1) d' h
