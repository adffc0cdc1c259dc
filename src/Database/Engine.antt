-- ===== src/Database/Engine.antt =====
-- What src/dayu_agent/database/store.py relies on: the statements that it sends through the database
-- library, each of which may fail, and what the rows are after one that succeeds.
use dayu_water_agent.Prelude.{
  false, ◌||◌, ◌↔◌, ℕ, ◌≤◌, ◌≡◌, ◌⊎◌, ◌==◌, String, Bool, Option, none, some, List, if◌then◌else◌,
}
use dayu_water_agent.Json.{Json, object, end_fields}
use dayu_water_agent.Runtime.Result.{TokenUsage, no_usage}
use dayu_water_agent.Database.Models.{
  AgentSessionModel, AgentRunModel, AgentMessageModel, AgentStreamEventModel,
}

-- How a statement ends: with rows, with an `IntegrityError`, or with another `SQLAlchemyError`.
pub data Answer {ℓ} (A : Type ℓ) : Type ℓ where
  rows : A → Answer A
  integrity_error : Answer A
  database_error : Answer A

-- `Db` is what one transaction sees: the committed rows with its own writes. `run` and `session` look
-- a row up by its primary key, and `HasEvent` and `HasMessage` say which rows of the other two tables
-- there are.
pub record Database : Type 1 where
  pub Db : Type 0
  pub session : Db → String → Option AgentSessionModel
  pub run : Db → String → Option AgentRunModel
  pub HasEvent : Db → AgentStreamEventModel → Type 0
  pub HasMessage : Db → AgentMessageModel → Type 0
  -- the statements
  pub select_session : String → Db → Answer (Option AgentSessionModel)
  pub select_run : String → Db → Answer (Option AgentRunModel)
  pub select_run_by_key : String → Db → Answer (Option AgentRunModel)
  pub select_active_run : String → Db → Answer (Option AgentRunModel)
  pub select_active_runs : Bool → String → Db → Answer (List AgentRunModel)
  pub select_messages : String → Db → Answer (List AgentMessageModel)
  pub select_events_after : String → ℕ → Db → Answer (List AgentStreamEventModel)
  pub max_message_sequence : String → Db → Answer ℕ
  pub max_event_sequence : String → Db → Answer ℕ
  pub insert_session : AgentSessionModel → Db → Answer Db
  pub insert_run : AgentRunModel → Db → Answer Db
  pub insert_message : AgentMessageModel → Db → Answer Db
  pub insert_event : AgentStreamEventModel → Db → Answer Db
  pub update_session : AgentSessionModel → Db → Answer Db
  pub update_run : AgentRunModel → Db → Answer Db
  pub delete_messages : String → Db → Answer Db
  pub delete_expired_events : ℕ → Db → Answer (ℕ × Db)
  pub commit : Db → Answer Db
  -- The rows after a roll-back: the first are those without the transaction, the second those that it
  -- has come to.
  pub rollback : Db → Db → Db
  -- `TokenUsage.model_validate` and `model_dump` of the validation library
  pub validate_usage : Json → Option TokenUsage
  pub dump_usage : TokenUsage → Json

-- `status IN ('pending', 'running')`
abbrev pub is_active_value : String → Bool
is_active_value value = value == "pending" || value == "running"

-- The documented behaviour that the results need. A row that is updated was loaded before; a sequence
-- number that is asked for is the greatest of its parent's rows, or 0.
pub record IsDatabase (D : Database) : Type 0 where
  pub select_run_lem :
      (id : String) (d : D.Db) (r : Option AgentRunModel)
      → D.select_run id d ≡ rows r
      → r ≡ D.run d id
  pub run_id_lem : (d : D.Db) (k : String) (r : AgentRunModel) → D.run d k ≡ some r → r.id ≡ k
  pub select_run_by_key_lem :
      (key : String) (d : D.Db) (r : AgentRunModel)
      → D.select_run_by_key key d ≡ rows (some r)
      → (D.run d r.id ≡ some r) × (r.idempotency_key ≡ some key)
  pub select_active_run_lem :
      (id k : String) (d : D.Db) (r : AgentRunModel)
      → D.select_active_run id d ≡ rows none
      → D.run d k ≡ some r
      → r.session_id ≡ id
      → is_active_value r.status ≡ false
  pub max_event_sequence_lem :
      (id : String) (d : D.Db) (n : ℕ) (e : AgentStreamEventModel)
      → D.max_event_sequence id d ≡ rows n
      → D.HasEvent d e
      → e.run_id ≡ id
      → e.sequence ≤ n
  pub max_message_sequence_lem :
      (id : String) (d : D.Db) (n : ℕ) (m : AgentMessageModel)
      → D.max_message_sequence id d ≡ rows n
      → D.HasMessage d m
      → m.session_id ≡ id
      → m.sequence ≤ n
  pub update_run_lem :
      (r : AgentRunModel) (d d' : D.Db) (k : String)
      → D.update_run r d ≡ rows d'
      → D.run d' k ≡ (if r.id == k then some r else D.run d k)
  pub update_run_events :
      (r : AgentRunModel) (d d' : D.Db) (e : AgentStreamEventModel)
      → D.update_run r d ≡ rows d'
      → D.HasEvent d' e ↔ D.HasEvent d e
  pub update_run_messages :
      (r : AgentRunModel) (d d' : D.Db) (m : AgentMessageModel)
      → D.update_run r d ≡ rows d'
      → D.HasMessage d' m ↔ D.HasMessage d m
  pub insert_event_messages :
      (e : AgentStreamEventModel) (d d' : D.Db) (m : AgentMessageModel)
      → D.insert_event e d ≡ rows d'
      → D.HasMessage d' m ↔ D.HasMessage d m
  pub insert_run_lem :
      (r : AgentRunModel) (d d' : D.Db) (k : String)
      → D.insert_run r d ≡ rows d'
      → D.run d' k ≡ (if r.id == k then some r else D.run d k)
  pub insert_session_runs :
      (x : AgentSessionModel) (d d' : D.Db) (k : String)
      → D.insert_session x d ≡ rows d'
      → D.run d' k ≡ D.run d k
  pub insert_event_runs :
      (e : AgentStreamEventModel) (d d' : D.Db) (k : String)
      → D.insert_event e d ≡ rows d'
      → D.run d' k ≡ D.run d k
  pub insert_event_lem :
      (e f : AgentStreamEventModel) (d d' : D.Db)
      → D.insert_event e d ≡ rows d'
      → D.HasEvent d' f ↔ (D.HasEvent d f ⊎ (f ≡ e))
  pub insert_message_lem :
      (m n : AgentMessageModel) (d d' : D.Db)
      → D.insert_message m d ≡ rows d'
      → D.HasMessage d' n ↔ (D.HasMessage d n ⊎ (n ≡ m))
  pub update_session_messages :
      (x : AgentSessionModel) (d d' : D.Db) (m : AgentMessageModel)
      → D.update_session x d ≡ rows d'
      → D.HasMessage d' m ↔ D.HasMessage d m
  pub commit_lem : (d d' : D.Db) → D.commit d ≡ rows d' → d' ≡ d
  pub rollback_lem : (d d' : D.Db) → D.rollback d d' ≡ d
  pub validate_empty : D.validate_usage (object end_fields) ≡ some no_usage
