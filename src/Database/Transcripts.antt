-- ===== src/Database/Transcripts.antt =====
-- The methods of `SQLAlchemyRuntimeStore` on sessions and their messages.
use dayu_water_agent.Prelude.{ℕ, ◌+◌, String, true, false, Option, none, some, List}
use dayu_water_agent.Json.{Payload}
use dayu_water_agent.Errors.{Result, ok, err, domain, make_error}
use dayu_water_agent.Errors.Kinds.{session}
use dayu_water_agent.Database.Transactions.{
  Ending, done, conflicted, broken, raised, Tx, ◌>>=◌, ◌>>◌, pure, query, execute, transaction,
  method, reading, unavailable, locked_session, refuse_active, next_message_sequence, returned,
  converted,
}
use dayu_water_agent.Json.{Payload}
use dayu_water_agent.Runtime.Session.{MessageRole, AgentMessage, SessionRecord}
use dayu_water_agent.Memory.Store.{Stamp, session_details}
use dayu_water_agent.Memory.Sessions.{or_empty, or_uuid}
use dayu_water_agent.Database.Models.{
  AgentSessionModel, AgentMessageModel, session_record, message_record, role_value,
}
use dayu_water_agent.Database.Engine.{Database}

abbrev pub session_row : String → Option String → Payload → Stamp → AgentSessionModel
session_row id user_id metadata stamp = record {
  id = id;
  user_id = user_id;
  status = "open";
  metadata_json = metadata;
  version = 1;
  created_at = stamp.created_at;
  updated_at = stamp.now;
}

-- `session_model.version += 1; session_model.updated_at = utc_now()`
abbrev pub touched : AgentSessionModel → ℕ → AgentSessionModel
touched x now = record x { version = x.version + 1; updated_at = now }

-- The `except` clauses of `create_session`
unfoldable pub session_created : AgentSessionModel → Ending (Unit {0}) → Result SessionRecord
unfolding session_record
session_created model (done _) = ok (session_record model)
session_created model conflicted = err (
    domain (
      make_error session (some "A session with this identifier already exists.")
        (some (session_details model.id)) false))
session_created model broken = err (unavailable "create_session")
session_created model (raised e) = err e

module _ (D : Database) where
  open D use {
    Db, select_session, select_messages, insert_session, insert_message, update_session,
    delete_messages,
  }

  unfoldable pub create_session :
      Option Payload → Option String → Option String → Stamp → Db → Result SessionRecord × Db
  unfolding transaction session_created
  create_session metadata session_id user_id stamp d =
      let model = session_row (or_uuid session_id stamp.id) user_id (or_empty metadata) stamp in
      let ended = transaction D (execute (insert_session model)) d in
      (session_created model ended.0, ended.1)

  unfoldable pub get_session : String → Db → Result SessionRecord × Db
  unfolding reading session_record locked_session
  get_session session_id d =
      returned D (λ model. ok (session_record model))
        (reading D "get_session" (locked_session D session_id) d)

  -- AgentMessageModel(session_id=..., role=..., content=..., sequence=..., committed=True, metadata_json=...)
  abbrev pub message_row :
      String → MessageRole → String → ℕ → Option Payload → Stamp → AgentMessageModel
  message_row session_id role content sequence metadata stamp = record {
    id = stamp.id;
    session_id = session_id;
    run_id = none;
    role = role_value role;
    content = content;
    sequence = sequence;
    committed = true;
    metadata_json = or_empty metadata;
    created_at = stamp.created_at;
  }

  unfoldable pub message_appended :
      String → MessageRole → String → Option Payload → Stamp → Tx Db AgentMessageModel
  unfolding locked_session refuse_active next_message_sequence role_value
  message_appended session_id role content metadata stamp = do
    x ← locked_session D session_id
    refuse_active D session_id
    sequence ← next_message_sequence D session_id
    let model = message_row session_id role content sequence metadata stamp
    execute (insert_message model)
    execute (update_session (touched x stamp.now))
    pure model

  unfoldable pub append_message :
      String → MessageRole → String → Option Payload → Stamp → Db → Result AgentMessage × Db
  unfolding method message_appended message_record
  append_message session_id role content metadata stamp d =
      returned D message_record
        (method D "append_message" (message_appended session_id role content metadata stamp) d)

  unfoldable pub list_messages : String → Db → Result (List AgentMessage) × Db
  unfolding reading locked_session converted message_record
  list_messages session_id d = returned D (converted message_record) (
      reading D "list_messages" (locked_session D session_id >> query (select_messages session_id))
        d)

  unfoldable pub session_cleared : String → ℕ → Tx Db (Unit {0})
  unfolding locked_session refuse_active
  session_cleared session_id now = do
    x ← locked_session D session_id
    refuse_active D session_id
    execute (delete_messages session_id)
    execute (update_session (touched x now))

  unfoldable pub clear_session : String → ℕ → Db → Result (Unit {0}) × Db
  unfolding method session_cleared
  clear_session session_id now d = method D "clear_session" (session_cleared session_id now) d
