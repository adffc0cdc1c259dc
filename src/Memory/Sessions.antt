-- ===== src/Memory/Sessions.antt =====
-- The session methods of `InMemorySessionStore`.
use dayu_water_agent.Prelude.{
  ℕ, ◌+◌, String, true, false, Option, none, some, List, [], ◌∷◌, ◌++◌, ◌==◌, length, if◌then◌else◌,
}
use dayu_water_agent.Dict.{contains}
use dayu_water_agent.Json.{Payload}
use dayu_water_agent.Errors.{err, domain, make_error}
use dayu_water_agent.Errors.Kinds.{session}
use dayu_water_agent.Runtime.Session.{MessageRole, AgentMessage, SessionRecord}
use dayu_water_agent.Memory.Store.{
  Stamp, Exec, ◌>>=◌, ◌>>◌, pure, messages_at, put_session, put_messages, session_details,
  session_locked, refuse_active,
}

-- `value if value is not None else {}`
abbrev pub or_empty : Option Payload → Payload
or_empty none = []
or_empty (some p) = p

-- `session_id or str(uuid4())`
abbrev pub or_uuid : Option String → String → String
or_uuid none uuid = uuid
or_uuid (some id) uuid = if id == "" then uuid else id

-- SessionRecord(id=..., user_id=..., metadata=...)
abbrev pub new_session : String → Option String → Payload → Stamp → SessionRecord
new_session id user_id metadata stamp = record {
  id = id;
  user_id = user_id;
  status = "open";
  metadata = metadata;
  version = 1;
  created_at = stamp.created_at;
  updated_at = stamp.now;
}

-- `_sessions[id] = session; _messages[id] = []`
abbrev pub add_session : SessionRecord → Exec (Unit {0})
add_session x = do put_session x.id x; put_messages x.id []

-- `record.model_copy(update={"updated_at": now, "version": record.version + 1})`
abbrev pub touched : SessionRecord → ℕ → SessionRecord
touched x now = record x { version = x.version + 1; updated_at = now }

unfoldable pub create_session :
    Option Payload → Option String → Option String → Stamp → Exec SessionRecord
create_session metadata session_id user_id stamp s =
    let x = new_session (or_uuid session_id stamp.id) user_id (or_empty metadata) stamp in
    if contains s.sessions x.id
    then (
      err (
          domain (
            make_error session (some "A session with this identifier already exists.")
              (some (session_details x.id)) false)),
      s,
    )
    else (add_session x >> pure x) s

unfoldable pub get_session : String → Exec SessionRecord
get_session = session_locked

unfoldable pub append_message :
    String → MessageRole → String → Option Payload → Stamp → Exec AgentMessage
unfolding session_locked refuse_active messages_at
append_message session_id role content metadata stamp = do
  x ← session_locked session_id
  refuse_active session_id
  messages ← messages_at session_id
  let message : AgentMessage = record {
    id = stamp.id;
    session_id = some session_id;
    run_id = none;
    role = role;
    content = content;
    sequence = length messages + 1;
    committed = true;
    metadata = or_empty metadata;
    created_at = stamp.created_at;
  }
  put_messages session_id (messages ++ message ∷ [])
  put_session session_id (touched x stamp.now)
  pure message

unfoldable pub list_messages : String → Exec (List AgentMessage)
unfolding session_locked messages_at
list_messages session_id = do session_locked session_id; messages_at session_id

unfoldable pub clear_session : String → ℕ → Exec (Unit {0})
unfolding session_locked refuse_active messages_at
clear_session session_id now = do
  x ← session_locked session_id
  refuse_active session_id
  messages_at session_id
  put_messages session_id []
  put_session session_id (touched x now)
