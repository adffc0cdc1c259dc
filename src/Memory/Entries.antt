-- ===== src/Memory/Entries.antt =====
-- What the session methods and `reserve_run` leave in the store.
use dayu_water_agent.Prelude.{
  ℕ, ◌+◌, String, ◌≡◌, refl, true, Option, none, some, List, [], ◌∷◌, ◌++◌, arith, length, inl, inr,
  Option-cases,
}
use dayu_water_agent.Dict.{get, put}
use dayu_water_agent.Json.{Payload}
use dayu_water_agent.Runtime.Session.{AgentMessage, SessionRecord, MessageRole}
use dayu_water_agent.Runtime.State.{AgentRun}
use dayu_water_agent.Memory.Store.{MemoryStore, Stamp, active_run_locked}
use dayu_water_agent.Memory.Sessions.{
  or_empty, or_uuid, new_session, create_session, append_message, clear_session, touched,
}
use dayu_water_agent.Memory.Runs.{
  RunRequest, new_run, known_key, enter_run, reserve_new, reserve_run,
}

-- A session is entered with no messages.
abbrev pub with_session : MemoryStore → SessionRecord → MemoryStore
with_session s x = record s { sessions = put s.sessions x.id x; messages = put s.messages x.id [] }

-- The transcript of a session is replaced.
abbrev pub rewritten_session :
    MemoryStore → String → SessionRecord → List AgentMessage → ℕ → MemoryStore
rewritten_session s id x ms now = record s {
  messages = put s.messages id ms;
  sessions = put s.sessions id (touched x now);
}

abbrev pub bound : MemoryStore → Option String → String → MemoryStore
bound s none id = s
bound s (some key) id = record s { idempotency = put s.idempotency key id }

-- A run is entered with no events, under its idempotency key.
abbrev pub with_run : MemoryStore → AgentRun → MemoryStore
with_run s r =
    bound (record s { runs = put s.runs r.id r; events = put s.events r.id [] }) r.idempotency_key
      r.id

abbrev pub appended : String → MessageRole → String → Option Payload → Stamp → ℕ → AgentMessage
appended id role content metadata stamp sequence = record {
  id = stamp.id;
  session_id = some id;
  run_id = none;
  role = role;
  content = content;
  sequence = sequence;
  committed = true;
  metadata = or_empty metadata;
  created_at = stamp.created_at;
}

module _ {ℓ} (P : MemoryStore → Type ℓ) (s : MemoryStore) (kept : P s) where
  pub create_session_cases :
      (metadata : Option Payload) (session_id user_id : Option String) (stamp : Stamp)
      → ((x : SessionRecord) → get s.sessions x.id ≡ none → P (with_session s x))
      → P (create_session metadata session_id user_id stamp s).1
  unfolding create_session
  create_session_cases metadata session_id user_id stamp written =
      let x = new_session (or_uuid session_id stamp.id) user_id (or_empty metadata) stamp in
      elim (Option-cases (get s.sessions x.id)) [
        | inl e ↦ ground (arith, written x e)
        | inr (y, e) ↦ ground arith
      ]

  pub append_message_cases :
      (id : String) (role : MessageRole) (content : String) (metadata : Option Payload)
      (stamp : Stamp)
      → ((x : SessionRecord) (ms : List AgentMessage)
          → get s.sessions id ≡ some x
          → get s.messages id ≡ some ms
          → active_run_locked id s ≡ none
          → P (
              rewritten_session s id x
                (ms ++ appended id role content metadata stamp (length ms + 1) ∷ [])
                stamp.now))
      → P (append_message id role content metadata stamp s).1
  unfolding append_message
  append_message_cases id role content metadata stamp written =
      elim (Option-cases (get s.sessions id)) [
        | inl e ↦ ground arith
        | inr (x, e) ↦ elim (Option-cases (get s.messages id)) [
          | inl f ↦ ground arith
          | inr (ms, f) ↦ ground (arith, written x ms e f)
        ]
      ]

  pub clear_session_cases :
      (id : String) (now : ℕ)
      → ((x : SessionRecord) (ms : List AgentMessage)
          → get s.sessions id ≡ some x
          → get s.messages id ≡ some ms
          → active_run_locked id s ≡ none
          → P (rewritten_session s id x [] now))
      → P (clear_session id now s).1
  unfolding clear_session
  clear_session_cases id now written = elim (Option-cases (get s.sessions id)) [
    | inl e ↦ ground arith
    | inr (x, e) ↦ elim (Option-cases (get s.messages id)) [
      | inl f ↦ ground arith
      | inr (ms, f) ↦ ground (arith, written x ms e f)
    ]
  ]

  pub enter_run_cases :
      (q : RunRequest) (stamp : Stamp) (x : SessionRecord)
      → (active_run_locked x.id s ≡ none → P (with_run s (new_run q x.id stamp)))
      → P (enter_run q stamp x s).1
  unfolding enter_run
  enter_run_cases q stamp x written = elim (Option-cases q.idempotency_key) [
    | inl e ↦ ground (arith, e, written)
    | inr (key, e) ↦ ground (arith, e, written)
  ]

-- Reservation in a session that is entered for it, or in one that is there.
pub reserve_new_cases {ℓ} :
    (P : MemoryStore → Type ℓ) (s : MemoryStore) (q : RunRequest) (session_stamp run_stamp : Stamp)
    → P s
    → ((x : SessionRecord)
        → x.id ≡ session_stamp.id
        → P (enter_run q run_stamp x (with_session s x)).1)
    → ((k : String) (x : SessionRecord)
        → get s.sessions k ≡ some x
        → P (enter_run q run_stamp x s).1)
    → P (reserve_new q session_stamp run_stamp s).1
unfolding reserve_new
reserve_new_cases P s q session_stamp run_stamp kept new old = elim (Option-cases q.session_id) [
  | inl e ↦ rw (e, reserve_new) (new _ refl)
  | inr (id, e) ↦
      rw (e, reserve_new)
        (elim (Option-cases (get s.sessions id)) [
          | inl f ↦ rw f kept
          | inr (x, f) ↦ rw f (old id x f)
        ])
]

pub reserve_run_cases {ℓ} :
    (P : MemoryStore → Type ℓ) (s : MemoryStore) (q : RunRequest) (session_stamp run_stamp : Stamp)
    → P s
    → (known_key q.idempotency_key s ≡ none → P (reserve_new q session_stamp run_stamp s).1)
    → P (reserve_run q session_stamp run_stamp s).1
unfolding reserve_run
reserve_run_cases P s q session_stamp run_stamp kept new =
    elim (Option-cases (known_key q.idempotency_key s)) [
      | inl e ↦ rw (e, reserve_run) (new e)
      | inr (id, e) ↦
          rw (e, reserve_run)
            (elim (Option-cases (get s.runs id)) [
              | inl f ↦ rw f kept
              | inr (x, f) ↦ rw f (ground arith)
            ])
    ]

pub reserve_new-none :
    (s : MemoryStore) (q : RunRequest) (a b : Stamp)
    → q.session_id ≡ none
    → let x = new_session a.id q.user_id q.session_metadata a in
      reserve_new q a b s ≡ enter_run q b x (with_session s x)
unfolding reserve_new
reserve_new-none s q a b n = ground arith

pub reserve_new-some :
    (s : MemoryStore) (q : RunRequest) (a b : Stamp) (id : String) (x : SessionRecord)
    → q.session_id ≡ some id
    → get s.sessions id ≡ some x
    → reserve_new q a b s ≡ enter_run q b x s
unfolding reserve_new
reserve_new-some s q a b id x n e = ground arith
