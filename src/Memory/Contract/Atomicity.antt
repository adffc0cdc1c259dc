-- ===== src/Memory/Contract/Atomicity.antt =====
-- src/dayu_agent/memory/store.py: how its methods end, those that read and those that write.
use dayu_water_agent.Memory.Sessions
use dayu_water_agent.Memory.Maintenance
use dayu_water_agent.Memory.Maintenance.{owned_by, orphaned_from}
use dayu_water_agent.Memory.Interrupts.{
  interrupt_matching_lem, owned_by-active, orphaned_from-active,
}
use dayu_water_agent.Memory.Pruning.{prune_stream_events-Pruned}
use dayu_water_agent.Memory.Calls.{
  Call, create_session, append_message, clear_session, reserve_run, mark_run_running,
  increment_run_attempt, append_stream_event, commit_run_success, fail_run, cancel_run,
  interrupt_worker_runs, reconcile_orphaned_runs, prune_stream_events,
}
use dayu_water_agent.Memory.Runs
use dayu_water_agent.Memory.Runs.{RunRequest, known_key, enter_run, reserve_new}
use dayu_water_agent.Memory.Entries.{with_session, reserve_new-none, reserve_new-some}
use dayu_water_agent.Memory.Store.{active_run_locked, is_active_in, session_locked, run_locked}
use dayu_water_agent.Dict.Values.{first-some}
use dayu_water_agent.Prelude.{
  List, ℕ, String, ◌≡◌, Option, some, none, arith, inl, inr, Option-cases, eq_iff,
}
use dayu_water_agent.Dict.{get}
use dayu_water_agent.Errors.{domain, Result, ok, err}
use dayu_water_agent.Runtime.Session.{SessionRecord, AgentMessage, MessageRole}
use dayu_water_agent.Memory.Lifecycle.{Turn}
use dayu_water_agent.Json.{Payload}
use dayu_water_agent.Runtime.State.{StreamEventType, AgentRun}
use dayu_water_agent.Memory.Store.{MemoryStore, Stamp}
use dayu_water_agent.Memory.Lifecycle
use dayu_water_agent.Memory.Invariant.{IsValid}
use dayu_water_agent.Memory.Invariant.Steps.{IsValid-HasEvents}

-- The call returned, or it raised an application error and left the store alone.
abbrev pub IsAtomic {ℓ} : {A : Type ℓ} → MemoryStore → Result A × MemoryStore → Type 0
IsAtomic s (ok a, t) = Unit {0}
IsAtomic s (err (domain e), t) = t ≡ s
IsAtomic s (err _, t) = ⊥

module _ (s : MemoryStore) (v : IsValid s) where
  mark_run_running-IsAtomic :
      (id worker : String) (stamp : Stamp)
      → IsAtomic s (Lifecycle.mark_run_running id worker stamp s)
  unfolding Lifecycle.mark_run_running
  mark_run_running-IsAtomic id worker stamp = elim (Option-cases (get s.runs id)) [
    | inl n ↦ ground arith
    | inr (r, e) ↦ let (es, h) = IsValid-HasEvents s v id r e in ground arith
  ]

  increment_run_attempt-IsAtomic : (id : String) → IsAtomic s (Lifecycle.increment_run_attempt id s)
  unfolding Lifecycle.increment_run_attempt
  increment_run_attempt-IsAtomic id = elim (Option-cases (get s.runs id)) [
    | inl n ↦ ground arith
    | inr (r, e) ↦ let (es, h) = IsValid-HasEvents s v id r e in ground arith
  ]

  append_stream_event-IsAtomic :
      (id : String) (type : StreamEventType) (payload : Payload) (stamp : Stamp)
      → IsAtomic s (Lifecycle.append_stream_event id type payload stamp s)
  unfolding Lifecycle.append_stream_event
  append_stream_event-IsAtomic id type payload stamp = elim (Option-cases (get s.runs id)) [
    | inl n ↦ ground arith
    | inr (r, e) ↦ let (es, h) = IsValid-HasEvents s v id r e in ground arith
  ]

  fail_run-IsAtomic :
      (id error_code : String) (stamp : Stamp)
      → IsAtomic s (Lifecycle.fail_run id error_code stamp s)
  unfolding Lifecycle.fail_run
  fail_run-IsAtomic id error_code stamp = elim (Option-cases (get s.runs id)) [
    | inl n ↦ ground arith
    | inr (r, e) ↦ let (es, h) = IsValid-HasEvents s v id r e in ground arith
  ]

  cancel_run-IsAtomic :
      (id worker : String) (stamp : Stamp) → IsAtomic s (Lifecycle.cancel_run id worker stamp s)
  unfolding Lifecycle.cancel_run
  cancel_run-IsAtomic id worker stamp = elim (Option-cases (get s.runs id)) [
    | inl n ↦ ground arith
    | inr (r, e) ↦ let (es, h) = IsValid-HasEvents s v id r e in ground arith
  ]

  pub session_of :
      (k : String) (r : AgentRun)
      → get s.runs k ≡ some r
      → (x : SessionRecord) × (get s.sessions r.session_id ≡ some x)
  session_of k r e = elim (Option-cases (get s.sessions r.session_id)) [
    | inl n ↦ absurd (ground (arith, v.has_session k r e))
    | inr h ↦ h
  ]

  pub transcript_of :
      (k : String) (x : SessionRecord)
      → get s.sessions k ≡ some x
      → (ms : List AgentMessage) × (get s.messages k ≡ some ms)
  transcript_of k x e = elim (Option-cases (get s.messages k)) [
    | inl n ↦ absurd (ground (arith, v.has_messages k))
    | inr h ↦ h
  ]

  commit_run_success-IsAtomic :
      (id : String) (turn : Turn) (a b stamp : Stamp)
      → IsAtomic s (Lifecycle.commit_run_success id turn a b stamp s)
  unfolding Lifecycle.commit_run_success
  commit_run_success-IsAtomic id turn a b stamp = elim (Option-cases (get s.runs id)) [
    | inl n ↦ ground arith
    | inr (r, e) ↦
        let (es, h) = IsValid-HasEvents s v id r e in
        let (x, f) = session_of id r e in
        let (ms, g) = transcript_of r.session_id x f in ground arith
  ]

  create_session-IsAtomic :
      (metadata : Option Payload) (session_id user_id : Option String) (stamp : Stamp)
      → IsAtomic s (Sessions.create_session metadata session_id user_id stamp s)
  unfolding Sessions.create_session
  create_session-IsAtomic metadata session_id user_id stamp = ground arith

  append_message-IsAtomic :
      (id : String) (role : MessageRole) (content : String) (metadata : Option Payload)
      (stamp : Stamp)
      → IsAtomic s (Sessions.append_message id role content metadata stamp s)
  unfolding Sessions.append_message
  append_message-IsAtomic id role content metadata stamp = elim (Option-cases (get s.sessions id)) [
    | inl n ↦ ground arith
    | inr (x, e) ↦ let (ms, h) = transcript_of id x e in ground arith
  ]

  clear_session-IsAtomic : (id : String) (now : ℕ) → IsAtomic s (Sessions.clear_session id now s)
  unfolding Sessions.clear_session
  clear_session-IsAtomic id now = elim (Option-cases (get s.sessions id)) [
    | inl n ↦ ground arith
    | inr (x, e) ↦ let (ms, h) = transcript_of id x e in ground arith
  ]

  pub no_run_of_fresh : (id : String) → get s.sessions id ≡ none → active_run_locked id s ≡ none
  unfolding active_run_locked
  no_run_of_fresh id n = elim (Option-cases (active_run_locked id s)) [
    | inl e ↦ e
    | inr (r, e) ↦
        let (k, there, test) = first-some (is_active_in id) s.runs r v.distinct_runs e in
        absurd (ground (arith, test, v.has_session k r there, eq_iff r.session_id id))
  ]

  enter_run-IsAtomic :
      (q : RunRequest) (stamp : Stamp) (x : SessionRecord) → IsAtomic s (enter_run q stamp x s)
  unfolding enter_run
  enter_run-IsAtomic q stamp x = ground arith

  entered-IsAtomic :
      (q : RunRequest) (stamp : Stamp) (x : SessionRecord)
      → get s.sessions x.id ≡ none
      → IsAtomic s (enter_run q stamp x (with_session s x))
  unfolding enter_run
  entered-IsAtomic q stamp x n =
      let free : active_run_locked x.id (with_session s x) ≡ none =
        unfold active_run_locked in no_run_of_fresh x.id n in
      ground (arith, free)

  reserve_new-IsAtomic :
      (q : RunRequest) (a b : Stamp) → get s.sessions a.id ≡ none → IsAtomic s (reserve_new q a b s)
  reserve_new-IsAtomic q a b n = elim (Option-cases q.session_id) [
    | inl e ↦ rw (reserve_new-none s q a b e) (entered-IsAtomic q b _ n)
    | inr (id, e) ↦ elim (Option-cases (get s.sessions id)) [
      | inl f ↦ unfold reserve_new in ground arith
      | inr (x, f) ↦ rw (reserve_new-some s q a b id x e f) (enter_run-IsAtomic q b x)
    ]
  ]

  no_dangling_key :
      (key : Option String) (id : String) → known_key key s ≡ some id → get s.runs id ≡ none → ⊥
  unfolding known_key
  no_dangling_key none id e n = cc
  no_dangling_key (some key) id e n = let (r, there, _) = v.idempotent key id e in cc

  reserve_run-IsAtomic :
      (q : RunRequest) (a b : Stamp)
      → get s.sessions a.id ≡ none
      → IsAtomic s (Runs.reserve_run q a b s)
  unfolding Runs.reserve_run
  reserve_run-IsAtomic q a b n = elim (Option-cases (known_key q.idempotency_key s)) [
    | inl e ↦ rw (e, Runs.reserve_run) (reserve_new-IsAtomic q a b n)
    | inr (id, e) ↦ elim (Option-cases (get s.runs id)) [
      | inl f ↦ absurd (no_dangling_key q.idempotency_key id e f)
      | inr (r, f) ↦ ground (arith, e, f)
    ]
  ]

-- A uuid that is drawn for a session names no session yet.
abbrev pub IsFreshSession : MemoryStore → Call → Type 0
IsFreshSession s (reserve_run q session_stamp run_stamp) = get s.sessions session_stamp.id ≡ none
IsFreshSession s _ = Unit

-- `IsAtomic` of the method that is called.
abbrev pub CallIsAtomic : MemoryStore → Call → Type 0
CallIsAtomic s (create_session metadata id user stamp) =
    IsAtomic s (Sessions.create_session metadata id user stamp s)
CallIsAtomic s (append_message id role content metadata stamp) =
    IsAtomic s (Sessions.append_message id role content metadata stamp s)
CallIsAtomic s (clear_session id now) = IsAtomic s (Sessions.clear_session id now s)
CallIsAtomic s (reserve_run q a b) = IsAtomic s (Runs.reserve_run q a b s)
CallIsAtomic s (mark_run_running id worker stamp) =
    IsAtomic s (Lifecycle.mark_run_running id worker stamp s)
CallIsAtomic s (increment_run_attempt id) = IsAtomic s (Lifecycle.increment_run_attempt id s)
CallIsAtomic s (append_stream_event id type payload stamp) =
    IsAtomic s (Lifecycle.append_stream_event id type payload stamp s)
CallIsAtomic s (commit_run_success id turn a b stamp) =
    IsAtomic s (Lifecycle.commit_run_success id turn a b stamp s)
CallIsAtomic s (fail_run id error_code stamp) =
    IsAtomic s (Lifecycle.fail_run id error_code stamp s)
CallIsAtomic s (cancel_run id worker stamp) = IsAtomic s (Lifecycle.cancel_run id worker stamp s)
CallIsAtomic s (interrupt_worker_runs worker draw) =
    IsAtomic s (Maintenance.interrupt_worker_runs worker draw s)
CallIsAtomic s (reconcile_orphaned_runs worker draw) =
    IsAtomic s (Maintenance.reconcile_orphaned_runs worker draw s)
CallIsAtomic s (prune_stream_events before) = IsAtomic s (Maintenance.prune_stream_events before s)

IsAtomic-ok {ℓ} :
    {A : Type ℓ} (s : MemoryStore) (a : A) (p : Result A × MemoryStore) → p.0 ≡ ok a → IsAtomic s p
IsAtomic-ok s a (ok b, t) e = tt
IsAtomic-ok s a (err f, t) e = absurd (ground arith)

-- `IsAtomic` of each method that changes the store.
pub call-IsAtomic : (s : MemoryStore) (c : Call) → IsValid s → IsFreshSession s c → CallIsAtomic s c
unfolding Maintenance.interrupt_worker_runs Maintenance.reconcile_orphaned_runs
call-IsAtomic s (create_session metadata id user stamp) v f =
    create_session-IsAtomic s v metadata id user stamp
call-IsAtomic s (append_message id role content metadata stamp) v f =
    append_message-IsAtomic s v id role content metadata stamp
call-IsAtomic s (clear_session id now) v f = clear_session-IsAtomic s v id now
call-IsAtomic s (reserve_run q a b) v f = reserve_run-IsAtomic s v q a b f
call-IsAtomic s (mark_run_running id worker stamp) v f =
    mark_run_running-IsAtomic s v id worker stamp
call-IsAtomic s (increment_run_attempt id) v f = increment_run_attempt-IsAtomic s v id
call-IsAtomic s (append_stream_event id type payload stamp) v f =
    append_stream_event-IsAtomic s v id type payload stamp
call-IsAtomic s (commit_run_success id turn a b stamp) v f =
    commit_run_success-IsAtomic s v id turn a b stamp
call-IsAtomic s (fail_run id error_code stamp) v f = fail_run-IsAtomic s v id error_code stamp
call-IsAtomic s (cancel_run id worker stamp) v f = cancel_run-IsAtomic s v id worker stamp
call-IsAtomic s (interrupt_worker_runs worker draw) v f =
    IsAtomic-ok s _ _
      ((interrupt_matching_lem (owned_by worker) draw s v (owned_by-active worker)).0)
call-IsAtomic s (reconcile_orphaned_runs worker draw) v f =
    IsAtomic-ok s _ _
      ((interrupt_matching_lem (orphaned_from worker) draw s v (orphaned_from-active worker)).0)
call-IsAtomic s (prune_stream_events before) v f =
    IsAtomic-ok s _ _ (prune_stream_events-Pruned before s v).0

-- The call returned or raised an application error, and the store is as before in both cases.
abbrev pub IsRead {ℓ} : {A : Type ℓ} → MemoryStore → Result A × MemoryStore → Type 0
IsRead s (ok a, t) = t ≡ s
IsRead s (err (domain e), t) = t ≡ s
IsRead s (err _, t) = ⊥

module _ (s : MemoryStore) (v : IsValid s) (id : String) where
  get_session-IsRead : IsRead s (Sessions.get_session id s)
  unfolding Sessions.get_session session_locked
  get_session-IsRead = elim (Option-cases (get s.sessions id)) [
    | inl n ↦ ground arith
    | inr (x, e) ↦ ground arith
  ]

  list_messages-IsRead : IsRead s (Sessions.list_messages id s)
  unfolding Sessions.list_messages
  list_messages-IsRead = elim (Option-cases (get s.sessions id)) [
    | inl n ↦ ground arith
    | inr (x, e) ↦ let (ms, h) = transcript_of s v id x e in ground arith
  ]

  get_run-IsRead : IsRead s (Runs.get_run id s)
  unfolding Runs.get_run run_locked
  get_run-IsRead = elim (Option-cases (get s.runs id)) [
    | inl n ↦ ground arith
    | inr (x, e) ↦ ground arith
  ]

  list_stream_events-IsRead : (cursor : ℕ) → IsRead s (Lifecycle.list_stream_events id cursor s)
  unfolding Lifecycle.list_stream_events
  list_stream_events-IsRead cursor = elim (Option-cases (get s.runs id)) [
    | inl n ↦ ground arith
    | inr (r, e) ↦ let (es, h) = IsValid-HasEvents s v id r e in ground arith
  ]

-- In a valid store, where the uuid that `reserve_run` draws for a new session names no session yet:
-- each of the thirteen methods that can change sessions, messages, runs, events or keys either
-- returns, or raises an application error and leaves the store exactly as it was; `get_session`,
-- `list_messages`, `get_run` and `list_stream_events` return or raise an application error, and leave
-- the store exactly as it was in both cases. So none of these seventeen raises a `KeyError`.
pub method-IsAtomic :
    (s : MemoryStore) (c : Call) (id : String) (after_sequence : ℕ)
    → IsValid s
    → IsFreshSession s c
    → CallIsAtomic s c
      × IsRead s (Sessions.get_session id s)
      × IsRead s (Sessions.list_messages id s)
      × IsRead s (Runs.get_run id s)
      × IsRead s (Lifecycle.list_stream_events id after_sequence s)
method-IsAtomic s c id after_sequence v f = (
  call-IsAtomic s c v f,
  get_session-IsRead s v id,
  list_messages-IsRead s v id,
  get_run-IsRead s v id,
  list_stream_events-IsRead s v id after_sequence,
)
