-- ===== src/Memory/Calls/Histories.antt =====
-- Over any calls, a run keeps its identity and moves along the state machine only.
use dayu_water_agent.Prelude.{
  ◌≤◌, ◌≤◌, Bool, ◌∙◌, keep_if, String, ◌≡◌, refl, ap, true, Option, some, none, arith, inl, inr,
  Bool-cases, eq_iff,
}
use dayu_water_agent.Dict.{get, put, values}
use dayu_water_agent.Dict.Laws.{get-put}
use dayu_water_agent.Dict.Values.{find_key-keep_if}
use dayu_water_agent.Runtime.Session.{SessionRecord}
use dayu_water_agent.Runtime.State.{RunStatus, is_active, is_terminal, AgentRun}
use dayu_water_agent.Runtime.Transitions.{
  Transition, History, here, next, start, complete, fail_pending, fail_running, cancel_pending,
  cancel_running, interrupt_pending, interrupt_running,
}
use dayu_water_agent.Memory.Store.{MemoryStore, Stamp}
use dayu_water_agent.Memory.Cases.{
  mark_run_running_cases, increment_run_attempt_cases, append_stream_event_cases,
  commit_run_success_cases, fail_run_cases, cancel_run_cases,
}
use dayu_water_agent.Memory.Entries.{
  create_session_cases, append_message_cases, clear_session_cases, enter_run_cases,
  reserve_new_cases, reserve_run_cases, bound, with_session,
}
use dayu_water_agent.Memory.Runs.{known_key, RunRequest, new_run, enter_run}
use dayu_water_agent.Memory.Maintenance.{interrupted_run, owned_by, orphaned_from}
use dayu_water_agent.Memory.Maintenance
use dayu_water_agent.Memory.Interrupts.{
  Interrupted, interrupt_matching_lem, owned_by-active, orphaned_from-active,
}
use dayu_water_agent.Memory.Pruning.{prune_stream_events-Pruned}
use dayu_water_agent.Memory.Invariant.{IsValid}
use dayu_water_agent.Memory.Invariant.Steps.{IsValid-HasEvents}
use dayu_water_agent.Memory.Calls.{
  Call, create_session, append_message, clear_session, reserve_run, mark_run_running,
  increment_run_attempt, append_stream_event, commit_run_success, fail_run, cancel_run,
  interrupt_worker_runs, reconcile_orphaned_runs, prune_stream_events, step, IsFresh, Future, now,
  after,
}
use dayu_water_agent.Memory.Calls.Laws.{step-IsValid}
use dayu_water_agent.Memory.Calls.Lifetimes.{
  Kept, Kept-trans, same-Kept, put-Kept, enter-Kept, active-Later, Later, Later-refl,
}

stopped :
    (a b : RunStatus)
    → is_active a ≡ true
    → Transition RunStatus.pending b
    → Transition RunStatus.running b
    → History a b
unfolding is_active
stopped RunStatus.pending b h p r = next here p
stopped RunStatus.running b h p r = next here r
stopped _ b h p r = cc

interrupted-Later :
    (r : AgentRun) (stamp : Stamp) → is_active r.status ≡ true → Later r (interrupted_run r stamp)
interrupted-Later r stamp a =
    active-Later r _ refl refl refl refl (stopped r.status _ a interrupt_pending interrupt_running)
      (omega arith) a

bound-keys :
    (s t : MemoryStore) (key : Option String) (id : String)
    → t.idempotency ≡ s.idempotency
    → known_key key s ≡ none
    → (other k : String) → get s.idempotency other ≡ some k
    → get (bound t key id).idempotency other ≡ some k
unfolding known_key
bound-keys s t none id e n other k h = rw e h
bound-keys s t (some key) id e n other k h =
    rw e (ground (arith, get-put s.idempotency key other id, eq_iff key other))

runs-bound : (s : MemoryStore) (key : Option String) (id : String) → (bound s key id).runs ≡ s.runs
runs-bound s none id = refl
runs-bound s (some key) id = refl

enter_run-Kept :
    (s t : MemoryStore) (q : RunRequest) (stamp : Stamp) (x : SessionRecord)
    → t.runs ≡ s.runs
    → t.idempotency ≡ s.idempotency
    → get s.runs stamp.id ≡ none
    → known_key q.idempotency_key s ≡ none
    → Kept s (enter_run q stamp x t).1
enter_run-Kept s t q stamp x e f n k = enter_run_cases (Kept s) t (same-Kept s t e f) q stamp x λ _.
    enter-Kept s _ stamp.id (new_run q x.id stamp)
      (runs-bound _ q.idempotency_key stamp.id ∙ ap (λ d. put d stamp.id (new_run q x.id stamp)) e)
      n (bound-keys s _ q.idempotency_key stamp.id f k)

reserve_run-Kept :
    (s : MemoryStore) (q : RunRequest) (session_stamp run_stamp : Stamp)
    → get s.runs run_stamp.id ≡ none
    → Kept s (step s (reserve_run q session_stamp run_stamp))
unfolding step
reserve_run-Kept s q session_stamp run_stamp n =
    reserve_run_cases (Kept s) s q session_stamp run_stamp (same-Kept s s refl refl) λ k.
      reserve_new_cases (Kept s) s q session_stamp run_stamp (same-Kept s s refl refl)
        (λ x _. enter_run-Kept s (with_session s x) q run_stamp x refl refl n k)
        (λ _ x _. enter_run-Kept s s q run_stamp x refl refl n k)

Interrupted-Kept :
    (p : AgentRun → Bool) (draw : String → Stamp) (s t : MemoryStore)
    → IsValid s
    → ((r : AgentRun) → p r ≡ true → is_active r.status ≡ true)
    → Interrupted draw (keep_if p (values s.runs)) s t
    → Kept s t
Interrupted-Kept p draw s t v only loop = record {
  runs = λ k r e.
      let keyed = λ (k : String) (r : AgentRun) (e : get s.runs k ≡ some r). v.run_key k r e in
      let found = find_key-keep_if (λ r. r.id) p s.runs k v.distinct_runs keyed in
      elim (Bool-cases (p r)) [
        | inl y ↦ (
          interrupted_run r (draw r.id),
          ground (arith, loop.runs k, found),
          interrupted-Later r (draw r.id) (only r y),
        )
        | inr n ↦ (r, ground (arith, loop.runs k, found), Later-refl r)
      ];
  keys = λ key k h. rw loop.idempotency h;
}

-- Whatever a call does, returning or raising, every run lives on and every key stays bound.
pub step-Kept : (s : MemoryStore) (c : Call) → IsFresh s c → IsValid s → Kept s (step s c)
unfolding step
step-Kept s (create_session metadata id user stamp) f v =
    create_session_cases (Kept s) s (same-Kept s s refl refl) metadata id user stamp
      λ x _. same-Kept s _ refl refl
step-Kept s (append_message id role content metadata stamp) f v =
    append_message_cases (Kept s) s (same-Kept s s refl refl) id role content metadata stamp
      λ x ms _ _ _. same-Kept s _ refl refl
step-Kept s (clear_session id time) f v =
    clear_session_cases (Kept s) s (same-Kept s s refl refl) id time
      λ x ms _ _ _. same-Kept s _ refl refl
step-Kept s (reserve_run q session_stamp run_stamp) f v =
    unfold step in reserve_run-Kept s q session_stamp run_stamp f
step-Kept s (mark_run_running id worker stamp) f v =
    mark_run_running_cases (Kept s) s (IsValid-HasEvents s v) (same-Kept s s refl refl) id worker
      stamp
      λ r es e _ p. put-Kept s _ id r _ refl refl e (
        active-Later r _ refl refl refl refl (rw p (next here start)) (omega arith)
          (unfold is_active in rw p refl))
step-Kept s (increment_run_attempt id) f v =
    increment_run_attempt_cases (Kept s) s (IsValid-HasEvents s v) (same-Kept s s refl refl) id
      λ r e a.
        put-Kept s _ id r _ refl refl e (active-Later r _ refl refl refl refl here (omega arith) a)
step-Kept s (append_stream_event id type payload stamp) f v =
    append_stream_event_cases (Kept s) s (IsValid-HasEvents s v) (same-Kept s s refl refl) id type
      payload stamp λ r es _ _. same-Kept s _ refl refl
step-Kept s (commit_run_success id turn a b stamp) f v =
    commit_run_success_cases (Kept s) s (IsValid-HasEvents s v) (same-Kept s s refl refl) id turn a
      b stamp
      λ r es x ms e _ _ _ p. put-Kept s _ id r _ refl refl e (
        active-Later r _ refl refl refl refl (rw p (next here complete)) (omega arith)
          (unfold is_active in rw p refl))
step-Kept s (fail_run id error_code stamp) f v =
    fail_run_cases (Kept s) s (IsValid-HasEvents s v) (same-Kept s s refl refl) id error_code stamp
      λ r es e _ a. put-Kept s _ id r _ refl refl e (
        active-Later r _ refl refl refl refl (stopped r.status _ a fail_pending fail_running)
          (omega arith) a)
step-Kept s (cancel_run id worker stamp) f v =
    cancel_run_cases (Kept s) s (IsValid-HasEvents s v) (same-Kept s s refl refl) id worker stamp
      λ r es e _ a _. put-Kept s _ id r _ refl refl e (
        active-Later r _ refl refl refl refl (stopped r.status _ a cancel_pending cancel_running)
          (omega arith) a)
step-Kept s (interrupt_worker_runs worker draw) f v =
    unfold Maintenance.interrupt_worker_runs in
    Interrupted-Kept (owned_by worker) draw s _ v (owned_by-active worker)
      (interrupt_matching_lem (owned_by worker) draw s v (owned_by-active worker)).1
step-Kept s (reconcile_orphaned_runs worker draw) f v =
    unfold Maintenance.reconcile_orphaned_runs in
    Interrupted-Kept (orphaned_from worker) draw s _ v (orphaned_from-active worker)
      (interrupt_matching_lem (orphaned_from worker) draw s v (orphaned_from-active worker)).1
step-Kept s (prune_stream_events before) f v =
    let loop = (prune_stream_events-Pruned before s v).1 in same-Kept s _ loop.runs loop.idempotency

pub Future-IsValid : {s t : MemoryStore} → Future s t → IsValid s → IsValid t
Future-IsValid now v = v
Future-IsValid (after p c f) v = step-IsValid _ c f (Future-IsValid p v)

pub Future-Kept : {s t : MemoryStore} → Future s t → IsValid s → Kept s t
Future-Kept {s} now v = same-Kept s s refl refl
Future-Kept {s} (after {t} p c f) v =
    Kept-trans s t _ (Future-Kept p v) (step-Kept t c f (Future-IsValid p v))

-- Whatever calls follow, each run under a fresh id, a run in a valid store stays in it, with its
-- id, session, key and request hash; its status moves along the state machine only, and its
-- attempts are never counted down.
pub Future-run :
    (s t : MemoryStore) (k : String) (r : AgentRun)
    → IsValid s
    → Future s t
    → get s.runs k ≡ some r
    → (r' : AgentRun) × (get t.runs k ≡ some r')
      × History r.status r'.status
      × (r.attempt_count ≤ r'.attempt_count)
      × (r'.id ≡ r.id)
      × (r'.session_id ≡ r.session_id)
      × (r'.idempotency_key ≡ r.idempotency_key)
      × (r'.request_hash ≡ r.request_hash)
Future-run s t k r v f e =
    let (r', there, later) = (Future-Kept f v).runs k r e in
    (r', there, later.history, later.attempts, later.id, later.session, later.key, later.hash)

-- A finished run in a valid store stays exactly as it is, whatever calls follow.
Future-terminal :
    (s t : MemoryStore) (k : String) (r : AgentRun)
    → IsValid s
    → Future s t
    → get s.runs k ≡ some r
    → is_terminal r.status ≡ true
    → get t.runs k ≡ some r
Future-terminal s t k r v f e done =
    let (r', there, later) = (Future-Kept f v).runs k r e in there ∙ ap some (later.final done)
