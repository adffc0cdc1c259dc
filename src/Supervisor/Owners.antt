-- ===== src/Supervisor/Owners.antt =====
-- What the calls of a supervisor leave of the runs: each lives on, and belongs to the same worker.
use dayu_water_agent.Prelude.{
  String, ◌≡◌, refl, ◌∙◌, ap, sym, Bool, some, arith, inl, inr, Bool-cases, Option-cases, keep_if,
  eq_iff, ◌==◌,
}
use dayu_water_agent.Dict.{get, put, values}
use dayu_water_agent.Dict.Laws.{get-put}
use dayu_water_agent.Dict.Values.{find_key-keep_if}
use dayu_water_agent.Runtime.State.{AgentRun}
use dayu_water_agent.Memory.Store.{MemoryStore, Stamp}
use dayu_water_agent.Memory.Cases.{
  mark_run_running_cases, increment_run_attempt_cases, append_stream_event_cases,
  commit_run_success_cases, fail_run_cases, cancel_run_cases,
}
use dayu_water_agent.Memory.Entries.{
  create_session_cases, append_message_cases, clear_session_cases,
}
use dayu_water_agent.Memory.Lifecycle
use dayu_water_agent.Memory.Maintenance
use dayu_water_agent.Memory.Maintenance.{interrupted_run, owned_by, orphaned_from}
use dayu_water_agent.Memory.Interrupts.{
  Interrupted, interrupt_matching_lem, owned_by-active, orphaned_from-active,
}
use dayu_water_agent.Memory.Pruning.{prune_stream_events-Pruned}
use dayu_water_agent.Memory.Invariant.{IsValid}
use dayu_water_agent.Memory.Invariant.Steps.{IsValid-HasEvents}
use dayu_water_agent.Memory.Calls.{
  Call, create_session, append_message, clear_session, reserve_run, mark_run_running,
  increment_run_attempt, append_stream_event, commit_run_success, fail_run, cancel_run,
  interrupt_worker_runs, reconcile_orphaned_runs, prune_stream_events, step, IsFresh,
}
use dayu_water_agent.Memory.Calls.Laws.{step-IsValid}
use dayu_water_agent.Memory.Calls.Lifetimes.{Kept}
use dayu_water_agent.Memory.Calls.Histories.{step-Kept}
use dayu_water_agent.Supervisor.Tasks.{IsMinor}

-- Every run of `t` was in `s`, with the same worker.
pub record SameOwners (s t : MemoryStore) : Type 0 where
  pub owner :
      (k : String) (r' : AgentRun)
      → get t.runs k ≡ some r'
      → (r : AgentRun) × (get s.runs k ≡ some r) × (r'.worker_instance_id ≡ r.worker_instance_id)

pub same-SameOwners : (s t : MemoryStore) → t.runs ≡ s.runs → SameOwners s t
same-SameOwners s t e = record { owner = λ k r' h. (r', ap (λ d. get d k) (sym e) ∙ h, refl) }

put-SameOwners :
    (s t : MemoryStore) (id : String) (r r' : AgentRun)
    → t.runs ≡ put s.runs id r'
    → get s.runs id ≡ some r
    → r'.worker_instance_id ≡ r.worker_instance_id
    → SameOwners s t
put-SameOwners s t id r r' e at same = record {
  owner = λ k x h. elim (Bool-cases (id == k)) [
    | inl y ↦ (r, ground (arith, at, eq_iff id k), ground (arith, h, e, get-put s.runs id k r'))
    | inr n ↦ (x, ground (arith, h, e, get-put s.runs id k r'), refl)
  ];
}

Interrupted-SameOwners :
    (p : AgentRun → Bool) (draw : String → Stamp) (s t : MemoryStore)
    → IsValid s
    → Interrupted draw (keep_if p (values s.runs)) s t
    → SameOwners s t
Interrupted-SameOwners p draw s t v loop = record {
  owner = λ k r' h.
      let keyed = λ (k : String) (r : AgentRun) (e : get s.runs k ≡ some r). v.run_key k r e in
      let found = find_key-keep_if (λ r. r.id) p s.runs k v.distinct_runs keyed in
      elim (Option-cases (get s.runs k)) [
        | inl n ↦ absurd (ground (arith, loop.runs k, found, n, h))
        | inr (r, e) ↦ elim (Bool-cases (p r)) [
          | inl y ↦ (r, e, ground (arith, loop.runs k, found, e, h, y))
          | inr n ↦ (r, e, ground (arith, loop.runs k, found, e, h, n))
        ]
      ];
}

pub step-SameOwners : (s : MemoryStore) (c : Call) → IsMinor c → IsValid s → SameOwners s (step s c)
unfolding step
step-SameOwners s (create_session metadata id user stamp) m v =
    create_session_cases (SameOwners s) s (same-SameOwners s s refl) metadata id user stamp
      λ x _. same-SameOwners s _ refl
step-SameOwners s (append_message id role content metadata stamp) m v =
    append_message_cases (SameOwners s) s (same-SameOwners s s refl) id role content metadata stamp
      λ x ms _ _ _. same-SameOwners s _ refl
step-SameOwners s (clear_session id time) m v =
    clear_session_cases (SameOwners s) s (same-SameOwners s s refl) id time
      λ x ms _ _ _. same-SameOwners s _ refl
step-SameOwners s (reserve_run q a b) m v = absurd m
step-SameOwners s (mark_run_running id worker stamp) m v = absurd m
step-SameOwners s (increment_run_attempt id) m v =
    increment_run_attempt_cases (SameOwners s) s (IsValid-HasEvents s v) (same-SameOwners s s refl)
      id λ r e a. put-SameOwners s _ id r _ refl e refl
step-SameOwners s (append_stream_event id type payload stamp) m v =
    append_stream_event_cases (SameOwners s) s (IsValid-HasEvents s v) (same-SameOwners s s refl) id
      type payload stamp λ r es _ _. same-SameOwners s _ refl
step-SameOwners s (commit_run_success id turn a b stamp) m v =
    commit_run_success_cases (SameOwners s) s (IsValid-HasEvents s v) (same-SameOwners s s refl) id
      turn a b stamp λ r es x ms e _ _ _ p. put-SameOwners s _ id r _ refl e refl
step-SameOwners s (fail_run id error_code stamp) m v =
    fail_run_cases (SameOwners s) s (IsValid-HasEvents s v) (same-SameOwners s s refl) id error_code
      stamp λ r es e _ a. put-SameOwners s _ id r _ refl e refl
step-SameOwners s (cancel_run id worker stamp) m v =
    cancel_run_cases (SameOwners s) s (IsValid-HasEvents s v) (same-SameOwners s s refl) id worker
      stamp λ r es e _ a _. put-SameOwners s _ id r _ refl e refl
step-SameOwners s (interrupt_worker_runs worker draw) m v =
    unfold Maintenance.interrupt_worker_runs in
    Interrupted-SameOwners (owned_by worker) draw s _ v
      (interrupt_matching_lem (owned_by worker) draw s v (owned_by-active worker)).1
step-SameOwners s (reconcile_orphaned_runs worker draw) m v =
    unfold Maintenance.reconcile_orphaned_runs in
    Interrupted-SameOwners (orphaned_from worker) draw s _ v
      (interrupt_matching_lem (orphaned_from worker) draw s v (orphaned_from-active worker)).1
step-SameOwners s (prune_stream_events before) m v =
    same-SameOwners s _ (prune_stream_events-Pruned before s v).1.runs

-- What a supervisor's call makes of a valid store.
pub record Advance (s t : MemoryStore) : Type 0 where
  pub valid : IsValid t
  pub kept : Kept s t
  pub owners : SameOwners s t

minor-IsFresh : (s : MemoryStore) (c : Call) → IsMinor c → IsFresh s c
minor-IsFresh s (reserve_run q a b) m = absurd m
minor-IsFresh s _ m = tt

pub step-Advance : (s : MemoryStore) (c : Call) → IsMinor c → IsValid s → Advance s (step s c)
step-Advance s c m v = record {
  valid = step-IsValid s c (minor-IsFresh s c m) v;
  kept = step-Kept s c (minor-IsFresh s c m) v;
  owners = step-SameOwners s c m v;
}

-- The start of a run by its own worker.
pub mark_run_running-Advance :
    (s : MemoryStore) (id worker : String) (stamp : Stamp) (r : AgentRun)
    → IsValid s
    → get s.runs id ≡ some r
    → r.worker_instance_id ≡ worker
    → Advance s (Lifecycle.mark_run_running id worker stamp s).1
mark_run_running-Advance s id worker stamp r v at own = record {
  valid = unfold step in step-IsValid s (mark_run_running id worker stamp) tt v;
  kept = unfold step in step-Kept s (mark_run_running id worker stamp) tt v;
  owners =
      mark_run_running_cases (SameOwners s) s (IsValid-HasEvents s v) (same-SameOwners s s refl) id
        worker stamp λ r' es e _ p. put-SameOwners s _ id r' _ refl e (ground (arith, at, e, own));
}
