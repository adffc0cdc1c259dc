-- ===== src/Supervisor/Moves.antt =====
-- A cancellation, a stop and a start of the supervisor keep its runs and its tasks together.
use dayu_water_agent.Prelude.{
  String, ◌≡◌, refl, true, false, Option, none, some, arith, inl, inr, Bool-cases, Option-cases,
  eq_iff, ℕ, ◌-◌, ◌*◌,
}
use dayu_water_agent.Dict.{Dict, get}
use dayu_water_agent.Dict.Values.{find_key-keep_if}
use dayu_water_agent.Errors.{Result, ok, err}
use dayu_water_agent.Runtime.State.{
  is_active, is_terminal, AgentRun, CancelResult, same_status, cancelled,
}
use dayu_water_agent.Runtime.Transitions.{active-not-terminal}
use dayu_water_agent.Memory.Store.{MemoryStore, Stamp}
use dayu_water_agent.Memory.Lifecycle.{cancel_run}
use dayu_water_agent.Memory.Maintenance.{
  interrupted_run, owned_by, interrupt_worker_runs, reconcile_orphaned_runs, prune_stream_events,
}
use dayu_water_agent.Memory.Interrupts.{interrupt_matching_lem, owned_by-active}
use dayu_water_agent.Memory.Invariant.{IsValid}
use dayu_water_agent.Memory.Calls.{Call, step}
use dayu_water_agent.Memory.Contract.Cancellation.{settled_run}
use dayu_water_agent.Supervisor.Agent.{
  Host, Task, SupervisorAgent, cancel_task, signalled, cancel_outcome, cancel, shutdown, stopped,
  initialize, reconciled, pruned,
}
use dayu_water_agent.Supervisor.Starts.{OwnedBy}
use dayu_water_agent.Supervisor.Owners.{step-Advance}
use dayu_water_agent.Supervisor.Custody.{
  IsOwned, Advance-IsOwned, retask-IsOwned, cancel_all-IsOwned,
}

-- A run that is finished is not active.
pub finished-idle :
    (s : MemoryStore) (id : String) (r r' : AgentRun)
    → get s.runs id ≡ some r
    → is_terminal r.status ≡ true
    → get s.runs id ≡ some r'
    → is_active r'.status ≡ false
finished-idle s id r r' at done at' =
    let same : r ≡ r' = ground (arith, at, at') in
    rw (← same) (ground (arith, active-not-terminal r.status, done))

-- The ready flag of the store is no part of what is kept.
pub ready-IsValid : (s : MemoryStore) → IsValid s → IsValid (record s { ready = true })
ready-IsValid s v = record {
  distinct_runs = v.distinct_runs;
  distinct_events = v.distinct_events;
  session_key = v.session_key;
  run_key = v.run_key;
  has_messages = v.has_messages;
  has_events = v.has_events;
  has_session = v.has_session;
  single_active = v.single_active;
  idempotent = v.idempotent;
  fields = v.fields;
  transcripts = v.transcripts;
  streams = v.streams;
}

module _ (h : Host) where
  signalled-IsOwned :
      (id : String) (s : MemoryStore) (tasks : Dict Task) (o : Option Task)
      → get tasks id ≡ o
      → ((r : AgentRun) → get s.runs id ≡ some r → is_terminal r.status ≡ true)
      → IsOwned h.worker_instance_id s tasks
      → IsOwned h.worker_instance_id s (signalled tasks id o)
  signalled-IsOwned id s tasks none e done v = v
  signalled-IsOwned id s tasks (some t) e done v =
      retask-IsOwned h.worker_instance_id s tasks id t (cancel_task t) e
        (λ r at active. absurd (ground (arith, active-not-terminal r.status, done r at, active)))
        (λ r at c. done r at) v

  cancel_outcome-IsOwned :
      (id : String) (a : SupervisorAgent) (out : Result CancelResult × MemoryStore)
      → ((outcome : CancelResult)
          → out.0 ≡ ok outcome
          → (r : AgentRun) → get out.1.runs id ≡ some r
          → is_terminal r.status ≡ true)
      → IsOwned h.worker_instance_id out.1 a.tasks
      → OwnedBy h (cancel_outcome id a out).1
  cancel_outcome-IsOwned id a (err f, s) done o = o
  cancel_outcome-IsOwned id a (ok outcome, s) done o =
      elim (Bool-cases (same_status outcome.run.status cancelled)) [
        | inl y ↦ rw y (signalled-IsOwned id s a.tasks (get a.tasks id) refl (done outcome refl) o)
        | inr n ↦ rw n o
      ]

  pub cancel-IsOwned :
      (id : String) (stamp : Stamp) (a : SupervisorAgent)
      → OwnedBy h a
      → OwnedBy h (cancel h id stamp a).1
  unfolding cancel
  cancel-IsOwned id stamp a o =
      let w = h.worker_instance_id in
      let s = a.session_store in
      let out = cancel_run id w stamp s in
      cancel_outcome-IsOwned id a out
        (λ outcome e r at.
          let (there, done) = settled_run s id w stamp outcome o.valid e in
          let same : outcome.run ≡ r = ground (arith, there, at) in rw (← same) done)
        (Advance-IsOwned w s out.1 a.tasks
          (unfold step in step-Advance s (Call.cancel_run id w stamp) tt o.valid) o)

  -- After the sweep of a worker's runs none of them is active.
  pub swept-idle :
      (s : MemoryStore) (draw : String → Stamp) (k : String) (r' : AgentRun)
      → IsValid s
      → get (interrupt_worker_runs h.worker_instance_id draw s).1.runs k ≡ some r'
      → r'.worker_instance_id ≡ h.worker_instance_id
      → is_active r'.status ≡ false
  unfolding interrupt_worker_runs is_active
  swept-idle s draw k r' v at own =
      let w = h.worker_instance_id in
      let p = owned_by w in
      let loop = (interrupt_matching_lem p draw s v (owned_by-active w)).1 in
      let keyed = λ (k : String) (r : AgentRun) (e : get s.runs k ≡ some r). v.run_key k r e in
      let found = find_key-keep_if (λ r. r.id) p s.runs k v.distinct_runs keyed in
      elim (Option-cases (get s.runs k)) [
        | inl n ↦ absurd (ground (arith, loop.runs k, found, n, at))
        | inr (r, e) ↦ elim (Bool-cases (p r)) [
          | inl y ↦
              let same : r' ≡ interrupted_run r (draw r.id) =
                ground (arith, loop.runs k, found, e, at, y) in
              rw same refl
          | inr n ↦
              let same : r' ≡ r = ground (arith, loop.runs k, found, e, at, n) in
              ground (arith, same, own, n, eq_iff r.worker_instance_id w)
        ]
      ]

  stopped-IsOwned :
      (a : SupervisorAgent) (out : Result ℕ × MemoryStore)
      → ((k : String) (r : AgentRun)
          → get out.1.runs k ≡ some r
          → r.worker_instance_id ≡ h.worker_instance_id
          → is_active r.status ≡ false)
      → IsOwned h.worker_instance_id out.1 a.tasks
      → OwnedBy h (stopped a out).1
  stopped-IsOwned a (err f, s) idle o = o
  stopped-IsOwned a (ok n, s) idle o = cancel_all-IsOwned h.worker_instance_id s a.tasks idle o

  pub shutdown-IsOwned :
      (draw : String → Stamp) (a : SupervisorAgent) → OwnedBy h a → OwnedBy h (shutdown h draw a).1
  unfolding shutdown
  shutdown-IsOwned draw a o =
      let w = h.worker_instance_id in
      let s = a.session_store in
      stopped-IsOwned a (interrupt_worker_runs w draw s)
        (λ k r at own. swept-idle s draw k r o.valid at own)
        (Advance-IsOwned w s (interrupt_worker_runs w draw s).1 a.tasks
          (unfold step in step-Advance s (Call.interrupt_worker_runs w draw) tt o.valid) o)

  ready-IsOwned :
      (s : MemoryStore) (tasks : Dict Task)
      → IsOwned h.worker_instance_id s tasks
      → IsOwned h.worker_instance_id (record s { ready = true }) tasks
  ready-IsOwned s tasks o = record {
    valid = ready-IsValid s o.valid;
    distinct = o.distinct;
    owned = o.owned;
    fits = o.fits;
  }

  pruned-IsOwned :
      (a : SupervisorAgent) (n : ℕ) (out : Result ℕ × MemoryStore)
      → IsOwned h.worker_instance_id out.1 a.tasks
      → OwnedBy h (pruned a n out).1
  pruned-IsOwned a n (err f, s) o = o
  pruned-IsOwned a n (ok _, s) o = o

  reconciled-IsOwned :
      (before : ℕ) (a : SupervisorAgent) (out : Result ℕ × MemoryStore)
      → IsOwned h.worker_instance_id out.1 a.tasks
      → OwnedBy h (reconciled before a out).1
  reconciled-IsOwned before a (err f, s) o = o
  reconciled-IsOwned before a (ok n, s) o = pruned-IsOwned a n (prune_stream_events before s) (
      Advance-IsOwned h.worker_instance_id s (prune_stream_events before s).1 a.tasks
        (unfold step in step-Advance s (Call.prune_stream_events before) tt o.valid) o)

  pub initialize-IsOwned :
      (draw : String → Stamp) (now : ℕ) (a : SupervisorAgent)
      → OwnedBy h a
      → OwnedBy h (initialize h draw now a).1
  unfolding initialize
  initialize-IsOwned draw now a o =
      let w = h.worker_instance_id in
      let s = record a.session_store { ready = true } in
      let o' = ready-IsOwned a.session_store a.tasks o in
      reconciled-IsOwned (now - h.stream_event_retention_seconds * h.second) a
        (reconcile_orphaned_runs w draw s)
        (Advance-IsOwned w s (reconcile_orphaned_runs w draw s).1 a.tasks
          (unfold step in step-Advance s (Call.reconcile_orphaned_runs w draw) tt o'.valid) o')
