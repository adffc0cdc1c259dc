-- ===== src/Supervisor/Recovery.antt =====
-- What `initialize` of the supervisor leaves behind.
use dayu_water_agent.Prelude.{
  ℕ, ◌-◌, ◌*◌, String, ◌≡◌, refl, ◌∙◌, ap, sym, true, false, some, arith, inl, inr, Bool-cases,
  keep_if, length, eq_iff, ◌==◌, if◌then◌else◌,
}
use dayu_water_agent.Dict.{get, values}
use dayu_water_agent.Errors.{Result, ok, err}
use dayu_water_agent.Runtime.State.{is_active, AgentRun}
use dayu_water_agent.Memory.Store.{MemoryStore, Stamp}
use dayu_water_agent.Memory.Maintenance.{
  interrupted_run, orphaned_from, reconcile_orphaned_runs, prune_stream_events,
}
use dayu_water_agent.Memory.Interrupts.{
  interrupt_matching_lem, reconcile_orphaned_runs-Swept, orphaned_from-active,
}
use dayu_water_agent.Memory.Pruning.{prune_stream_events-Pruned}
use dayu_water_agent.Memory.Invariant.{IsValid}
use dayu_water_agent.Memory.Invariant.Steps.{IsValid-HasEvents}
use dayu_water_agent.Memory.Calls.{Call, step}
use dayu_water_agent.Supervisor.Agent.{Host, SupervisorAgent, initialize, reconciled, pruned}
use dayu_water_agent.Supervisor.Owners.{Advance, step-Advance}
use dayu_water_agent.Supervisor.Moves.{ready-IsValid}

-- From `a` the supervisor came to `b`, which takes requests, and where the other workers have no
-- pending or running run. Its own runs and its tasks are those of `a`.
pub record IsRecovered (h : Host) (a b : SupervisorAgent) : Type 0 where
  pub accepts : b.accepting ≡ true
  pub tasks : b.tasks ≡ a.tasks
  pub idle :
      (k : String) (r : AgentRun)
      → get b.session_store.runs k ≡ some r
      → (r.worker_instance_id == h.worker_instance_id) ≡ false
      → is_active r.status ≡ false
  pub own :
      (k : String) (r : AgentRun)
      → get a.session_store.runs k ≡ some r
      → r.worker_instance_id ≡ h.worker_instance_id
      → get b.session_store.runs k ≡ some r

module _ (h : Host) (draw : String → Stamp) (s : MemoryStore) (v : IsValid s) where
  abbrev w : String
  w = h.worker_instance_id

  abbrev after : MemoryStore
  after = (reconcile_orphaned_runs w draw s).1

  reconciled-Advance : Advance s after
  unfolding step
  reconciled-Advance = step-Advance s (Call.reconcile_orphaned_runs w draw) tt v

  swept_run :
      (k : String) (r : AgentRun)
      → get s.runs k ≡ some r
      → get after.runs k ≡ some (if orphaned_from w r then interrupted_run r (draw k) else r)
  swept_run k r e =
      let (es, f) = IsValid-HasEvents s v k r e in
      (reconcile_orphaned_runs-Swept s w draw k r es v e f).1.0

  swept_others :
      (k : String) (r' : AgentRun)
      → get after.runs k ≡ some r'
      → (r'.worker_instance_id == w) ≡ false
      → is_active r'.status ≡ false
  unfolding is_active
  swept_others k r' at other =
      let adv = reconciled-Advance in
      let (r, e, same) = adv.owners.owner k r' at in
      elim (Bool-cases (orphaned_from w r)) [
        | inl y ↦
            let one : r' ≡ interrupted_run r (draw k) = ground (arith, swept_run k r e, at, y) in
            rw one refl
        | inr n ↦
            let one : r' ≡ r = ground (arith, swept_run k r e, at, n) in
            ground (arith, one, other, n)
      ]

  kept_own :
      (k : String) (r : AgentRun)
      → get s.runs k ≡ some r
      → r.worker_instance_id ≡ w
      → get after.runs k ≡ some r
  kept_own k r e own = ground (arith, swept_run k r e, own, eq_iff r.worker_instance_id w)

pruned-IsRecovered :
    (h : Host) (a : SupervisorAgent) (n removed : ℕ) (out : Result ℕ × MemoryStore)
    (t : MemoryStore)
    → out.0 ≡ ok removed
    → out.1.runs ≡ t.runs
    → IsRecovered h a (record a { session_store = t; accepting = true })
    → ((pruned a n out).0 ≡ ok n) × IsRecovered h a (pruned a n out).1
pruned-IsRecovered h a n removed (err f, s) t e same r = absurd (ground (arith, e))
pruned-IsRecovered h a n removed (ok m, s) t e same r = (
  refl,
  record {
    accepts = refl;
    tasks = refl;
    idle = λ k x at. r.idle k x (ap (λ d. get d k) (sym same) ∙ at);
    own = λ k x at mine. ap (λ d. get d k) same ∙ r.own k x at mine;
  },
)

reconciled-IsRecovered :
    (h : Host) (before : ℕ) (a : SupervisorAgent) (out : Result ℕ × MemoryStore) (n : ℕ)
    → out.0 ≡ ok n
    → IsValid out.1
    → IsRecovered h a (record a { session_store = out.1; accepting = true })
    → ((reconciled before a out).0 ≡ ok n) × IsRecovered h a (reconciled before a out).1
reconciled-IsRecovered h before a (err f, s) n e v r = absurd (ground (arith, e))
reconciled-IsRecovered h before a (ok m, s) n e v r =
    let (fine, loop) = prune_stream_events-Pruned before s v in
    let (count, recovered) =
      pruned-IsRecovered h a m _ (prune_stream_events before s) s fine loop.runs r in
    (count ∙ e, recovered)

-- In a valid store, `initialize` counts the pending and running runs of the workers with another id,
-- whether such a worker has ended or still runs on the same store. After it requests are taken, no
-- other worker has a pending or running run, and the runs and the tasks of this worker are as before.
pub initialize-IsRecovered :
    (h : Host) (draw : String → Stamp) (now : ℕ) (a : SupervisorAgent)
    → IsValid a.session_store
    → ((initialize h draw now a).0
        ≡ ok (length (keep_if (orphaned_from h.worker_instance_id) (values a.session_store.runs))))
      × IsRecovered h a (initialize h draw now a).1
unfolding initialize
initialize-IsRecovered h draw now a v =
    let w = h.worker_instance_id in
    let s = record a.session_store { ready = true } in
    let v' = ready-IsValid a.session_store v in
    let adv = reconciled-Advance h draw s v' in
    let (fine, _) = interrupt_matching_lem (orphaned_from w) draw s v' (orphaned_from-active w) in
    reconciled-IsRecovered h (now - h.stream_event_retention_seconds * h.second) a
      (reconcile_orphaned_runs w draw s) _ (unfold reconcile_orphaned_runs in fine) adv.valid
      (record {
        accepts = refl;
        tasks = refl;
        idle = swept_others h draw s v';
        own = kept_own h draw s v';
      })
