-- ===== src/Memory/Interrupts.antt =====
-- `interrupt_worker_runs` and `reconcile_orphaned_runs`: which runs the loop interrupts.
use dayu_water_agent.Prelude.{
  All, ℕ, ◌+◌, String, ◌≡◌, refl, Bool, true, Option, some, none, List, [], ◌∷◌, ◌++◌, arith,
  length, inl, inr, Bool-cases, eq_iff, keep_if, first_if, if◌then◌else◌,
}
use dayu_water_agent.Dict.{get, values}
use dayu_water_agent.Dict.Laws.{get-put}
use dayu_water_agent.Dict.Values.{
  get-values, find_key, UniqueKeys, find_key-keep_if, UniqueKeys-keep_if,
}
use dayu_water_agent.Errors.{ok}
use dayu_water_agent.Runtime.State.{is_active, run_interrupted, interrupted, AgentRun, StreamEvent}
use dayu_water_agent.Memory.Store.{MemoryStore, Stamp, new_event}
use dayu_water_agent.Memory.Lifecycle.{status_payload}
use dayu_water_agent.Memory.Maintenance.{
  interrupt_locked, interrupted_run, interrupt_all, interrupt_matching, owned_by, orphaned_from,
  interrupt_worker_runs, reconcile_orphaned_runs,
}
use dayu_water_agent.Memory.Cases.{advanced}
use dayu_water_agent.Memory.Invariant.{IsValid}
use dayu_water_agent.Memory.Invariant.Steps.{IsValid-HasEvents, interrupt_locked-IsValid}

-- The store after one round of the loop.
abbrev pub after_interrupt : MemoryStore → AgentRun → List StreamEvent → Stamp → MemoryStore
after_interrupt s run es stamp =
    advanced s run.id (interrupted_run run stamp) es run_interrupted (status_payload interrupted)
      stamp

abbrev interruption : AgentRun → Stamp → ℕ → StreamEvent
interruption run stamp n = new_event run.id run_interrupted (status_payload interrupted) stamp n

interrupt_locked_lem :
    (s : MemoryStore) (run : AgentRun) (es : List StreamEvent) (stamp : Stamp)
    → is_active run.status ≡ true
    → get s.events run.id ≡ some es
    → interrupt_locked run stamp s
      ≡ (ok (interruption run stamp (length es + 1)), after_interrupt s run es stamp)
unfolding interrupt_locked is_active
interrupt_locked_lem s run es stamp a h = ground arith

-- The snapshot still shows what the store holds.
abbrev Current : MemoryStore → List AgentRun → Type 0
Current s [] = Unit
Current s (r ∷ rs) = (get s.runs r.id ≡ some r) × (is_active r.status ≡ true) × Current s rs

Current-after :
    (s : MemoryStore) (run : AgentRun) (es : List StreamEvent) (stamp : Stamp) (rs : List AgentRun)
    → find_key (λ r. r.id) run.id rs ≡ none
    → Current s rs
    → Current (after_interrupt s run es stamp) rs
unfolding first_if
Current-after s run es stamp [] n c = tt
Current-after s run es stamp (r ∷ rs) n c = (
  ground (
    arith,
    get-put s.runs run.id r.id (interrupted_run run stamp),
    eq_iff run.id r.id,
    eq_iff r.id run.id,
  ),
  c.1,
  Current-after s run es stamp rs (ground arith) c.2,
)

-- What the loop over `rs` makes of the run, and of the stream, that a key reads.
abbrev pub interrupted_in : (String → Stamp) → Option AgentRun → Option AgentRun → Option AgentRun
interrupted_in draw none old = old
interrupted_in draw (some r) old = some (interrupted_run r (draw r.id))

abbrev pub closed_in :
    (String → Stamp) → Option AgentRun → Option (List StreamEvent) → Option (List StreamEvent)
closed_in draw none old = old
closed_in draw (some r) none = none
closed_in draw (some r) (some es) = some (es ++ interruption r (draw r.id) (length es + 1) ∷ [])

pub record Interrupted (draw : String → Stamp) (rs : List AgentRun) (s t : MemoryStore)
    : Type 0 where
  pub runs :
      (k : String) → get t.runs k ≡ interrupted_in draw (find_key (λ r. r.id) k rs) (get s.runs k)
  pub events :
      (k : String) → get t.events k ≡ closed_in draw (find_key (λ r. r.id) k rs) (get s.events k)
  pub sessions : t.sessions ≡ s.sessions
  pub messages : t.messages ≡ s.messages
  pub idempotency : t.idempotency ≡ s.idempotency
  pub valid : IsValid t

interrupt_all_lem :
    (draw : String → Stamp) (rs : List AgentRun) (s : MemoryStore)
    → IsValid s
    → Current s rs
    → UniqueKeys (λ r. r.id) rs
    → ((interrupt_all draw rs s).0 ≡ ok tt) × Interrupted draw rs s (interrupt_all draw rs s).1
unfolding interrupt_all first_if
interrupt_all_lem draw [] s v c u = (
  refl,
  record {
    runs = λ k. refl;
    events = λ k. refl;
    sessions = refl;
    messages = refl;
    idempotency = refl;
    valid = v;
  },
)
interrupt_all_lem draw (r ∷ rs) s v c u =
    let (es, h) = IsValid-HasEvents s v r.id r c.0 in
    let step = interrupt_locked_lem s r es (draw r.id) c.1 h in
    let t = after_interrupt s r es (draw r.id) in
    let valid : IsValid t = rw step at (interrupt_locked-IsValid s v r (draw r.id) c.0 c.1) in
    let (fine, after) =
      interrupt_all_lem draw rs t valid (Current-after s r es (draw r.id) rs u.0 c.2) u.1 in
    rw step (
      fine,
      record {
        runs = λ k. ground (
          arith,
          after.runs k,
          get-put s.runs r.id k (interrupted_run r (draw r.id)),
          eq_iff r.id k,
        );
        events = λ k. ground (
          arith,
          after.events k,
          get-put s.events r.id k (es ++ interruption r (draw r.id) (length es + 1) ∷ []),
          eq_iff r.id k,
        );
        sessions = after.sessions;
        messages = after.messages;
        idempotency = after.idempotency;
        valid = after.valid;
      },
    )

Current-keep_if :
    (p : AgentRun → Bool) (s : MemoryStore) (rs : List AgentRun)
    → ((r : AgentRun) → p r ≡ true → is_active r.status ≡ true)
    → All (λ r. get s.runs r.id ≡ some r) rs
    → Current s (keep_if p rs)
unfolding keep_if
Current-keep_if p s [] only h = tt
Current-keep_if p s (r ∷ rs) only h = elim (Bool-cases (p r)) [
  | inl y ↦ rw y (h.0, only r y, Current-keep_if p s rs only h.1)
  | inr n ↦ rw n (Current-keep_if p s rs only h.1)
]

pub interrupt_matching_lem :
    (p : AgentRun → Bool) (draw : String → Stamp) (s : MemoryStore)
    → IsValid s
    → ((r : AgentRun) → p r ≡ true → is_active r.status ≡ true)
    → ((interrupt_matching p draw s).0 ≡ ok (length (keep_if p (values s.runs))))
      × Interrupted draw (keep_if p (values s.runs)) s (interrupt_matching p draw s).1
unfolding interrupt_matching
interrupt_matching_lem p draw s v only =
    let keyed = λ (k : String) (r : AgentRun) (e : get s.runs k ≡ some r). v.run_key k r e in
    let loop =
      interrupt_all_lem draw (keep_if p (values s.runs)) s v
        (Current-keep_if p s (values s.runs) only
          (get-values (λ r. r.id) s.runs v.distinct_runs keyed))
        (UniqueKeys-keep_if (λ r. r.id) p s.runs v.distinct_runs keyed) in
    rw loop.0 (refl, loop.1)

-- What a sweep over the runs that pass `p` does to the run and the stream at one key.
abbrev pub Swept :
    (AgentRun → Bool)
    → (String → Stamp)
    → String
    → AgentRun
    → List StreamEvent
    → MemoryStore
    → MemoryStore
    → Type 0
Swept p draw k r es s t =
    (get t.runs k ≡ some (if p r then interrupted_run r (draw k) else r))
    × (get t.events k
        ≡ some (if p r then es ++ interruption r (draw k) (length es + 1) ∷ [] else es))
    × (t.messages ≡ s.messages)
    × (t.idempotency ≡ s.idempotency)

interrupt_matching-Swept :
    (p : AgentRun → Bool) (draw : String → Stamp) (s : MemoryStore) (k : String) (r : AgentRun)
    (es : List StreamEvent)
    → IsValid s
    → ((r : AgentRun) → p r ≡ true → is_active r.status ≡ true)
    → get s.runs k ≡ some r
    → get s.events k ≡ some es
    → ((interrupt_matching p draw s).0 ≡ ok (length (keep_if p (values s.runs))))
      × Swept p draw k r es s (interrupt_matching p draw s).1
interrupt_matching-Swept p draw s k r es v only e h =
    let keyed = λ (k : String) (r : AgentRun) (e : get s.runs k ≡ some r). v.run_key k r e in
    let (fine, loop) = interrupt_matching_lem p draw s v only in
    let found = find_key-keep_if (λ r. r.id) p s.runs k v.distinct_runs keyed in
    (
      fine,
      (
        ground (arith, loop.runs k, found, v.run_key k r e),
        ground (arith, loop.events k, found, v.run_key k r e),
        loop.messages,
        loop.idempotency,
      ),
    )

pub owned_by-active :
    (worker : String) (r : AgentRun) → owned_by worker r ≡ true → is_active r.status ≡ true
owned_by-active worker r h = ground arith

pub orphaned_from-active :
    (worker : String) (r : AgentRun) → orphaned_from worker r ≡ true → is_active r.status ≡ true
orphaned_from-active worker r h = ground arith

pub reconcile_orphaned_runs-Swept :
    (s : MemoryStore) (worker : String) (draw : String → Stamp) (k : String) (r : AgentRun)
    (es : List StreamEvent)
    → IsValid s
    → get s.runs k ≡ some r
    → get s.events k ≡ some es
    → ((reconcile_orphaned_runs worker draw s).0
        ≡ ok (length (keep_if (orphaned_from worker) (values s.runs))))
      × Swept (orphaned_from worker) draw k r es s (reconcile_orphaned_runs worker draw s).1
unfolding reconcile_orphaned_runs
reconcile_orphaned_runs-Swept s worker draw k r es v e h =
    interrupt_matching-Swept (orphaned_from worker) draw s k r es v (orphaned_from-active worker) e
      h

pub interrupt_worker_runs-IsValid :
    (s : MemoryStore) (worker : String) (draw : String → Stamp)
    → IsValid s
    → IsValid (interrupt_worker_runs worker draw s).1
unfolding interrupt_worker_runs
interrupt_worker_runs-IsValid s worker draw v =
    (interrupt_matching_lem (owned_by worker) draw s v (owned_by-active worker)).1.valid

pub reconcile_orphaned_runs-IsValid :
    (s : MemoryStore) (worker : String) (draw : String → Stamp)
    → IsValid s
    → IsValid (reconcile_orphaned_runs worker draw s).1
unfolding reconcile_orphaned_runs
reconcile_orphaned_runs-IsValid s worker draw v =
    (interrupt_matching_lem (orphaned_from worker) draw s v (orphaned_from-active worker)).1.valid
