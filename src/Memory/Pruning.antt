-- ===== src/Memory/Pruning.antt =====
-- `prune_stream_events`: the loop over the streams drops expired events of finished runs only.
use dayu_water_agent.Prelude.{
  ap, ℕ, ◌+◌, ◌-◌, ◌∙◌, String, ◌≡◌, refl, Bool, true, false, Option, some, none, List, [], ◌∷◌,
  arith, length, ap, Option-cases, Bool-cases, inl, inr, eq_iff, eq_refl, keep_if, if◌then◌else◌,
}
use dayu_water_agent.Dict.{Dict, get, put, contains}
use dayu_water_agent.Dict.Laws.{get-cons, get-put, Distinct}
use dayu_water_agent.Errors.{ok}
use dayu_water_agent.Runtime.State.{is_terminal, AgentRun, StreamEvent}
use dayu_water_agent.Memory.Store.{MemoryStore}
use dayu_water_agent.Memory.Maintenance.{is_retained, prune_all, prune_stream_events}
use dayu_water_agent.Memory.Invariant.{IsValid, StreamOf}
use dayu_water_agent.Memory.Invariant.Writes.{events-IsValid}

-- What is left of the stream of `run`.
unfoldable pub pruned : ℕ → AgentRun → List StreamEvent → List StreamEvent
pruned before run es = if is_terminal run.status then keep_if (is_retained before) es else es

StreamOf-keep_if :
    (id : String) (p : StreamEvent → Bool) (es : List StreamEvent)
    → StreamOf id es
    → StreamOf id (keep_if p es)
unfolding keep_if
StreamOf-keep_if id p [] t = t
StreamOf-keep_if id p (e ∷ es) t = ground (arith, StreamOf-keep_if id p es t.1)

-- The entries that are still to be visited belong to runs of the store.
abbrev Visitable : MemoryStore → Dict (List StreamEvent) → Type 0
Visitable s [] = Unit
Visitable s ((id, es) ∷ rest) = (contains s.runs id ≡ true) × StreamOf id es × Visitable s rest

-- The stream that `k` reads after the loop: pruned if it is still to be visited.
abbrev pruned_in :
    ℕ
    → Option AgentRun
    → Option (List StreamEvent)
    → Option (List StreamEvent)
    → Option (List StreamEvent)
pruned_in before run none old = old
pruned_in before none (some es) old = none
pruned_in before (some r) (some es) old =
    if is_terminal r.status then some (keep_if (is_retained before) es) else old

pub record Pruned (before : ℕ) (entries : Dict (List StreamEvent)) (s t : MemoryStore)
    : Type 0 where
  pub events :
      (k : String)
      → get t.events k ≡ pruned_in before (get s.runs k) (get entries k) (get s.events k)
  pub runs : t.runs ≡ s.runs
  pub sessions : t.sessions ≡ s.sessions
  pub messages : t.messages ≡ s.messages
  pub idempotency : t.idempotency ≡ s.idempotency
  pub valid : IsValid t

-- How many events the loop counts over `entries`.
lost : ℕ → Option AgentRun → List StreamEvent → ℕ
unfolding pruned
lost before none es = 0
lost before (some r) es = length es - length (pruned before r es)

unfoldable pub lost_events : ℕ → Dict AgentRun → Dict (List StreamEvent) → ℕ
unfolding lost
lost_events before runs [] = 0
lost_events before runs ((id, es) ∷ rest) =
    lost before (get runs id) es + lost_events before runs rest

abbrev after_prune : MemoryStore → String → List StreamEvent → MemoryStore
after_prune s id es = record s { events = put s.events id es }

-- One round of the loop.
prune_all-finished :
    (before : ℕ) (id : String) (es : List StreamEvent) (rest : Dict (List StreamEvent))
    (removed : ℕ) (s : MemoryStore) (r : AgentRun)
    → get s.runs id ≡ some r
    → is_terminal r.status ≡ true
    → let left = keep_if (is_retained before) es in
      prune_all before ((id, es) ∷ rest) removed s
      ≡ prune_all before rest (removed + (length es - length left)) (after_prune s id left)
unfolding prune_all
prune_all-finished before id es rest removed s r e t = rw e (rw t refl)

prune_all-live :
    (before : ℕ) (id : String) (es : List StreamEvent) (rest : Dict (List StreamEvent))
    (removed : ℕ) (s : MemoryStore) (r : AgentRun)
    → get s.runs id ≡ some r
    → is_terminal r.status ≡ false
    → prune_all before ((id, es) ∷ rest) removed s ≡ prune_all before rest removed s
unfolding prune_all
prune_all-live before id es rest removed s r e t = rw e (rw t refl)

lost_events-cons :
    (before : ℕ) (runs : Dict AgentRun) (id : String) (es : List StreamEvent)
    (rest : Dict (List StreamEvent)) (r : AgentRun)
    → get runs id ≡ some r
    → lost_events before runs ((id, es) ∷ rest)
      ≡ length es
        - length (if is_terminal r.status then keep_if (is_retained before) es else es)
        + lost_events before runs rest
unfolding lost_events
lost_events-cons before runs id es rest r e = rw e refl

prune_all_lem :
    (before : ℕ) (entries : Dict (List StreamEvent)) (removed : ℕ) (s : MemoryStore)
    → IsValid s
    → Distinct entries
    → Visitable s entries
    → ((prune_all before entries removed s).0 ≡ ok (removed + lost_events before s.runs entries))
      × Pruned before entries s (prune_all before entries removed s).1
prune_all_lem before [] removed s v u c =
    unfold prune_all lost_events in
    (
      ap ok (omega arith),
      record {
        events = λ k. unfold get in refl;
        runs = refl;
        sessions = refl;
        messages = refl;
        idempotency = refl;
        valid = v;
      },
    )
prune_all_lem before ((id, es) ∷ rest) removed s v u c = elim (Option-cases (get s.runs id)) [
  | inl e ↦ absurd (ground arith)
  | inr (r, e) ↦ elim (Bool-cases (is_terminal r.status)) [
    | inl done ↦
        let left = keep_if (is_retained before) es in
        let valid : IsValid (after_prune s id left) =
          events-IsValid s id left v c.0 (StreamOf-keep_if id (is_retained before) es c.1) in
        let (fine, after) =
          prune_all_lem before rest (removed + (length es - length left)) (after_prune s id left)
            valid u.1 c.2 in
        rw (prune_all-finished before id es rest removed s r e done) (
          ground (arith, fine, done, lost_events-cons before s.runs id es rest r e),
          record {
            events = λ k. ground (
              arith,
              after.events k,
              u.0,
              get-cons rest id k es,
              get-put s.events id k left,
              eq_iff id k,
            );
            runs = after.runs;
            sessions = after.sessions;
            messages = after.messages;
            idempotency = after.idempotency;
            valid = after.valid;
          },
        )
    | inr live ↦
        let (fine, after) = prune_all_lem before rest removed s v u.1 c.2 in
        rw (prune_all-live before id es rest removed s r e live) (
          ground (arith, fine, live, lost_events-cons before s.runs id es rest r e),
          record {
            events = λ k. ground (arith, after.events k, u.0, get-cons rest id k es, eq_iff id k);
            runs = after.runs;
            sessions = after.sessions;
            messages = after.messages;
            idempotency = after.idempotency;
            valid = after.valid;
          },
        )
  ]
]

Visitable-entries :
    (s : MemoryStore) (entries : Dict (List StreamEvent))
    → Distinct entries
    → ((k : String) (es : List StreamEvent)
        → get entries k ≡ some es
        → (contains s.runs k ≡ true) × StreamOf k es)
    → Visitable s entries
Visitable-entries s [] u h = tt
Visitable-entries s ((id, es) ∷ rest) u h =
    let (known, own) = h id es (ground (arith, get-cons rest id id es, eq_refl id)) in
    (
      known,
      own,
      Visitable-entries s rest u.1
          (λ k fs e. h k fs (ground (arith, u.0, get-cons rest id k es, eq_iff id k))),
    )

pub prune_stream_events-Pruned :
    (before : ℕ) (s : MemoryStore)
    → IsValid s
    → ((prune_stream_events before s).0 ≡ ok (lost_events before s.runs s.events))
      × Pruned before s.events s (prune_stream_events before s).1
unfolding prune_stream_events
prune_stream_events-Pruned before s v =
    let (fine, loop) = prune_all_lem before s.events 0 s v v.distinct_events (
      Visitable-entries s s.events v.distinct_events
        (λ k es e. (ground (arith, v.has_events k), v.streams k es e))) in
    (fine ∙ ap ok (omega arith), loop)

pub prune_stream_events-IsValid :
    (before : ℕ) (s : MemoryStore) → IsValid s → IsValid (prune_stream_events before s).1
prune_stream_events-IsValid before s v = (prune_stream_events-Pruned before s v).1.valid
