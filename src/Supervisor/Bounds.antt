-- ===== src/Supervisor/Bounds.antt =====
-- The retry loop ends: its budget bounds the attempts, whatever the provider and other tasks do.
use dayu_water_agent.Prelude.{
  eq_refl, ℕ, ◌+◌, ◌≤◌, ◌<◌, String, zero, suc, ◌≡◌, refl, Bool, true, false, Option, none, some,
  List, [], ◌∷◌, arith, inl, inr, Bool-cases, All,
}
use dayu_water_agent.Dict.{get}
use dayu_water_agent.Dict.Laws.{get-put}
use dayu_water_agent.Errors.{domain, Result, ok, err, Result-cases}
use dayu_water_agent.Runtime.State.{AgentRun, response_delta}
use dayu_water_agent.Memory.Store.{MemoryStore}
use dayu_water_agent.Memory.Lifecycle.{increment_run_attempt, append_stream_event}
use dayu_water_agent.Memory.Invariant.{IsValid}
use dayu_water_agent.Memory.Invariant.Steps.{increment_run_attempt-IsValid}
use dayu_water_agent.Memory.Calls.{Call, step, Future, IsFresh}
use dayu_water_agent.Memory.Calls.Laws.{step-IsValid}
use dayu_water_agent.Memory.Calls.Lifetimes.{Kept}
use dayu_water_agent.Memory.Calls.Histories.{step-Kept, Future-IsValid, Future-Kept}
use dayu_water_agent.Retry.{FloatArith, RetryBudget, permits_retry, delay_after}
use dayu_water_agent.Supervisor.Provider.{ProviderResponse, Ending, StreamItem}
use dayu_water_agent.Supervisor.Attempts.{
  is_spent, exhausted_error, AttemptResult, answered, may_retry, given_up, final_after, Rest,
  persist_delta, delta_payload, stream_items, Attempt, call_provider, Outcome, after_attempt,
  attempt, run_provider_with_retry,
}

-- The store is valid, and the run `id` has been attempted at least `c` times.
pub record Attempted (id : String) (c : ℕ) (s : MemoryStore) : Type 0 where
  pub valid : IsValid s
  pub run : AgentRun
  pub at : get s.runs id ≡ some run
  pub count : c ≤ run.attempt_count

Kept-Attempted :
    (id : String) (c : ℕ) (s t : MemoryStore)
    → Kept s t
    → IsValid t
    → Attempted id c s
    → Attempted id c t
Kept-Attempted id c s t k v a =
    let (r, there, later) = k.runs id a.run a.at in
    record { valid = v; run = r; at = there; count = omega (arith, a.count, later.attempts) }

pub Future-Attempted :
    (id : String) (c : ℕ) (s t : MemoryStore) → Future s t → Attempted id c s → Attempted id c t
Future-Attempted id c s t f a =
    Kept-Attempted id c s t (Future-Kept f a.valid) (Future-IsValid f a.valid) a

pub step-Attempted :
    (id : String) (c : ℕ) (s : MemoryStore) (x : Call)
    → IsFresh s x
    → Attempted id c s
    → Attempted id c (step s x)
step-Attempted id c s x f a =
    Kept-Attempted id c s _ (step-Kept s x f a.valid) (step-IsValid s x f a.valid) a

-- What another task does is a sequence of calls of the store.
abbrev pub IsPeaceful : (MemoryStore → MemoryStore) → Type 0
IsPeaceful meanwhile = (s : MemoryStore) → Future s (meanwhile s)

persist_delta-Attempted :
    (id : String) (c : ℕ) (item : StreamItem) (delta : Option String) (rest : Rest) (emitted : Bool)
    (s : MemoryStore)
    → IsPeaceful item.meanwhile
    → ((b : Bool) (t : MemoryStore) → Attempted id c t → Attempted id c (rest b t).1)
    → Attempted id c s
    → Attempted id c (persist_delta id item delta rest emitted s).1
unfolding step
persist_delta-Attempted id c item none rest emitted s p keep a = keep emitted s a
persist_delta-Attempted id c item (some text) rest emitted s p keep a =
    let s' = item.meanwhile s in
    let b : Attempted id c
        (append_stream_event id response_delta (delta_payload text) item.stamp s').1 =
      step-Attempted id c s'
        (Call.append_stream_event id response_delta (delta_payload text) item.stamp) tt
        (Future-Attempted id c s s' (p s) a) in
    elim (Result-cases
      (append_stream_event id response_delta (delta_payload text) item.stamp s').0) [
        | inl (e, h) ↦ rw h (keep true _ b)
        | inr (f, h) ↦ rw h b
      ]

stream_items-Attempted :
    (id : String) (c : ℕ) (ending : Ending) (items : List StreamItem)
    (final : Option ProviderResponse) (emitted : Bool) (s : MemoryStore)
    → All (λ item. IsPeaceful item.meanwhile) items
    → Attempted id c s
    → Attempted id c (stream_items id ending items final emitted s).1
unfolding stream_items
stream_items-Attempted id c ending [] final emitted s p a = a
stream_items-Attempted id c ending (item ∷ items) final emitted s p a =
    persist_delta-Attempted id c item item.event.delta _ emitted s p.0
      (λ b t. stream_items-Attempted id c ending items (final_after final item.event) b t p.1) a

incremented :
    (id : String) (s : MemoryStore) (r durable : AgentRun)
    → get s.runs id ≡ some r
    → (increment_run_attempt id s).0 ≡ ok durable
    → (durable.attempt_count ≡ r.attempt_count + 1)
      × (get (increment_run_attempt id s).1.runs id ≡ some durable)
unfolding increment_run_attempt
incremented id s r durable h e = (
  ground (arith, h),
  ground
      (arith, get-put s.runs id id (record r { attempt_count = r.attempt_count + 1 }), eq_refl id),
)

increment-Attempted :
    (id : String) (c : ℕ) (s : MemoryStore) (durable : AgentRun)
    → Attempted id c s
    → (increment_run_attempt id s).0 ≡ ok durable
    → (suc c ≤ durable.attempt_count)
      × Attempted id durable.attempt_count (increment_run_attempt id s).1
increment-Attempted id c s durable a e =
    let (counted, there) = incremented id s a.run durable a.at e in
    (
      omega (arith, counted, a.count),
      record {
        valid = increment_run_attempt-IsValid s a.valid id;
        run = durable;
        at = there;
        count = omega arith;
      },
    )

module _ (F : FloatArith) (budget : RetryBudget F) (streaming : Bool) (id : String) where
  -- What the other tasks do around an attempt is calls of the store.
  abbrev pub IsPeacefulAttempt : Attempt F → Type 0
  IsPeacefulAttempt a = IsPeaceful a.meanwhile × All (λ item. IsPeaceful item.meanwhile) a.items

  call_provider-Attempted :
      (c : ℕ) (a : Attempt F) (s : MemoryStore)
      → IsPeacefulAttempt a
      → Attempted id c s
      → Attempted id c (call_provider F budget streaming id a s).1
  unfolding call_provider
  call_provider-Attempted c a s p h = elim (Bool-cases (is_spent F budget a.spent)) [
    | inl y ↦ rw y h
    | inr m ↦ elim (Bool-cases streaming) [
      | inl y ↦ rw (m, y) (stream_items-Attempted id c a.ending a.items none false s p.1 h)
      | inr n ↦ rw (m, n) h
    ]
  ]

  permitted :
      (count : ℕ) (elapsed delay : F.Float)
      → permits_retry F budget count elapsed delay ≡ true
      → count < budget.max_attempts
  unfolding permits_retry
  permitted count elapsed delay e = ground arith

  -- The loop produces something.
  abbrev pub Ends : ℕ → (ℕ → Attempt F) → ℕ → MemoryStore → Type 0
  Ends fuel script n s =
      (x : Result ProviderResponse) × ((run_provider_with_retry F budget streaming id script fuel n
          s).0
        ≡ some x)

  after_attempt-Ends :
      (a : Attempt F) (again : MemoryStore → Outcome F) (durable : AgentRun)
      (p : AttemptResult × MemoryStore)
      → (durable.attempt_count < budget.max_attempts
          → (x : Result ProviderResponse) × ((again p.1).0 ≡ some x))
      → (x : Result ProviderResponse) × ((after_attempt F budget a again durable p).0 ≡ some x)
  unfolding after_attempt permits_retry
  after_attempt-Ends a again durable (answered response, s) go = (ok response, refl)
  after_attempt-Ends a again durable (given_up f, s) go = (err f, refl)
  after_attempt-Ends a again durable (may_retry e, s) go =
      let delay = delay_after F budget durable.attempt_count a.random_value in
      elim (Bool-cases (permits_retry F budget durable.attempt_count a.elapsed delay)) [
        | inl y ↦ rw y (go (permitted durable.attempt_count a.elapsed delay y))
        | inr n ↦ rw n (err (domain exhausted_error), refl)
      ]

  attempt-Ends :
      (fuel n c : ℕ) (script : ℕ → Attempt F) (s : MemoryStore)
      → ((k : ℕ) → IsPeacefulAttempt (script k))
      → Attempted id c s
      → ((c' : ℕ) (t : MemoryStore)
          → Attempted id c' t
          → suc c ≤ c'
          → c' < budget.max_attempts
          → Ends fuel script (n + 1) t)
      → Ends (suc fuel) script n s
  unfolding run_provider_with_retry attempt
  attempt-Ends fuel n c script s p h go =
      let s' = (script n).meanwhile s in
      let h' : Attempted id c s' = Future-Attempted id c s s' ((p n).0 s) h in
      elim (Result-cases (increment_run_attempt id s').0) [
        | inl (durable, e) ↦
            let (more, kept) = increment-Attempted id c s' durable h' e in
            let q =
              call_provider F budget streaming id (script n) (increment_run_attempt id s').1 in
            rw e (
              after_attempt-Ends (script n)
                (run_provider_with_retry F budget streaming id script fuel (n + 1)) durable q
                (go durable.attempt_count q.1
                  (call_provider-Attempted durable.attempt_count (script n) _ (p n) kept) more))
        | inr (f, e) ↦ rw e (err f, refl)
      ]

  -- From a valid store that holds the run, the retry loop ends, whatever the provider answers and
  -- whatever calls of the store other tasks make around it: rounds for the budget's attempts that
  -- are left, and at least one, are enough for a response or an error.
  pub run_provider_with_retry-Ends :
      (fuel n c : ℕ) (script : ℕ → Attempt F) (s : MemoryStore)
      → ((k : ℕ) → IsPeacefulAttempt (script k))
      → Attempted id c s
      → 0 < fuel
      → budget.max_attempts ≤ fuel + c
      → Ends fuel script n s
  run_provider_with_retry-Ends zero n c script s p h pos enough = absurd (omega (arith, pos))
  run_provider_with_retry-Ends (suc fuel) n c script s p h pos enough =
      attempt-Ends fuel n c script s p h λ c' t h' more below.
        run_provider_with_retry-Ends fuel (n + 1) c' script t p h'
          (omega (arith, more, below, enough)) (omega (arith, more, enough))
