-- ===== src/Supervisor/Orderly.antt =====
-- What the retry loop does to the store is calls of it.
use dayu_water_agent.Prelude.{
  ℕ, ◌+◌, String, zero, suc, Bool, true, false, Option, none, some, List, [], ◌∷◌, inl, inr,
  Bool-cases, All,
}
use dayu_water_agent.Errors.{Result-cases}
use dayu_water_agent.Runtime.State.{AgentRun, response_delta}
use dayu_water_agent.Memory.Store.{MemoryStore}
use dayu_water_agent.Memory.Lifecycle.{increment_run_attempt, append_stream_event}
use dayu_water_agent.Memory.Calls.{Call, step, Future, now, after}
use dayu_water_agent.Retry.{FloatArith, RetryBudget, delay_after, permits_retry}
use dayu_water_agent.Supervisor.Provider.{ProviderResponse, Ending, StreamItem}
use dayu_water_agent.Supervisor.Attempts.{
  AttemptResult, answered, may_retry, given_up, final_after, delta_payload, Rest, persist_delta,
  stream_items, Attempt, is_spent, call_provider, after_attempt, attempt, Outcome,
  run_provider_with_retry,
}
use dayu_water_agent.Supervisor.Bounds.{IsPeaceful, IsPeacefulAttempt}

pub Future-trans : {s t u : MemoryStore} → Future s t → Future t u → Future s u
Future-trans f now = f
Future-trans f (after g c fresh) = after (Future-trans f g) c fresh

persist_delta-Future :
    (id : String) (item : StreamItem) (delta : Option String) (rest : Rest) (emitted : Bool)
    (s0 s : MemoryStore)
    → IsPeaceful item.meanwhile
    → ((b : Bool) (t : MemoryStore) → Future s0 t → Future s0 (rest b t).1)
    → Future s0 s
    → Future s0 (persist_delta id item delta rest emitted s).1
unfolding step
persist_delta-Future id item none rest emitted s0 s p keep f = keep emitted s f
persist_delta-Future id item (some text) rest emitted s0 s p keep f =
    let s' = item.meanwhile s in
    let g : Future s0 (append_stream_event id response_delta (delta_payload text) item.stamp s').1 =
      after (Future-trans f (p s))
        (Call.append_stream_event id response_delta (delta_payload text) item.stamp) tt in
    elim (Result-cases
      (append_stream_event id response_delta (delta_payload text) item.stamp s').0) [
        | inl (e, h) ↦ rw h (keep true _ g)
        | inr (e, h) ↦ rw h g
      ]

stream_items-Future :
    (id : String) (ending : Ending) (items : List StreamItem) (final : Option ProviderResponse)
    (emitted : Bool) (s0 s : MemoryStore)
    → All (λ item. IsPeaceful item.meanwhile) items
    → Future s0 s
    → Future s0 (stream_items id ending items final emitted s).1
unfolding stream_items
stream_items-Future id ending [] final emitted s0 s p f = f
stream_items-Future id ending (item ∷ items) final emitted s0 s p f =
    persist_delta-Future id item item.event.delta _ emitted s0 s p.0
      (λ b t. stream_items-Future id ending items (final_after final item.event) b s0 t p.1) f

module _ (F : FloatArith) (budget : RetryBudget F) (streaming : Bool) (id : String) where
  call_provider-Future :
      (a : Attempt F) (s0 s : MemoryStore)
      → IsPeacefulAttempt F budget streaming id a
      → Future s0 s
      → Future s0 (call_provider F budget streaming id a s).1
  unfolding call_provider
  call_provider-Future a s0 s p f = elim (Bool-cases (is_spent F budget a.spent)) [
    | inl y ↦ rw y f
    | inr m ↦ elim (Bool-cases streaming) [
      | inl y ↦ rw (m, y) (stream_items-Future id a.ending a.items none false s0 s p.1 f)
      | inr n ↦ rw (m, n) f
    ]
  ]

  after_attempt-Future :
      (a : Attempt F) (again : MemoryStore → Outcome F) (durable : AgentRun)
      (p : AttemptResult × MemoryStore) (s0 : MemoryStore)
      → ((t : MemoryStore) → Future s0 t → Future s0 (again t).1)
      → Future s0 p.1
      → Future s0 (after_attempt F budget a again durable p).1
  unfolding after_attempt
  after_attempt-Future a again durable (answered response, s) s0 go f = f
  after_attempt-Future a again durable (given_up g, s) s0 go f = f
  after_attempt-Future a again durable (may_retry e, s) s0 go f =
      let delay = delay_after F budget durable.attempt_count a.random_value in
      elim (Bool-cases (permits_retry F budget durable.attempt_count a.elapsed delay)) [
        | inl y ↦ rw y (go s f)
        | inr n ↦ rw n f
      ]

  pub run_provider_with_retry-Future :
      (fuel n : ℕ) (script : ℕ → Attempt F) (s0 s : MemoryStore)
      → ((k : ℕ) → IsPeacefulAttempt F budget streaming id (script k))
      → Future s0 s
      → Future s0 (run_provider_with_retry F budget streaming id script fuel n s).1
  unfolding run_provider_with_retry attempt step
  run_provider_with_retry-Future zero n script s0 s p f = f
  run_provider_with_retry-Future (suc fuel) n script s0 s p f =
      let s' = (script n).meanwhile s in
      let g : Future s0 (increment_run_attempt id s').1 =
        after (Future-trans f ((p n).0 s)) (Call.increment_run_attempt id) tt in
      elim (Result-cases (increment_run_attempt id s').0) [
        | inl (durable, e) ↦ rw e (
            after_attempt-Future (script n)
              (run_provider_with_retry F budget streaming id script fuel (n + 1)) durable
              (call_provider F budget streaming id (script n) (increment_run_attempt id s').1) s0
              (λ t. run_provider_with_retry-Future fuel (n + 1) script s0 t p)
              (call_provider-Future (script n) s0 _ (p n) g))
        | inr (x, e) ↦ rw e g
      ]
