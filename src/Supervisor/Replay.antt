-- ===== src/Supervisor/Replay.antt =====
-- An attempt that has persisted a delta is never retried, so no delta is persisted twice.
use dayu_water_agent.Prelude.{
  ◌≡◌, refl, String, Bool, true, false, ◌||◌, Option, none, some, List, [], ◌∷◌, arith, Bool-cases,
  inl, inr, is_some,
}
use dayu_water_agent.Errors.Kinds.{is_provider_error}
use dayu_water_agent.Errors.{
  make_error, DayuAgentError, Failure, domain, key_error, task_cancelled, other_exception,
  Result-cases,
}
use dayu_water_agent.Runtime.State.{response_delta}
use dayu_water_agent.Memory.Store.{MemoryStore}
use dayu_water_agent.Memory.Lifecycle.{append_stream_event}
use dayu_water_agent.Retry.{FloatArith, RetryBudget}
use dayu_water_agent.Supervisor.Provider.{
  ProviderResponse, Ending, responded, finished, timed_out, raised, StreamItem,
}
use dayu_water_agent.Supervisor.Attempts.{
  AttemptResult, may_retry, settle, settle_error, settle_failure, settle_final, final_after,
  persist_delta, delta_payload, stream_items, Attempt, call_provider, is_spent, exhausted_error,
}

settle_error-emitted : (d e : DayuAgentError) → ¬ (settle_error true d ≡ may_retry e)
unfolding settle_error
settle_error-emitted d e h = ground arith

settle_failure-emitted :
    (f : Failure) (e : DayuAgentError) → ¬ (settle_failure true f ≡ may_retry e)
unfolding settle_failure
settle_failure-emitted (domain d) e h = settle_error-emitted d e h
settle_failure-emitted (key_error k) e h = ground arith
settle_failure-emitted task_cancelled e h = ground arith
settle_failure-emitted other_exception e h = ground arith

settle-emitted :
    (final : Option ProviderResponse) (ending : Ending) (e : DayuAgentError)
    → ¬ (settle true final ending ≡ may_retry e)
unfolding settle settle_final
settle-emitted final (responded response) e h = ground arith
settle-emitted none finished e h = settle_error-emitted _ e h
settle-emitted (some response) finished e h = ground arith
settle-emitted final timed_out e h = ground arith
settle-emitted final (raised f) e h = settle_failure-emitted f e h

abbrev pub has_delta : List StreamItem → Bool
has_delta [] = false
has_delta (item ∷ items) = is_some item.event.delta || has_delta items

-- The loop goes on from a delta as one that has emitted.
persist_delta-emitted :
    (id : String) (item : StreamItem) (delta : Option String)
    (rest : Bool → MemoryStore → AttemptResult × MemoryStore) (emitted later : Bool)
    (s : MemoryStore) (e : DayuAgentError)
    → ((b : Bool) (t : MemoryStore) → (b || later) ≡ true → ¬ ((rest b t).0 ≡ may_retry e))
    → (emitted || (is_some delta || later)) ≡ true
    → ¬ ((persist_delta id item delta rest emitted s).0 ≡ may_retry e)
persist_delta-emitted id item none rest emitted later s e go some_delta h =
    go emitted s some_delta h
persist_delta-emitted id item (some text) rest emitted later s e go some_delta h =
    let p =
      append_stream_event id response_delta (delta_payload text) item.stamp (item.meanwhile s) in
    elim (Result-cases p.0) [
      | inl (a, g) ↦ go true p.1 refl (rw g at h)
      | inr (f, g) ↦ settle_failure-emitted f e (rw g at h)
    ]

stream_items-emitted :
    (id : String) (ending : Ending) (items : List StreamItem) (final : Option ProviderResponse)
    (emitted : Bool) (s : MemoryStore) (e : DayuAgentError)
    → (emitted || has_delta items) ≡ true
    → ¬ ((stream_items id ending items final emitted s).0 ≡ may_retry e)
unfolding stream_items
stream_items-emitted id ending [] final true s e d h = settle-emitted final ending e h
stream_items-emitted id ending [] final false s e d h = absurd (ground arith)
stream_items-emitted id ending (item ∷ items) final emitted s e d h =
    persist_delta-emitted id item item.event.delta
      (stream_items id ending items (final_after final item.event)) emitted (has_delta items) s e
      (λ b t. stream_items-emitted id ending items (final_after final item.event) b t e) d h

spent-given_up :
    (e : DayuAgentError) → ¬ (settle false none (raised (domain exhausted_error)) ≡ may_retry e)
unfolding settle settle_failure settle_error make_error is_provider_error
spent-given_up e h = ground arith

-- A streaming attempt whose stream has a delta does not end in a retry, whatever error follows the
-- delta and whatever other tasks do to the store.
pub call_provider-emitted :
    (F : FloatArith) (budget : RetryBudget F) (id : String) (a : Attempt F) (s : MemoryStore)
    (e : DayuAgentError)
    → has_delta a.items ≡ true
    → ¬ ((call_provider F budget true id a s).0 ≡ may_retry e)
unfolding call_provider
call_provider-emitted F budget id a s e d h = elim (Bool-cases (is_spent F budget a.spent)) [
  | inl y ↦ spent-given_up e (rw y at h)
  | inr n ↦ stream_items-emitted id a.ending a.items none false s e d (rw n at h)
]
