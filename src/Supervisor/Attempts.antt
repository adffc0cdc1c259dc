-- ===== src/Supervisor/Attempts.antt =====
-- `_run_provider_with_retry`: the attempts at one provider call. Logging and metrics are left out,
-- and so are the details of the errors that it makes.
use dayu_water_agent.Prelude.{
  ℕ, ◌+◌, String, zero, suc, Bool, true, false, not, ◌&&◌, ◌||◌, Option, none, some, List, [], ◌∷◌,
  if◌then◌else◌,
}
use dayu_water_agent.Json.{string, Payload}
use dayu_water_agent.Errors.{DayuAgentError, Failure, domain, make_error, Result, ok, err}
use dayu_water_agent.Errors.Kinds.{
  provider, provider_timeout, retry_budget_exhausted, is_provider_error,
}
use dayu_water_agent.Runtime.State.{AgentRun, response_delta}
use dayu_water_agent.Memory.Store.{MemoryStore}
use dayu_water_agent.Memory.Lifecycle.{increment_run_attempt, append_stream_event}
use dayu_water_agent.Retry.{FloatArith, RetryBudget, delay_after, permits_retry}
use dayu_water_agent.Supervisor.Provider.{
  ProviderResponse, ProviderStreamEvent, Ending, responded, finished, timed_out, raised, StreamItem,
}

-- What an attempt comes to once its exceptions are handled.
pub data AttemptResult : Type 0 where
  answered : ProviderResponse → AttemptResult
  may_retry : DayuAgentError → AttemptResult
  given_up : Failure → AttemptResult

abbrev pub timeout_error : DayuAgentError
timeout_error = make_error provider_timeout none none false

abbrev pub exhausted_error : DayuAgentError
exhausted_error = make_error retry_budget_exhausted none none false

-- `except ProviderError`
unfoldable pub settle_error : Bool → DayuAgentError → AttemptResult
settle_error emitted e =
    if is_provider_error e.kind && not (emitted || not e.retryable)
    then may_retry e
    else given_up (domain e)

unfoldable pub settle_failure : Bool → Failure → AttemptResult
unfolding settle_error
settle_failure emitted (domain e) = settle_error emitted e
settle_failure emitted f = given_up f

abbrev no_response : DayuAgentError
no_response =
    make_error provider (some "The provider stream ended without a final response.") none false

unfoldable pub settle_final : Bool → Option ProviderResponse → AttemptResult
unfolding settle_error
settle_final emitted none = settle_error emitted no_response
settle_final emitted (some response) = answered response

-- The two `except` clauses; `final_response` is what a stream has left by its end.
unfoldable pub settle : Bool → Option ProviderResponse → Ending → AttemptResult
unfolding settle_failure settle_final
settle emitted final_response (responded response) = answered response
settle emitted final_response finished = settle_final emitted final_response
settle emitted final_response timed_out =
    if emitted then given_up (domain timeout_error) else may_retry timeout_error
settle emitted final_response (raised f) = settle_failure emitted f

abbrev pub final_after : Option ProviderResponse → ProviderStreamEvent → Option ProviderResponse
final_after final_response event = if event.done then event.response else final_response

abbrev pub delta_payload : String → Payload
delta_payload text = ("delta", string text) ∷ []

abbrev pub Rest : Type 0
Rest = Bool → MemoryStore → AttemptResult × MemoryStore

abbrev pub persisted {ℓ} :
    {A : Type ℓ} → Rest → Result A × MemoryStore → AttemptResult × MemoryStore
persisted rest (ok _, s) = rest true s
persisted rest (err f, s) = (settle_failure true f, s)

-- `if event.delta is not None`
abbrev pub persist_delta : String → StreamItem → Option String → Rest → Rest
persist_delta run_id item none rest emitted s = rest emitted s
persist_delta run_id item (some text) rest emitted s =
    persisted rest
      (append_stream_event run_id response_delta (delta_payload text) item.stamp (item.meanwhile s))

-- The `async for` over the stream: each delta is persisted before the next event is read.
unfoldable pub stream_items : String → Ending → List StreamItem → Option ProviderResponse → Rest
unfolding settle
stream_items run_id ending [] final_response emitted s = (settle emitted final_response ending, s)
stream_items run_id ending (item ∷ items) final_response emitted s =
    persist_delta run_id item item.event.delta
      (stream_items run_id ending items (final_after final_response item.event)) emitted s

module _ (F : FloatArith) where
  open F use {Float, zero as nothing, sub, lt}

  -- What happens around one attempt: what other tasks do to the store before it, the time spent
  -- when the rest of the budget is computed, the call of the provider, the time elapsed after it,
  -- and the random number of the backoff.
  pub record Attempt : Type 0 where
    pub meanwhile : MemoryStore → MemoryStore
    pub spent : Float
    pub items : List StreamItem
    pub ending : Ending
    pub elapsed : Float
    pub random_value : Float

  -- `remaining <= 0`
  unfoldable pub is_spent : RetryBudget F → Float → Bool
  is_spent budget spent = not (lt nothing (sub budget.max_elapsed_seconds spent))

  unfoldable pub call_provider :
      RetryBudget F → Bool → String → Attempt → MemoryStore → AttemptResult × MemoryStore
  unfolding is_spent stream_items settle
  call_provider budget streaming run_id a s =
      if is_spent budget a.spent
      then (settle false none (raised (domain exhausted_error)), s)
      else if streaming
      then stream_items run_id a.ending a.items none false s
      else (settle false none a.ending, s)

  -- `none` is a loop that has run out of rounds.
  abbrev pub Outcome : Type 0
  Outcome = Option (Result ProviderResponse) × MemoryStore

  unfoldable pub after_attempt :
      RetryBudget F
      → Attempt
      → (MemoryStore → Outcome)
      → AgentRun
      → AttemptResult × MemoryStore
      → Outcome
  after_attempt budget a again durable (answered response, s) = (some (ok response), s)
  after_attempt budget a again durable (given_up f, s) = (some (err f), s)
  after_attempt budget a again durable (may_retry e, s) =
      if permits_retry F budget durable.attempt_count a.elapsed
        (delay_after F budget durable.attempt_count a.random_value)
      then again s
      else (some (err (domain exhausted_error)), s)

  unfoldable pub attempt :
      RetryBudget F
      → Bool
      → String
      → Attempt
      → (MemoryStore → Outcome)
      → Result AgentRun × MemoryStore
      → Outcome
  unfolding call_provider after_attempt
  attempt budget streaming run_id a again (err f, s) = (some (err f), s)
  attempt budget streaming run_id a again (ok durable, s) =
      after_attempt budget a again durable (call_provider budget streaming run_id a s)

  -- `while True`, for `fuel` rounds; `script n` is what happens around round `n`.
  unfoldable pub run_provider_with_retry :
      RetryBudget F → Bool → String → (ℕ → Attempt) → ℕ → ℕ → MemoryStore → Outcome
  run_provider_with_retry budget streaming run_id script zero n s = (none, s)
  run_provider_with_retry budget streaming run_id script (suc fuel) n s =
      attempt budget streaming run_id (script n)
        (run_provider_with_retry budget streaming run_id script fuel (n + 1))
        (increment_run_attempt run_id ((script n).meanwhile s))
