-- ===== src/Providers/Contract.antt =====
-- The contract of src/dayu_agent/providers/base.py: what a provider's generator yields until it ends
-- or raises.
use dayu_water_agent.Prelude.{
  String, ◌≡◌, true, false, Option, none, some, List, [], ◌∷◌, ◌++◌, map,
}
use dayu_water_agent.Errors.{Failure, domain, key_error, task_cancelled, other_exception}
use dayu_water_agent.Errors.Kinds.{is_provider_error}
use dayu_water_agent.Supervisor.Provider.{ProviderResponse, ProviderStreamEvent}

-- ProviderStreamEvent(delta=text)
abbrev pub delta_event : String → ProviderStreamEvent
delta_event text = record { delta = some text; response = none; done = false }

-- ProviderStreamEvent(response=response, done=True)
abbrev pub final_event : ProviderResponse → ProviderStreamEvent
final_event response = record { delta = none; response = some response; done = true }

-- What was yielded, and what was raised at last.
abbrev pub Streamed : Type 0
Streamed = List ProviderStreamEvent × Option Failure

-- A failure that may leave a provider: one of its errors, or the cancellation of the task.
abbrev pub IsBoundary : Failure → Type 0
IsBoundary (domain e) = is_provider_error e.kind ≡ true
IsBoundary task_cancelled = Unit
IsBoundary (key_error k) = ⊥
IsBoundary other_exception = ⊥

-- Deltas and exactly one final event, or deltas and a failure.
pub data IsStream : Streamed → Type 0 where
  finishes :
      (deltas : List String) (response : ProviderResponse)
      → IsStream (map delta_event deltas ++ final_event response ∷ [], none)
  breaks :
      (deltas : List String) (f : Failure)
      → IsBoundary f
      → IsStream (map delta_event deltas, some f)
