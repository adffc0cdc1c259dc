-- ===== src/Providers/Consuming.antt =====
-- What an attempt of the supervisor makes of a provider's stream.
use dayu_water_agent.Prelude.{
  ℕ, ◌+◌, String, ◌≡◌, refl, Bool, true, false, inl, inr, Option, none, some, List, [], ◌∷◌, ◌++◌,
  map, arith,
}
use dayu_water_agent.Errors.{Failure, ok, Result-cases}
use dayu_water_agent.Runtime.State.{response_delta, StreamEvent}
use dayu_water_agent.Memory.Store.{MemoryStore, Stamp}
use dayu_water_agent.Memory.Lifecycle.{append_stream_event}
use dayu_water_agent.Memory.Invariant.Steps.{IsValid-HasEvents}
use dayu_water_agent.Memory.Calls.{Call, step}
use dayu_water_agent.Supervisor.Provider.{
  ProviderResponse, ProviderStreamEvent, Ending, finished, raised, StreamItem,
}
use dayu_water_agent.Supervisor.Attempts.{
  AttemptResult, answered, settle_failure, settle, settle_final, stream_items, delta_payload,
  persist_delta, Rest,
}
use dayu_water_agent.Supervisor.Bounds.{Attempted, Future-Attempted, step-Attempted, IsPeaceful}
use dayu_water_agent.Providers.Contract.{
  delta_event, final_event, Streamed, IsStream, finishes, breaks,
}

-- What happens around the events: what other tasks do to the store before the n-th event is
-- persisted, and what that draws.
pub record Around : Type 0 where
  pub meanwhile : ℕ → MemoryStore → MemoryStore
  pub stamp : ℕ → Stamp

unfoldable pub items_of : Around → ℕ → List ProviderStreamEvent → List StreamItem
items_of around n [] = []
items_of around n (event ∷ events) =
    record { event = event; meanwhile = around.meanwhile n; stamp = around.stamp n }
    ∷ items_of around (n + 1) events

-- How the generator ends.
abbrev pub ending_of : Option Failure → Ending
ending_of none = finished
ending_of (some f) = raised f

abbrev pub is_any : List String → Bool
is_any [] = false
is_any (delta ∷ deltas) = true

-- A stream that finishes answers with its response. A failure is settled by whether a delta came
-- before it.
unfoldable pub settled_stream : {out : Streamed} → IsStream out → AttemptResult
settled_stream (finishes deltas response) = answered response
settled_stream (breaks deltas f b) = settle_failure (is_any deltas) f

appended :
    (id : String) (s : MemoryStore) (text : String) (stamp : Stamp)
    → Attempted id 0 s
    → (e : StreamEvent) × ((append_stream_event id response_delta (delta_payload text) stamp s).0
        ≡ ok e)
unfolding append_stream_event
appended id s text stamp a =
    let (es, h) = IsValid-HasEvents s a.valid id a.run a.at in
    elim (Result-cases (append_stream_event id response_delta (delta_payload text) stamp s).0) [
      | inl (e, fine) ↦ (e, fine)
      | inr (f, bad) ↦ absurd (ground (arith, bad, a.at, h))
    ]

module _ (around : Around) (calm : (n : ℕ) → IsPeaceful (around.meanwhile n)) (id : String) where
  -- A delta is persisted, and the loop goes on.
  delta-persisted :
      (n : ℕ) (text : String) (rest : Rest) (emitted : Bool) (s : MemoryStore) (out : AttemptResult)
      → ((t : MemoryStore) → Attempted id 0 t → (rest true t).0 ≡ out)
      → Attempted id 0 s
      → (persist_delta id
          (record {
            event = delta_event text;
            meanwhile = around.meanwhile n;
            stamp = around.stamp n;
          })
          (some text)
          rest
          emitted
          s).0
        ≡ out
  unfolding step
  delta-persisted n text rest emitted s out go a =
      let s' = around.meanwhile n s in
      let a' = Future-Attempted id 0 s s' (calm n s) a in
      let (e, fine) = appended id s' text (around.stamp n) a' in
      rw fine (
        go _ (
          step-Attempted id 0 s'
            (Call.append_stream_event id response_delta (delta_payload text) (around.stamp n)) tt
            a'))

  finishing :
      (deltas : List String) (response : ProviderResponse) (final : Option ProviderResponse)
      (emitted : Bool) (n : ℕ) (s : MemoryStore)
      → Attempted id 0 s
      → (stream_items id finished
          (items_of around n (map delta_event deltas ++ final_event response ∷ []))
          final
          emitted
          s).0
        ≡ answered response
  unfolding stream_items items_of settle settle_final
  finishing [] response final emitted n s a = refl
  finishing (text ∷ deltas) response final emitted n s a =
      delta-persisted n text
        (stream_items id finished
          (items_of around (n + 1) (map delta_event deltas ++ final_event response ∷ [])) final)
        emitted s (answered response) (λ t b. finishing deltas response final true (n + 1) t b) a

  breaking :
      (deltas : List String) (f : Failure) (final : Option ProviderResponse) (n : ℕ)
      (s : MemoryStore)
      → Attempted id 0 s
      → (stream_items id (raised f) (items_of around n (map delta_event deltas)) final true s).0
        ≡ settle_failure true f
  unfolding stream_items items_of settle
  breaking [] f final n s a = refl
  breaking (text ∷ deltas) f final n s a =
      delta-persisted n text
        (stream_items id (raised f) (items_of around (n + 1) (map delta_event deltas)) final) true s
        (settle_failure true f) (λ t b. breaking deltas f final (n + 1) t b) a

  breaking_first :
      (deltas : List String) (f : Failure) (n : ℕ) (s : MemoryStore)
      → Attempted id 0 s
      → (stream_items id (raised f) (items_of around n (map delta_event deltas)) none false s).0
        ≡ settle_failure (is_any deltas) f
  unfolding stream_items items_of settle
  breaking_first [] f n s a = refl
  breaking_first (text ∷ deltas) f n s a =
      delta-persisted n text
        (stream_items id (raised f) (items_of around (n + 1) (map delta_event deltas)) none) false s
        (settle_failure true f) (λ t b. breaking deltas f none (n + 1) t b) a

  -- From a valid store that holds the run, and with other tasks that only make calls of it, an
  -- attempt that reads a stream of the contract answers with the stream's response when it
  -- finishes; when it breaks, the failure is settled as one with output exactly if a delta came
  -- before it.
  pub stream_items-IsStream :
      (out : Streamed) (view : IsStream out) (s : MemoryStore)
      → Attempted id 0 s
      → (stream_items id (ending_of out.1) (items_of around 0 out.0) none false s).0
        ≡ settled_stream view
  unfolding settled_stream
  stream_items-IsStream _ (finishes deltas response) s a =
      finishing deltas response none false 0 s a
  stream_items-IsStream _ (breaks deltas f b) s a = breaking_first deltas f 0 s a
