-- ===== src/Providers/Streams.antt =====
-- Both providers keep the contract of their streams.
use dayu_water_agent.Prelude.{
  ℕ, ◌+◌, ◌<◌, String, ◌≡◌, refl, ap, true, some, List, [], ◌∷◌, map, length, inl, inr, arith,
  Bool-cases, ◌==◌, ◌&&◌, ◌||◌, not, ltb,
}
use dayu_water_agent.Errors.{make_error, Result, ok, err}
use dayu_water_agent.Errors.Kinds.{is_provider_error}
use dayu_water_agent.Guardrails.{is_blank}
use dayu_water_agent.Supervisor.Provider.{ProviderMessage, ProviderResponse, ProviderStreamEvent}
use dayu_water_agent.Providers.Contract.{
  delta_event, Streamed, IsBoundary, IsStream, finishes, breaks,
}
use dayu_water_agent.Providers.Fake.{
  FakeModelProvider, scripted_failure, raise_scripted_failure, user_messages, last, response,
  counted, answer, is_index, yield_chunks, chunks_or, streamed,
}
use dayu_water_agent.Providers.Fake
use dayu_water_agent.Providers.Openai.{
  SdkError, SdkEnding, returned, cancelled, raised, SdkEvent, is_retryable_status,
  normalize_failure, response_from_result, refuse_blank, outcome, input_items, text_deltas,
  concluded,
}
use dayu_water_agent.Providers.Openai

normalize_failure-IsBoundary :
    (model_name : String) (e : SdkError)
    → is_provider_error (normalize_failure model_name e).kind ≡ true
unfolding normalize_failure is_provider_error make_error
normalize_failure-IsBoundary model_name e = elim (Bool-cases e.is_timeout) [
  | inl y ↦ rw y refl
  | inr n ↦ elim (Bool-cases (e.is_transient || is_retryable_status e.status_code)) [
    | inl y ↦ rw (n, y) refl
    | inr m ↦ rw (n, m) refl
  ]
]

-- Nothing but deltas.
abbrev AreDeltas : List ProviderStreamEvent → Type 0
AreDeltas events = (deltas : List String) × (events ≡ map delta_event deltas)

text_deltas-AreDeltas : (events : List SdkEvent) → AreDeltas (text_deltas events)
unfolding text_deltas
text_deltas-AreDeltas [] = ([], refl)
text_deltas-AreDeltas (event ∷ events) =
    let (deltas, e) = text_deltas-AreDeltas events in
    elim (Bool-cases (event.is_raw_response && event.is_text_delta && not (event.delta == ""))) [
      | inl y ↦ rw y (event.delta ∷ deltas, ap (λ z. delta_event event.delta ∷ z) e)
      | inr n ↦ rw n (deltas, e)
    ]

-- A response, or a failure that may leave a provider.
abbrev IsAnswer : Result ProviderResponse → Type 0
IsAnswer (ok r) = Unit
IsAnswer (err f) = IsBoundary f

refuse_blank-IsAnswer : (r : ProviderResponse) → IsAnswer (refuse_blank r)
unfolding refuse_blank is_provider_error make_error
refuse_blank-IsAnswer r = elim (Bool-cases (is_blank r.content)) [
  | inl y ↦ rw y refl
  | inr n ↦ rw n tt
]

outcome-IsAnswer : (model_name : String) (ending : SdkEnding) → IsAnswer (outcome model_name ending)
unfolding outcome
outcome-IsAnswer model_name (returned result) = refuse_blank-IsAnswer (response_from_result result)
outcome-IsAnswer model_name cancelled = tt
outcome-IsAnswer model_name (raised e) = normalize_failure-IsBoundary model_name e

concluded-IsStream :
    (events : List ProviderStreamEvent) (out : Result ProviderResponse)
    → AreDeltas events
    → IsAnswer out
    → IsStream (concluded events out)
concluded-IsStream events (ok r) (deltas, e) a = rw e (finishes deltas r)
concluded-IsStream events (err f) (deltas, e) a = rw e (breaks deltas f a)

prepend :
    (text : String) (out : Streamed) → IsStream out → IsStream (delta_event text ∷ out.0, out.1)
prepend text _ (finishes deltas r) = finishes (text ∷ deltas) r
prepend text _ (breaks deltas f b) = breaks (text ∷ deltas) f b

scripted_failure-IsBoundary : (p : FakeModelProvider) → IsBoundary (scripted_failure p)
unfolding scripted_failure is_provider_error make_error
scripted_failure-IsBoundary p = elim (Bool-cases p.failure_retryable) [
  | inl y ↦ rw y refl
  | inr n ↦ rw n refl
]

yield_chunks-IsStream :
    (p : FakeModelProvider) (r : ProviderResponse) (chunks : List String) (index : ℕ)
    → IsStream (yield_chunks p r chunks index)
unfolding yield_chunks
yield_chunks-IsStream p r [] index = finishes [] r
yield_chunks-IsStream p r (chunk ∷ chunks) index =
    elim (Bool-cases (is_index p.stream_fail_after_deltas index)) [
      | inl y ↦ rw y (breaks (chunk ∷ []) (scripted_failure p) (scripted_failure-IsBoundary p))
      | inr n ↦ rw n (prepend chunk _ (yield_chunks-IsStream p r chunks (index + 1)))
    ]

last-some : (m : String) (ms : List String) → (x : String) × (last (m ∷ ms) ≡ some x)
unfolding last
last-some m [] = (m, refl)
last-some m (n ∷ ms) = last-some n ms

last-length : (ms : List String) → 0 < length ms → (x : String) × (last ms ≡ some x)
last-length [] h = absurd (omega (arith, h))
last-length (m ∷ ms) h = last-some m ms

answer-IsAnswer :
    (show : ℕ → String) (p : FakeModelProvider) (messages : List ProviderMessage)
    → 0 < length (user_messages messages)
    → IsAnswer (answer show p messages)
unfolding answer raise_scripted_failure response
answer-IsAnswer show p messages h =
    let (x, e) = last-length (user_messages messages) h in
    elim (Bool-cases (not p.fail && ltb p.fail_times p.call_count)) [
      | inl y ↦ rw (y, e) tt
      | inr n ↦ rw n (scripted_failure-IsBoundary p)
    ]

streamed-IsStream :
    (p : FakeModelProvider) (out : Result ProviderResponse)
    → IsAnswer out
    → IsStream (streamed p out)
streamed-IsStream p (err f) a = breaks [] f a
streamed-IsStream p (ok r) a = yield_chunks-IsStream p r (chunks_or p.stream_chunks r.content) 1

-- What either provider streams is deltas and then exactly one final event, or deltas and then one of
-- the provider errors or the cancellation of the task, whatever the SDK does. The messages of the
-- request have one of the user, which the fake provider needs.
pub stream-IsStream :
    (model_name : String) (sdk : List (String × String) → List SdkEvent × SdkEnding)
    (show : ℕ → String) (p : FakeModelProvider) (messages : List ProviderMessage)
    → 0 < length (user_messages messages)
    → IsStream (Openai.stream model_name sdk messages) × IsStream (Fake.stream show p messages).0
unfolding Openai.stream Fake.stream
stream-IsStream model_name sdk show p messages h =
    let (events, ending) = sdk (input_items messages) in
    (
      concluded-IsStream (text_deltas events) (outcome model_name ending)
          (text_deltas-AreDeltas events) (outcome-IsAnswer model_name ending),
      streamed-IsStream (counted p) (answer show (counted p) messages)
          (answer-IsAnswer show (counted p) messages h),
    )
