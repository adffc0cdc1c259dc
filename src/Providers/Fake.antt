-- ===== src/Providers/Fake.antt =====
-- src/dayu_agent/providers/fake.py. What a formatted string makes of a number is an argument; delays
-- and the event that blocks are left out, and so is health.
use Prim.Native.Char.{code}
use Prim.Native.String.{◌++◌}
use dayu_water_agent.Prelude.{
  ℕ, ◌+◌, String, Bool, true, false, not, ◌&&◌, leb, ltb, Option, none, some, List, [], ◌∷◌, length,
  if◌then◌else◌,
}
use dayu_water_agent.Json.{string, Payload}
use dayu_water_agent.Errors.{make_error, Failure, domain, other_exception, Result, ok, err}
use dayu_water_agent.Errors.Kinds.{provider, provider_unavailable}
use dayu_water_agent.Guardrails.{is_space}
use dayu_water_agent.Runtime.Result.{normalize_total}
use dayu_water_agent.Supervisor.Provider.{
  MessageRole, user, assistant, ProviderMessage, ProviderResponse,
}
use dayu_water_agent.Providers.Contract.{delta_event, final_event, Streamed}

pub record FakeModelProvider : Type 0 where
  pub model_name : String
  pub fail : Bool
  pub fail_times : ℕ
  pub failure_retryable : Bool
  pub stream_chunks : Option (List String)
  pub stream_fail_after_deltas : Option ℕ
  pub call_count : ℕ

abbrev pub details : FakeModelProvider → Payload
details p = ("provider", string "fake") ∷ ("model", string p.model_name) ∷ []

-- The error that is raised on purpose.
unfoldable pub scripted_failure : FakeModelProvider → Failure
scripted_failure p =
    if p.failure_retryable
    then domain (make_error provider_unavailable none (some (details p)) false)
    else domain (make_error provider none (some (details p)) false)

unfoldable pub raise_scripted_failure : FakeModelProvider → Result (Unit {0})
unfolding scripted_failure
raise_scripted_failure p =
    if not p.fail && ltb p.fail_times p.call_count then ok tt else err (scripted_failure p)

abbrev pub is_user : MessageRole → Bool
is_user user = true
is_user assistant = false

unfoldable pub user_messages : List ProviderMessage → List String
user_messages [] = []
user_messages (item ∷ items) =
    let rest = user_messages items in if is_user item.role then item.content ∷ rest else rest

-- `len(text.split())`, when the text follows a word or white space.
unfoldable pub count_words : Bool → String → ℕ
unfolding is_space
count_words in_word String.[] = 0
count_words in_word (String.◌∷◌ c s) =
    let after_word = count_words true s in
    let after_space = count_words false s in
    if is_space (code c) then after_space else if in_word then after_word else after_word + 1

unfoldable pub input_tokens : List ProviderMessage → ℕ
unfolding count_words
input_tokens [] = 0
input_tokens (item ∷ items) = count_words false item.content + input_tokens items

unfoldable pub last : List String → Option String
last [] = none
last (message ∷ []) = some message
last (message ∷ messages) = last messages

-- `_response`, for the messages of the user and the latest of them.
unfoldable pub response_to : (ℕ → String) → List ProviderMessage → String → ProviderResponse
unfolding user_messages input_tokens count_words normalize_total
response_to show messages latest_message =
    let content =
      "Fake response (turn "
      ++ (show (length (user_messages messages)) ++ ("): " ++ latest_message)) in
    record {
      content = content;
      usage = normalize_total (record {
        requests = 1;
        input_tokens = input_tokens messages;
        output_tokens = count_words false content;
        total_tokens = 0;
      });
      tool_calls = [];
    }

abbrev pub answer_to : (ℕ → String) → List ProviderMessage → Option String → Result ProviderResponse
answer_to show messages none = err other_exception
answer_to show messages (some latest_message) = ok (response_to show messages latest_message)

-- An index error, when no message is the user's.
unfoldable pub response : (ℕ → String) → List ProviderMessage → Result ProviderResponse
unfolding last user_messages response_to
response show messages = answer_to show messages (last (user_messages messages))

-- `self.call_count += 1`
abbrev pub counted : FakeModelProvider → FakeModelProvider
counted p = record p { call_count = p.call_count + 1 }

abbrev pub unless_failed : Result (Unit {0}) → Result ProviderResponse → Result ProviderResponse
unless_failed (ok _) answer = answer
unless_failed (err f) answer = err f

-- The first part of `run` and of `stream`.
unfoldable pub answer :
    (ℕ → String) → FakeModelProvider → List ProviderMessage → Result ProviderResponse
unfolding raise_scripted_failure response
answer show p messages = unless_failed (raise_scripted_failure p) (response show messages)

unfoldable pub run :
    (ℕ → String)
    → FakeModelProvider
    → List ProviderMessage
    → Result ProviderResponse × FakeModelProvider
unfolding answer
run show p messages = (answer show (counted p) messages, counted p)

abbrev pub is_index : Option ℕ → ℕ → Bool
is_index none index = false
is_index (some n) index = leb n index && leb index n

-- The loop over the chunks, and the final event.
unfoldable pub yield_chunks : FakeModelProvider → ProviderResponse → List String → ℕ → Streamed
unfolding scripted_failure
yield_chunks p response [] index = (final_event response ∷ [], none)
yield_chunks p response (chunk ∷ chunks) index =
    let rest = yield_chunks p response chunks (index + 1) in
    if is_index p.stream_fail_after_deltas index
    then (delta_event chunk ∷ [], some (scripted_failure p))
    else (delta_event chunk ∷ rest.0, rest.1)

-- `self._stream_chunks or (response.content,)`
abbrev pub chunks_or : Option (List String) → String → List String
chunks_or (some (chunk ∷ chunks)) content = chunk ∷ chunks
chunks_or _ content = content ∷ []

abbrev pub streamed : FakeModelProvider → Result ProviderResponse → Streamed
streamed p (err f) = ([], some f)
streamed p (ok response) = yield_chunks p response (chunks_or p.stream_chunks response.content) 1

unfoldable pub stream :
    (ℕ → String) → FakeModelProvider → List ProviderMessage → Streamed × FakeModelProvider
unfolding answer yield_chunks
stream show p messages = (streamed (counted p) (answer show (counted p) messages), counted p)
