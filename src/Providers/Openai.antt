-- ===== src/Providers/Openai.antt =====
-- src/dayu_agent/providers/openai.py. How the SDK's run ends and what its stream yields are
-- arguments: an event and an exception are given by the tests that the code makes of them, and a
-- result by the values that it reads. The timeout of the provider is an exception of the SDK's run.
-- Construction, health and logging are left out.
use dayu_water_agent.Prelude.{
  ℕ, String, ◌==◌, Bool, false, not, ◌&&◌, ◌||◌, leb, Option, none, some, List, [], ◌∷◌, ◌++◌,
  if◌then◌else◌,
}
use dayu_water_agent.Json.{string, Payload}
use dayu_water_agent.Errors.{DayuAgentError, make_error, domain, task_cancelled, Result, ok, err}
use dayu_water_agent.Errors.Kinds.{provider, provider_unavailable, provider_timeout}
use dayu_water_agent.Guardrails.{is_blank}
use dayu_water_agent.Runtime.Result.{TokenUsage, normalize_total}
use dayu_water_agent.Supervisor.Provider.{
  MessageRole, user, assistant, ProviderMessage, ProviderResponse, ProviderStreamEvent,
}
use dayu_water_agent.Providers.Contract.{delta_event, final_event, Streamed}

-- `isinstance` of `TimeoutError` or `APITimeoutError`; of `APIConnectionError`, `RateLimitError` or
-- `InternalServerError`; and the status of an `APIStatusError`.
pub record SdkError : Type 0 where
  pub is_timeout : Bool
  pub is_transient : Bool
  pub status_code : Option ℕ

-- An item of a result: whether it is a tool call, and the name of its raw item.
pub record SdkItem : Type 0 where
  pub is_tool_call : Bool
  pub name : Option String

-- `str(result.final_output or "")`, the usage and the new items.
pub record SdkResult : Type 0 where
  pub final_output : String
  pub usage : TokenUsage
  pub new_items : List SdkItem

pub data SdkEnding : Type 0 where
  returned : SdkResult → SdkEnding
  cancelled : SdkEnding
  raised : SdkError → SdkEnding

pub record SdkEvent : Type 0 where
  pub is_raw_response : Bool
  pub is_text_delta : Bool
  pub delta : String

abbrev pub role_text : MessageRole → String
role_text user = "user"
role_text assistant = "assistant"

-- The role and the content of each message.
unfoldable pub input_items : List ProviderMessage → List (String × String)
input_items [] = []
input_items (message ∷ messages) = (role_text message.role, message.content) ∷ input_items messages

abbrev pub name_or_unknown : Option String → String
name_or_unknown none = "unknown"
name_or_unknown (some name) = name

unfoldable pub tool_call_names : List SdkItem → List String
tool_call_names [] = []
tool_call_names (item ∷ items) =
    let rest = tool_call_names items in
    if item.is_tool_call then name_or_unknown item.name ∷ rest else rest

unfoldable pub response_from_result : SdkResult → ProviderResponse
unfolding tool_call_names normalize_total
response_from_result result = record {
  content = result.final_output;
  usage = normalize_total result.usage;
  tool_calls = tool_call_names result.new_items;
}

abbrev pub is_retryable_status : Option ℕ → Bool
is_retryable_status none = false
is_retryable_status (some status) =
    leb 500 status || (leb 408 status && leb status 409) || (leb 429 status && leb status 429)

abbrev pub details : String → Payload
details model_name = ("provider", string "openai") ∷ ("model", string model_name) ∷ []

unfoldable pub normalize_failure : String → SdkError → DayuAgentError
normalize_failure model_name e =
    if e.is_timeout
    then make_error provider_timeout none (some (details model_name)) false
    else if e.is_transient || is_retryable_status e.status_code
    then make_error provider_unavailable none (some (details model_name)) false
    else make_error provider none (some (details model_name)) false

unfoldable pub refuse_blank : ProviderResponse → Result ProviderResponse
unfolding is_blank
refuse_blank response =
    if is_blank response.content
    then err (
        domain (make_error provider (some "The model provider returned empty content.") none false))
    else ok response

-- What `run` and `stream` make of the end of the SDK's run.
unfoldable pub outcome : String → SdkEnding → Result ProviderResponse
unfolding response_from_result normalize_failure refuse_blank
outcome model_name (returned result) = refuse_blank (response_from_result result)
outcome model_name cancelled = err task_cancelled
outcome model_name (raised e) = err (domain (normalize_failure model_name e))

-- `sdk` is `Runner.run`.
unfoldable pub run :
    String → (List (String × String) → SdkEnding) → List ProviderMessage → Result ProviderResponse
unfolding outcome input_items
run model_name sdk messages = outcome model_name (sdk (input_items messages))

-- The loop over the SDK's events.
unfoldable pub text_deltas : List SdkEvent → List ProviderStreamEvent
text_deltas [] = []
text_deltas (event ∷ events) =
    let rest = text_deltas events in
    if event.is_raw_response && event.is_text_delta && not (event.delta == "")
    then delta_event event.delta ∷ rest
    else rest

-- What follows the loop.
abbrev pub concluded : List ProviderStreamEvent → Result ProviderResponse → Streamed
concluded deltas (ok response) = (deltas ++ final_event response ∷ [], none)
concluded deltas (err f) = (deltas, some f)

-- `sdk` is `Runner.run_streamed`, with the events of its stream.
unfoldable pub stream :
    String → (List (String × String) → List SdkEvent × SdkEnding) → List ProviderMessage → Streamed
unfolding text_deltas outcome input_items
stream model_name sdk messages =
    let (events, ending) = sdk (input_items messages) in
    concluded (text_deltas events) (outcome model_name ending)
