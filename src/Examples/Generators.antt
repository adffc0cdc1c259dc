-- ===== src/Examples/Generators.antt =====
-- Inputs at which the results on the providers apply.
use dayu_water_agent.Prelude.{String, ◌≡◌, true, false, none, some, List, [], ◌∷◌, ◌++◌, map, arith}
use dayu_water_agent.Memory.Calls.{now}
use dayu_water_agent.Runtime.Result.{no_usage}
use dayu_water_agent.Supervisor.Provider.{user, ProviderMessage, ProviderResponse}
use dayu_water_agent.Supervisor.Attempts.{stream_items}
use dayu_water_agent.Providers.Contract.{delta_event, final_event, Streamed, IsStream, finishes}
use dayu_water_agent.Providers.Fake.{FakeModelProvider, user_messages}
use dayu_water_agent.Providers.Fake
use dayu_water_agent.Providers.Openai.{SdkEvent, SdkEnding, SdkError, raised}
use dayu_water_agent.Providers.Openai
use dayu_water_agent.Providers.Streams.{stream-IsStream}
use dayu_water_agent.Providers.Consuming.{
  Around, items_of, ending_of, settled_stream, stream_items-IsStream,
}
use dayu_water_agent.Examples.Scenes.{start_stamp, running_store}
use dayu_water_agent.Examples.Tasks.{running-Attempted}

abbrev text_event : SdkEvent
text_event = record { is_raw_response = true; is_text_delta = true; delta = "par" }

abbrev overloaded : SdkError
overloaded = record { is_timeout = false; is_transient = false; status_code = some 503 }

abbrev sdk : List (String × String) → List SdkEvent × SdkEnding
sdk messages = (text_event ∷ [], raised overloaded)

abbrev fake : FakeModelProvider
fake = record {
  model_name = "fake-deterministic";
  fail = false;
  fail_times = 0;
  failure_retryable = false;
  stream_chunks = some ("par" ∷ "tial" ∷ []);
  stream_fail_after_deltas = some 2;
  call_count = 0;
}

abbrev question : List ProviderMessage
question = record { role = user; content = "question" } ∷ []

stream-IsStream_example :
    IsStream (Openai.stream "gpt" sdk question) × IsStream (Fake.stream (λ n. "1") fake question).0
unfolding user_messages
stream-IsStream_example = stream-IsStream "gpt" sdk (λ n. "1") fake question (omega arith)

abbrev reply : ProviderResponse
reply = record { content = "partial"; usage = no_usage; tool_calls = [] }

abbrev around : Around
around = record { meanwhile = λ n s. s; stamp = λ n. start_stamp }

abbrev whole_stream : Streamed
whole_stream = (map delta_event ("par" ∷ "tial" ∷ []) ++ final_event reply ∷ [], none)

abbrev finished_stream : IsStream whole_stream
finished_stream = finishes ("par" ∷ "tial" ∷ []) reply

stream_items-IsStream_example :
    (stream_items "run-1"
      (ending_of none)
      (items_of around 0 whole_stream.0)
      none
      false
      running_store).0
    ≡ settled_stream finished_stream
stream_items-IsStream_example =
    stream_items-IsStream around (λ n s. now) "run-1" whole_stream finished_stream running_store
      running-Attempted
