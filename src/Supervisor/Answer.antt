-- ===== src/Supervisor/Answer.antt =====
-- The work of a run in `_execute_owned`, from its message to its checked result: a tool command, or
-- an answer of the provider.
use dayu_water_agent.Prelude.{ℕ, String, Bool, Option, none, some}
use dayu_water_agent.Json.{Json, Payload}
use dayu_water_agent.Errors.{Result, ok, err}
use dayu_water_agent.Guardrails.{check}
use dayu_water_agent.Retry.{FloatArith, RetryBudget}
use dayu_water_agent.Runtime.Result.{AgentResult}
use dayu_water_agent.Memory.Store.{MemoryStore}
use dayu_water_agent.Tools.Registry.{ToolRegistry}
use dayu_water_agent.Supervisor.Provider.{ProviderResponse}
use dayu_water_agent.Supervisor.Attempts.{Attempt, run_provider_with_retry}
use dayu_water_agent.Supervisor.Work.{
  AgentContext, ProviderRequest, provider_request, Settings, result_from_provider, and_then,
  run_tool,
}
use dayu_water_agent.Supervisor.Commands.{ToolCommand, parse_tool_command}

module _ (F : FloatArith) where
  -- What a run works with: the supervisor's registry and budget, the JSON library, the time that a
  -- tool takes, and what happens around the rounds of a request to the provider.
  pub record Worker : Type 0 where
    pub settings : Settings
    pub registry : ToolRegistry
    pub budget : RetryBudget F
    pub loads : String → Option Json
    pub dumps : Payload → String
    pub duration : ℕ
    pub script : ProviderRequest → ℕ → Attempt F

  -- `none` is a retry loop that has run out of rounds.
  abbrev pub Answer : Type 0
  Answer = Option (Result AgentResult) × MemoryStore

  module _ (w : Worker) (context : AgentContext) where
    -- `_check_output` and `_result_from_provider`
    unfoldable pub checked_result : ProviderResponse → Result AgentResult
    unfolding result_from_provider
    checked_result response =
        and_then (check w.settings.output_guardrails response.content)
          λ _. ok (result_from_provider w.settings context response)

    abbrev pub responded : Option (Result ProviderResponse) × MemoryStore → Answer
    responded (none, s) = (none, s)
    responded (some (err f), s) = (some (err f), s)
    responded (some (ok response), s) = (some (checked_result response), s)

    abbrev pub requested : Bool → String → ℕ → Result ProviderRequest × MemoryStore → Answer
    requested streaming run_id fuel (err f, s) = (some (err f), s)
    requested streaming run_id fuel (ok request, s) =
        responded (run_provider_with_retry F w.budget streaming run_id (w.script request) fuel 0 s)

    abbrev pub commanded : String → Bool → String → ℕ → Result ToolCommand → MemoryStore → Answer
    commanded content streaming run_id fuel (err f) s = (some (err f), s)
    commanded content streaming run_id fuel (ok (some (name, payload))) s =
        (some (run_tool w.settings w.registry w.dumps w.duration name payload context), s)
    commanded content streaming run_id fuel (ok none) s =
        requested streaming run_id fuel (provider_request context content s)

    -- The retry loop gets `fuel` rounds.
    unfoldable pub answer : String → Bool → String → ℕ → MemoryStore → Answer
    unfolding checked_result
    answer content streaming run_id fuel s =
        commanded content streaming run_id fuel (parse_tool_command w.loads content) s
