-- ===== src/Examples/Registries.antt =====
-- Inputs at which the results on tools, guardrails and metrics apply.
use dayu_water_agent.Tools.Names.{name_matches}
use dayu_water_agent.Prelude.{
  String, ◌⊎◌, ◌+◌, ◌≤◌, ◌≡◌, refl, true, false, none, some, [], ◌∷◌, arith,
}
use dayu_water_agent.Dict.{get, put}
use dayu_water_agent.Json.{Payload, string}
use dayu_water_agent.Guardrails.{non_empty_output, phase_zero_tool}
use dayu_water_agent.Metrics.{run_started, run_finished, fresh, start, finish, Recorded-balance}
use dayu_water_agent.Tools.Defs.{
  analyze, permission_in, is_dangerous_risk, is_dangerous_permission, ToolDefinition,
  ToolExecutionResult, Schema, read, low, returned,
}
use dayu_water_agent.Tools.Registry.{
  ToolRegistry, empty, register, unregister, execute, allowed_permissions,
}
use dayu_water_agent.Supervisor.Work.{
  run_tool, Settings, AgentContext, result_from_tool, run_tool-harmless,
}
use dayu_water_agent.Tools.Safety.{
  IsSafe, IsSafeTool, register-ok, registry-IsSafe, Executed, execute-Executed,
}

abbrev any_value : Schema
any_value = record {
  is_model = true;
  model_validate = λ v. some v;
  model_dump = λ v. ("value", v) ∷ [];
}

abbrev echo : ToolDefinition
echo = record {
  name = "system.echo";
  description = "echo";
  input_model = any_value;
  output_model = any_value;
  permission = some read;
  risk_level = some low;
  timeout_seconds = 5;
  handler = λ v. returned v;
}

abbrev pub one_tool : ToolRegistry
one_tool = (register echo empty).1

empty-IsSafe : IsSafe empty
unfolding get
empty-IsSafe = record { distinct = tt; tools = λ name t e. absurd (ground arith) }

register-ok_example :
    IsSafeTool "system.echo" echo
    × (get empty.tools "system.echo" ≡ none)
    × ((register echo empty).1 ≡ record empty { tools = put empty.tools "system.echo" echo })
unfolding register name_matches is_dangerous_permission is_dangerous_risk get
register-ok_example = register-ok echo empty refl

registry-IsSafe_example : IsSafe (register echo empty).1 × IsSafe (unregister "system.time" empty).1
registry-IsSafe_example = registry-IsSafe echo "system.time" empty empty-IsSafe

abbrev echoed : ToolExecutionResult
echoed = record { name = "system.echo"; output = ("value", string "hi") ∷ []; duration_ms = 1 }

execute-Executed_example :
    (t : ToolDefinition) × (get one_tool.tools "system.echo" ≡ some t)
    × Executed "system.echo" (string "hi") (allowed_permissions one_tool none) false t echoed
unfolding execute get register name_matches is_dangerous_permission is_dangerous_risk put
    permission_in
execute-Executed_example =
    execute-Executed "system.echo" (string "hi") none false 1 one_tool echoed refl

Recorded-balance_example : (0 + 1 ≡ 1) × (1 + 0 ≤ 1)
unfolding run_started run_finished
Recorded-balance_example = Recorded-balance (finish (start fresh) 3 true false (omega arith) refl)

abbrev pub settings : Settings
settings = record {
  name = "SupervisorAgent";
  provider_name = "fake";
  model_name = "fake-deterministic";
  output_guardrails = non_empty_output ∷ [];
  tool_guardrails = phase_zero_tool ∷ [];
}

abbrev pub context : AgentContext
context = record {
  request_id = "request-1";
  run_id = some "run-1";
  trace_id = "trace-1";
  session_id = "session-1";
  user_id = none;
  agent_name = "SupervisorAgent";
  metadata = [];
  created_at = 1;
}

abbrev pub dumps : Payload → String
dumps output = "{}"

run_tool-harmless_example :
    (t : ToolDefinition) × (get one_tool.tools "system.echo" ≡ some t)
    × ((t.permission ≡ some read) ⊎ (t.permission ≡ some analyze))
unfolding register name_matches is_dangerous_permission is_dangerous_risk get run_tool put
    phase_zero_tool execute permission_in non_empty_output
run_tool-harmless_example =
    run_tool-harmless settings one_tool dumps 1 "system.echo" (string "hi") context
      (result_from_tool settings context "system.echo" "{}" echoed) refl refl
