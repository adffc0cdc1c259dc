-- ===== src/Supervisor/Work.antt =====
-- What the work of a run is made of: `_provider_request`, `_run_tool` and `_result_from_provider`,
-- with the request records of runtime/context.py and providers/base.py. What `json.dumps` makes of
-- a tool's output is an argument, and so is the time that the tool takes.
use dayu_water_agent.Prelude.{
  ◌∙◌, ap, ℕ, String, ◌≡◌, refl, ◌⊎◌, inl, inr, true, false, Option, none, some, List, [], ◌∷◌,
  ◌++◌, map, arith,
}
use dayu_water_agent.Dict.{get}
use dayu_water_agent.Json.{Json, string, Payload}
use dayu_water_agent.Errors.{Result, ok, err}
use dayu_water_agent.Runtime.Result.{AgentResult, success, no_usage}
use dayu_water_agent.Runtime.Session
use dayu_water_agent.Runtime.Session.{AgentMessage}
use dayu_water_agent.Memory.Store.{Exec, ◌>>=◌, pure}
use dayu_water_agent.Memory.Sessions.{list_messages}
use dayu_water_agent.Guardrails.{GuardrailDecision, check}
use dayu_water_agent.Tools.Defs.{
  ToolDefinition, ToolExecutionResult, ToolPermission, read, analyze, permission_in,
  default_allowed_permissions,
}
use dayu_water_agent.Tools.Registry.{ToolRegistry, find, execute}
use dayu_water_agent.Tools.Safety.{execute-Executed}
use dayu_water_agent.Supervisor.Provider.{
  MessageRole, user, assistant, ProviderMessage, ProviderResponse,
}

pub record AgentContext : Type 0 where
  pub request_id : String
  pub run_id : Option String
  pub trace_id : String
  pub session_id : String
  pub user_id : Option String
  pub agent_name : String
  pub metadata : Payload
  pub created_at : ℕ

pub record ProviderRequest : Type 0 where
  pub context : AgentContext
  pub messages : List ProviderMessage

-- The roles of a session's messages and of a provider's.
unfoldable pub provider_role : Session.MessageRole → MessageRole
provider_role Session.user = user
provider_role Session.assistant = assistant

abbrev pub provider_message : AgentMessage → ProviderMessage
provider_message message = record { role = provider_role message.role; content = message.content }

unfoldable pub provider_request : AgentContext → String → Exec ProviderRequest
unfolding provider_role
provider_request context user_content = do
  history ← list_messages context.session_id
  pure (record {
    context = context;
    messages =
        map provider_message history ++ (record { role = user; content = user_content }) ∷ [];
  })

-- The name, provider and model of the supervisor, and its guardrails.
pub record Settings : Type 0 where
  pub name : String
  pub provider_name : String
  pub model_name : String
  pub output_guardrails : List (String → GuardrailDecision)
  pub tool_guardrails : List (ToolDefinition → GuardrailDecision)

abbrev pub result_metadata : Settings → Payload
result_metadata x = ("provider", string x.provider_name) ∷ ("model", string x.model_name) ∷ []

unfoldable pub result_from_provider : Settings → AgentContext → ProviderResponse → AgentResult
result_from_provider x context response = record {
  request_id = context.request_id;
  run_id = context.run_id;
  trace_id = some context.trace_id;
  session_id = context.session_id;
  agent = x.name;
  content = response.content;
  status = success;
  usage = response.usage;
  tool_calls = [];
  warnings = [];
  metadata = result_metadata x;
}

unfoldable pub result_from_tool :
    Settings → AgentContext → String → String → ToolExecutionResult → AgentResult
result_from_tool x context name content execution = record {
  request_id = context.request_id;
  run_id = context.run_id;
  trace_id = some context.trace_id;
  session_id = context.session_id;
  agent = x.name;
  content = content;
  status = success;
  usage = no_usage;
  tool_calls =
      record {
        name = name;
        status = success;
        duration_ms = execution.duration_ms;
        output = some execution.output;
        error_code = none;
      }
      ∷ [];
  warnings = [];
  metadata = result_metadata x;
}

abbrev pub and_then {ℓ κ} : {A : Type ℓ} {B : Type κ} → Result A → (A → Result B) → Result B
and_then (ok a) f = f a
and_then (err e) f = err e

unfoldable pub run_tool :
    Settings
    → ToolRegistry
    → (Payload → String)
    → ℕ
    → String
    → Json
    → AgentContext
    → Result AgentResult
unfolding find check result_from_tool
run_tool x reg dumps duration name payload context = and_then (find name reg) λ tool.
    and_then (check x.tool_guardrails tool) λ _.
      and_then (execute name payload none false duration reg) λ execution.
        and_then (check x.output_guardrails (dumps execution.output))
          λ _. ok (result_from_tool x context name (dumps execution.output) execution)

and_then-ok {ℓ κ} :
    {A : Type ℓ} {B : Type κ} (r : Result A) (f : A → Result B) (b : B)
    → and_then r f ≡ ok b
    → (a : A) × (r ≡ ok a) × (f a ≡ ok b)
and_then-ok (ok a) f b e = (a, refl, e)
and_then-ok (err g) f b e = absurd (ground arith)

default_permission :
    (p : ToolPermission)
    → permission_in p default_allowed_permissions ≡ true
    → (p ≡ read) ⊎ (p ≡ analyze)
unfolding permission_in
default_permission read h = inl refl
default_permission analyze h = inr refl
default_permission _ h = absurd (ground arith)

-- With the default permissions, a tool command gives a result only for a registered tool whose
-- permission is to read or to analyze.
pub run_tool-harmless :
    (x : Settings) (reg : ToolRegistry) (dumps : Payload → String) (duration : ℕ) (name : String)
    (payload : Json) (context : AgentContext) (out : AgentResult)
    → reg.default_permissions ≡ default_allowed_permissions
    → run_tool x reg dumps duration name payload context ≡ ok out
    → (t : ToolDefinition) × (get reg.tools name ≡ some t)
      × ((t.permission ≡ some read) ⊎ (t.permission ≡ some analyze))
unfolding run_tool
run_tool-harmless x reg dumps duration name payload context out d e =
    let (tool, _, e1) = and_then-ok (find name reg) _ out e in
    let (_, _, e2) = and_then-ok (check x.tool_guardrails tool) _ out e1 in
    let (execution, done, _) =
      and_then-ok (execute name payload none false duration reg) _ out e2 in
    let (t, at, run) = execute-Executed name payload none false duration reg execution done in
    let (p, _, _, _, has, allowed, _, _, _, _, _) = run in
    (t, at, granted p t has (default_permission p (rw d at allowed)))
  where
    granted :
        (p : ToolPermission) (t : ToolDefinition)
        → t.permission ≡ some p
        → (p ≡ read) ⊎ (p ≡ analyze)
        → (t.permission ≡ some read) ⊎ (t.permission ≡ some analyze)
    granted p t has (inl same) = inl (has ∙ ap some same)
    granted p t has (inr same) = inr (has ∙ ap some same)
