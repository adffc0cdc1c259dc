-- ===== src/Tools/Registry.antt =====
-- `ToolRegistry` of src/dayu_agent/tools/registry.py. Logging is left out.
use dayu_water_agent.Prelude.{
  ℕ, String, Bool, false, not, ◌&&◌, ◌||◌, Option, none, some, List, [], ◌∷◌, ltb, if◌then◌else◌,
}
use dayu_water_agent.Dict.{Dict, get, put, remove, contains}
use dayu_water_agent.Json.{Json, string, Payload}
use dayu_water_agent.Errors.{Failure, domain, task_cancelled, make_error, failure, Result, ok, err}
use dayu_water_agent.Errors.Kinds.{
  ErrorKind, tool_not_found, tool_conflict, tool_permission, tool_validation, tool_timeout,
}
use dayu_water_agent.Tools.Defs.{
  permission_value, ToolPermission, permission_in, default_allowed_permissions,
  confirmation_required_permissions, ToolRiskLevel, is_dangerous_permission, is_dangerous_risk,
  HandlerOutcome, returned, timed_out, raised_tool_error, raised_other, handler_cancelled,
  ToolDefinition, ToolExecutionResult,
}
use dayu_water_agent.Tools.Names.{name_matches}

pub record ToolRegistry : Type 0 where
  pub tools : Dict ToolDefinition
  pub default_permissions : List ToolPermission

-- ToolRegistry()
abbrev pub empty : ToolRegistry
empty = record { tools = []; default_permissions = default_allowed_permissions }

abbrev pub tool_details : String → Payload
tool_details name = ("tool_name", string name) ∷ []

abbrev pub tool_failure : ErrorKind → String → String → Failure
tool_failure kind message name =
    domain (make_error kind (some message) (some (tool_details name)) false)

-- The checks that need both policies to be known.
unfoldable pub register_known :
    ToolDefinition
    → ToolPermission
    → ToolRiskLevel
    → ToolRegistry
    → Result (Unit {0}) × ToolRegistry
register_known tool permission risk_level reg =
    if not (name_matches tool.name)
    then (
      err (
          tool_failure tool_validation "Tool names must use a dotted lowercase namespace."
            tool.name),
      reg,
    )
    else if not (ltb 0 tool.timeout_seconds)
    then (
      err (tool_failure tool_validation "Tool timeout must be greater than zero." tool.name),
      reg,
    )
    else if not tool.input_model.is_model || not tool.output_model.is_model
    then (
      err (
          tool_failure tool_validation "Tool input and output schemas must be Pydantic models."
            tool.name),
      reg,
    )
    else if is_dangerous_permission permission || is_dangerous_risk risk_level
    then (
      err (
          tool_failure tool_permission "Dangerous tools are prohibited in AGENT-PHASE-00."
            tool.name),
      reg,
    )
    else if contains reg.tools tool.name
    then (err (failure tool_conflict (tool_details tool.name)), reg)
    else (ok tt, record reg { tools = put reg.tools tool.name tool })

unfoldable pub register_permitted :
    ToolDefinition
    → ToolPermission
    → Option ToolRiskLevel
    → ToolRegistry
    → Result (Unit {0}) × ToolRegistry
unfolding register_known
register_permitted tool permission none reg =
    (err (tool_failure tool_permission "Unknown tool risk level is denied." tool.name), reg)
register_permitted tool permission (some risk_level) reg =
    register_known tool permission risk_level reg

unfoldable pub register_as :
    ToolDefinition → Option ToolPermission → ToolRegistry → Result (Unit {0}) × ToolRegistry
unfolding register_permitted
register_as tool none reg =
    (err (tool_failure tool_permission "Unknown tool permission is denied." tool.name), reg)
register_as tool (some permission) reg = register_permitted tool permission tool.risk_level reg

unfoldable pub register : ToolDefinition → ToolRegistry → Result (Unit {0}) × ToolRegistry
unfolding register_as
register tool reg = register_as tool tool.permission reg

unfoldable pub find : String → ToolRegistry → Result ToolDefinition
find name reg = elim (get reg.tools name) [
  | none ↦ err (failure tool_not_found (tool_details name))
  | some tool ↦ ok tool
]

unfoldable pub unregister : String → ToolRegistry → Result ToolDefinition × ToolRegistry
unregister name reg = elim (get reg.tools name) [
  | none ↦ (err (failure tool_not_found (tool_details name)), reg)
  | some tool ↦ (ok tool, record reg { tools = remove reg.tools name })
]

infixl 5 ◌>>=◌
abbrev pub ◌>>=◌ {ℓ κ} : {A : Type ℓ} {B : Type κ} → Result A → (A → Result B) → Result B
ok a >>= f = f a
err e >>= f = err e

-- `tool.permission in allowed`; what is no permission is in no set of permissions.
unfoldable pub permits : List ToolPermission → Option ToolPermission → Bool
permits allowed none = false
permits allowed (some permission) = permission_in permission allowed

abbrev pub allowed_permissions : ToolRegistry → Option (List ToolPermission) → List ToolPermission
allowed_permissions reg none = reg.default_permissions
allowed_permissions reg (some granted) = granted

abbrev permission_details : String → Option ToolPermission → Payload
permission_details name none = tool_details name
permission_details name (some permission) =
    ("tool_name", string name) ∷ ("permission", string (permission_value permission)) ∷ []

-- The permission and confirmation checks.
unfoldable pub authorize : List ToolPermission → Bool → String → ToolDefinition → Result (Unit {0})
unfolding permits
authorize allowed confirmed name tool =
    if not (permits allowed tool.permission)
    then err (failure tool_permission (permission_details name tool.permission))
    else if permits confirmation_required_permissions tool.permission && not confirmed
    then err (
        domain (
          make_error tool_permission (some "This tool requires explicit human confirmation.")
            (some (permission_details name tool.permission)) false))
    else ok tt

unfoldable pub validated : Option Json → Failure → Result Json
validated none e = err e
validated (some value) e = ok value

unfoldable pub handled : String → HandlerOutcome → Result Json
handled name (returned output) = ok output
handled name timed_out = err (failure tool_timeout (tool_details name))
handled name (raised_tool_error e) = err (domain e)
handled name raised_other = err (failure ErrorKind.tool (tool_details name))
handled name handler_cancelled = err task_cancelled

-- The error lists of the validation library are left out of the details.
unfoldable pub execute :
    String
    → Json
    → Option (List ToolPermission)
    → Bool
    → ℕ
    → ToolRegistry
    → Result ToolExecutionResult
unfolding find authorize validated handled
execute name payload granted_permissions confirmed duration reg = do
  tool ← find name reg
  _ ← authorize (allowed_permissions reg granted_permissions) confirmed name tool
  input ←
      validated (tool.input_model.model_validate payload)
        (failure tool_validation (tool_details name))
  raw ← handled name (tool.handler input)
  output ←
      validated (tool.output_model.model_validate raw)
        (tool_failure tool_validation "The tool output failed schema validation." name)
  ok (record { name = name; output = tool.output_model.model_dump output; duration_ms = duration })
