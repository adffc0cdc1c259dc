-- ===== src/Tools/Defs.antt =====
-- Permissions, risk levels and tool definitions of src/dayu_agent/tools.
use dayu_water_agent.Prelude.{ℕ, String, Bool, true, false, ◌||◌, Option, List, [], ◌∷◌}
use dayu_water_agent.Json.{Json, Payload}
use dayu_water_agent.Errors.{DayuAgentError}

pub data ToolPermission : Type 0 where
  read analyze create modify execute dangerous : ToolPermission

unfoldable pub same_permission : ToolPermission → ToolPermission → Bool
same_permission read read = true
same_permission analyze analyze = true
same_permission create create = true
same_permission modify modify = true
same_permission execute execute = true
same_permission dangerous dangerous = true
same_permission _ _ = false

unfoldable pub permission_value : ToolPermission → String
permission_value read = "READ"
permission_value analyze = "ANALYZE"
permission_value create = "CREATE"
permission_value modify = "MODIFY"
permission_value execute = "EXECUTE"
permission_value ToolPermission.dangerous = "DANGEROUS"

-- `permission in permissions`
unfoldable pub permission_in : ToolPermission → List ToolPermission → Bool
unfolding same_permission
permission_in p [] = false
permission_in p (q ∷ qs) = same_permission p q || permission_in p qs

abbrev pub default_allowed_permissions : List ToolPermission
default_allowed_permissions = read ∷ analyze ∷ []

abbrev pub confirmation_required_permissions : List ToolPermission
confirmation_required_permissions = modify ∷ execute ∷ []

pub data ToolRiskLevel : Type 0 where
  low medium high dangerous : ToolRiskLevel

unfoldable pub is_dangerous_permission : ToolPermission → Bool
is_dangerous_permission ToolPermission.dangerous = true
is_dangerous_permission _ = false

unfoldable pub is_dangerous_risk : ToolRiskLevel → Bool
is_dangerous_risk ToolRiskLevel.dangerous = true
is_dangerous_risk _ = false

-- A class that is given as a schema: whether it is a model of the validation library, and that
-- library's `model_validate` and `model_dump` for it.
pub record Schema : Type 0 where
  pub is_model : Bool
  pub model_validate : Json → Option Json
  pub model_dump : Json → Payload

-- How an awaited handler ends under its timeout.
pub data HandlerOutcome : Type 0 where
  returned : Json → HandlerOutcome
  timed_out : HandlerOutcome
  raised_tool_error : DayuAgentError → HandlerOutcome
  raised_other : HandlerOutcome
  handler_cancelled : HandlerOutcome

-- `none` stands for a permission or risk level that is no member of its enumeration. A timeout is a
-- number of a fixed small unit; one that is not positive is 0.
pub record ToolDefinition : Type 0 where
  pub name : String
  pub description : String
  pub input_model : Schema
  pub output_model : Schema
  pub permission : Option ToolPermission
  pub risk_level : Option ToolRiskLevel
  pub timeout_seconds : ℕ
  pub handler : Json → HandlerOutcome

pub record ToolExecutionResult : Type 0 where
  pub name : String
  pub output : Payload
  pub duration_ms : ℕ
