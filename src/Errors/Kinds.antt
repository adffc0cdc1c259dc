-- ===== src/Errors/Kinds.antt =====
-- The exception classes of src/dayu_agent/exceptions.py with their class variables.
use dayu_water_agent.Prelude.{ℕ, String, Bool, true, false, ◌||◌, Option, none, some}

pub data ErrorKind : Type 0 where
  dayu_agent configuration : ErrorKind
  provider provider_unavailable provider_timeout retry_budget_exhausted : ErrorKind
  tool tool_not_found tool_conflict tool_permission tool_validation tool_timeout : ErrorKind
  session session_not_found session_busy : ErrorKind
  run run_not_found invalid_run_transition idempotency_conflict run_cancelled : ErrorKind
  run_interrupted cancellation_unavailable runtime_unavailable : ErrorKind
  database_unavailable guardrail : ErrorKind

unfoldable pub error_code : ErrorKind → String
error_code dayu_agent = "DAYU_AGENT_ERROR"
error_code configuration = "CONFIGURATION_ERROR"
error_code provider = "PROVIDER_ERROR"
error_code provider_unavailable = "PROVIDER_UNAVAILABLE"
error_code provider_timeout = "PROVIDER_TIMEOUT"
error_code retry_budget_exhausted = "RETRY_BUDGET_EXHAUSTED"
error_code tool = "TOOL_ERROR"
error_code tool_not_found = "TOOL_NOT_FOUND"
error_code tool_conflict = "TOOL_NAME_CONFLICT"
error_code tool_permission = "TOOL_PERMISSION_DENIED"
error_code tool_validation = "TOOL_VALIDATION_ERROR"
error_code tool_timeout = "TOOL_TIMEOUT"
error_code session = "SESSION_ERROR"
error_code session_not_found = "SESSION_NOT_FOUND"
error_code session_busy = "SESSION_BUSY"
error_code run = "RUN_ERROR"
error_code run_not_found = "RUN_NOT_FOUND"
error_code invalid_run_transition = "INVALID_RUN_TRANSITION"
error_code idempotency_conflict = "IDEMPOTENCY_CONFLICT"
error_code run_cancelled = "RUN_CANCELLED"
error_code run_interrupted = "RUN_INTERRUPTED"
error_code cancellation_unavailable = "CANCELLATION_UNAVAILABLE"
error_code runtime_unavailable = "RUNTIME_UNAVAILABLE"
error_code database_unavailable = "DATABASE_UNAVAILABLE"
error_code guardrail = "GUARDRAIL_BLOCKED"

unfoldable pub http_status : ErrorKind → ℕ
http_status dayu_agent = 500
http_status configuration = 503
http_status provider = 502
http_status provider_unavailable = 503
http_status provider_timeout = 504
http_status retry_budget_exhausted = 503
http_status tool = 500
http_status tool_not_found = 404
http_status tool_conflict = 409
http_status tool_permission = 403
http_status tool_validation = 422
http_status tool_timeout = 504
http_status session = 500
http_status session_not_found = 404
http_status session_busy = 409
http_status run = 500
http_status run_not_found = 404
http_status invalid_run_transition = 409
http_status idempotency_conflict = 409
http_status run_cancelled = 409
http_status run_interrupted = 409
http_status cancellation_unavailable = 409
http_status runtime_unavailable = 503
http_status database_unavailable = 503
http_status guardrail = 422

unfoldable pub default_message : ErrorKind → String
default_message dayu_agent = "Dayu Water Agent could not complete the request."
default_message configuration = "The agent runtime is not configured correctly."
default_message provider = "The model provider could not complete the request."
default_message provider_unavailable = "The model provider is temporarily unavailable."
default_message provider_timeout = "The model provider attempt timed out."
default_message retry_budget_exhausted = "The provider retry budget was exhausted."
default_message tool = "The tool could not complete the request."
default_message tool_not_found = "The requested tool is not registered."
default_message tool_conflict = "A tool with the same name is already registered."
default_message tool_permission = "The requested tool is not permitted."
default_message tool_validation = "The tool input or output failed schema validation."
default_message tool_timeout = "The tool exceeded its execution timeout."
default_message session = "The session operation failed."
default_message session_not_found = "The requested session does not exist."
default_message session_busy = "The session already has an active run."
default_message run = "The agent run operation failed."
default_message run_not_found = "The requested agent run does not exist."
default_message invalid_run_transition = "The requested agent run transition is not allowed."
default_message idempotency_conflict =
    "The idempotency key is already bound to a different request."
default_message run_cancelled = "The agent run was cancelled."
default_message run_interrupted =
    "The agent run was interrupted and was not replayed automatically."
default_message cancellation_unavailable = "This process does not own the active provider task."
default_message runtime_unavailable = "The agent runtime is not accepting new runs."
default_message database_unavailable = "The configured runtime database is unavailable."
default_message guardrail = "A guardrail blocked the request."

-- The base class, `none` for `Exception`.
unfoldable pub base : ErrorKind → Option ErrorKind
base dayu_agent = none
base configuration = some dayu_agent
base provider = some dayu_agent
base provider_unavailable = some provider
base provider_timeout = some provider
base retry_budget_exhausted = some provider
base tool = some dayu_agent
base tool_not_found = some tool
base tool_conflict = some tool
base tool_permission = some tool
base tool_validation = some tool
base tool_timeout = some tool
base session = some dayu_agent
base session_not_found = some session
base session_busy = some session
base run = some dayu_agent
base run_not_found = some run
base invalid_run_transition = some run
base idempotency_conflict = some run
base run_cancelled = some run
base run_interrupted = some run
base cancellation_unavailable = some run
base runtime_unavailable = some run
base database_unavailable = some dayu_agent
base guardrail = some dayu_agent

-- `isinstance(exc, Class)` for the classes that handlers name: every chain of bases is short.
is_provider : ErrorKind → Bool
is_provider provider = true
is_provider _ = false

is_tool : ErrorKind → Bool
is_tool tool = true
is_tool _ = false

-- `k` itself or one of its proper bases passes the test.
through_bases : (ErrorKind → Bool) → ErrorKind → Bool
unfolding base
through_bases test k = elim (base k) [
  | none ↦ test k
  | some b ↦ test k || elim (base b) [ none ↦ test b | some c ↦ test b || test c ]
]

unfoldable pub is_provider_error : ErrorKind → Bool
unfolding through_bases is_provider
is_provider_error = through_bases is_provider

unfoldable pub is_tool_error : ErrorKind → Bool
unfolding through_bases is_tool
is_tool_error = through_bases is_tool
