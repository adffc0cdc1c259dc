-- ===== src/Errors/Codes.antt =====
-- The class variables of the exceptions tell the classes apart.
use dayu_water_agent.Prelude.{
  ◌≤◌, ◌<◌, String, ◌≡◌, refl, ap, Option, none, some, arith, ◌==◌, if◌then◌else◌,
}
use dayu_water_agent.Errors.Kinds.{
  ErrorKind, dayu_agent, configuration, provider, provider_unavailable, provider_timeout,
  retry_budget_exhausted, tool, tool_not_found, tool_conflict, tool_permission, tool_validation,
  tool_timeout, session, session_not_found, session_busy, run, run_not_found,
  invalid_run_transition, idempotency_conflict, run_cancelled, run_interrupted,
  cancellation_unavailable, runtime_unavailable, database_unavailable, guardrail, error_code,
  http_status,
}

kind_of_code : String → Option ErrorKind
kind_of_code c =
    if c == "DAYU_AGENT_ERROR"
    then some dayu_agent
    else if c == "CONFIGURATION_ERROR"
    then some configuration
    else if c == "PROVIDER_ERROR"
    then some provider
    else if c == "PROVIDER_UNAVAILABLE"
    then some provider_unavailable
    else if c == "PROVIDER_TIMEOUT"
    then some provider_timeout
    else if c == "RETRY_BUDGET_EXHAUSTED"
    then some retry_budget_exhausted
    else if c == "TOOL_ERROR"
    then some tool
    else if c == "TOOL_NOT_FOUND"
    then some tool_not_found
    else if c == "TOOL_NAME_CONFLICT"
    then some tool_conflict
    else if c == "TOOL_PERMISSION_DENIED"
    then some tool_permission
    else if c == "TOOL_VALIDATION_ERROR"
    then some tool_validation
    else if c == "TOOL_TIMEOUT"
    then some tool_timeout
    else if c == "SESSION_ERROR"
    then some session
    else if c == "SESSION_NOT_FOUND"
    then some session_not_found
    else if c == "SESSION_BUSY"
    then some session_busy
    else if c == "RUN_ERROR"
    then some run
    else if c == "RUN_NOT_FOUND"
    then some run_not_found
    else if c == "INVALID_RUN_TRANSITION"
    then some invalid_run_transition
    else if c == "IDEMPOTENCY_CONFLICT"
    then some idempotency_conflict
    else if c == "RUN_CANCELLED"
    then some run_cancelled
    else if c == "RUN_INTERRUPTED"
    then some run_interrupted
    else if c == "CANCELLATION_UNAVAILABLE"
    then some cancellation_unavailable
    else if c == "RUNTIME_UNAVAILABLE"
    then some runtime_unavailable
    else if c == "DATABASE_UNAVAILABLE"
    then some database_unavailable
    else if c == "GUARDRAIL_BLOCKED"
    then some guardrail
    else none

kind_of_code-error_code : (k : ErrorKind) → kind_of_code (error_code k) ≡ some k
unfolding kind_of_code error_code
kind_of_code-error_code dayu_agent = refl
kind_of_code-error_code configuration = refl
kind_of_code-error_code provider = refl
kind_of_code-error_code provider_unavailable = refl
kind_of_code-error_code provider_timeout = refl
kind_of_code-error_code retry_budget_exhausted = refl
kind_of_code-error_code tool = refl
kind_of_code-error_code tool_not_found = refl
kind_of_code-error_code tool_conflict = refl
kind_of_code-error_code tool_permission = refl
kind_of_code-error_code tool_validation = refl
kind_of_code-error_code tool_timeout = refl
kind_of_code-error_code session = refl
kind_of_code-error_code session_not_found = refl
kind_of_code-error_code session_busy = refl
kind_of_code-error_code run = refl
kind_of_code-error_code run_not_found = refl
kind_of_code-error_code invalid_run_transition = refl
kind_of_code-error_code idempotency_conflict = refl
kind_of_code-error_code run_cancelled = refl
kind_of_code-error_code run_interrupted = refl
kind_of_code-error_code cancellation_unavailable = refl
kind_of_code-error_code runtime_unavailable = refl
kind_of_code-error_code database_unavailable = refl
kind_of_code-error_code guardrail = refl

-- Two exception classes with the same error code are the same class.
error_code-injective : (a b : ErrorKind) → error_code a ≡ error_code b → a ≡ b
error_code-injective a b h =
    cc (kind_of_code-error_code a, kind_of_code-error_code b, ap kind_of_code h)

-- Every class answers with a client or server error status.
pub http_status_bounds : (k : ErrorKind) → (400 ≤ http_status k) × (http_status k < 600)
unfolding http_status
http_status_bounds dayu_agent = omega arith
http_status_bounds _ = omega arith
