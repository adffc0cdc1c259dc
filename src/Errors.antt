-- ===== src/Errors.antt =====
-- src/dayu_agent/exceptions.py: the exception classes, their codes, and failing computations.
pub mod Kinds
pub mod Codes
use dayu_water_agent.Prelude.{
  ◌≡◌, ◌⊎◌, inl, inr, refl, String, Bool, true, false, Option, none, some, ◌==◌, if◌then◌else◌,
}
use dayu_water_agent.Json.{Payload}
use Kinds.{ErrorKind, provider_unavailable, provider_timeout, default_message}

-- An exception object. `retryable` is the field of `ProviderError`, and false elsewhere.
pub record DayuAgentError : Type 0 where
  pub kind : ErrorKind
  pub message : String
  pub details : Option Payload
  pub retryable : Bool

-- `message or self.default_message`
message_or_default : Option String → ErrorKind → String
message_or_default none kind = default_message kind
message_or_default (some m) kind = if m == "" then default_message kind else m

-- `ProviderUnavailableError` and `ProviderTimeoutError` pass `retryable=True` on.
retryable_or_class : ErrorKind → Bool → Bool
retryable_or_class provider_unavailable retryable = true
retryable_or_class provider_timeout retryable = true
retryable_or_class _ retryable = retryable

unfoldable pub make_error : ErrorKind → Option String → Option Payload → Bool → DayuAgentError
unfolding message_or_default retryable_or_class
make_error kind message details retryable = record {
  kind = kind;
  message = message_or_default message kind;
  details = details;
  retryable = retryable_or_class kind retryable;
}

-- What a Python call may raise: an application error, a `KeyError` of a dictionary, the
-- `CancelledError` of its task, or any other exception.
pub data Failure : Type 0 where
  domain : DayuAgentError → Failure
  key_error : String → Failure
  task_cancelled : Failure
  other_exception : Failure

pub data Result {ℓ} (A : Type ℓ) : Type ℓ where
  ok : A → Result A
  err : Failure → Result A

-- `raise Class(details=...)`
abbrev pub failure : ErrorKind → Payload → Failure
failure kind details = domain (make_error kind none (some details) false)

pub Result-cases {ℓ} :
    {A : Type ℓ} (r : Result A) → ((a : A) × (r ≡ ok a)) ⊎ ((e : Failure) × (r ≡ err e))
Result-cases (ok a) = inl (a, refl)
Result-cases (err e) = inr (e, refl)
