-- ===== src/Guardrails.antt =====
-- src/dayu_agent/guardrails/base.py, and the checks that `SupervisorAgent` makes with guardrails.
-- No guardrail of the program reads the context of the request, so it is left out.
use Prim.Native.Char.{code}
use dayu_water_agent.Prelude.{
  ℕ, String, ◌≡◌, Bool, true, false, not, ◌&&◌, ◌||◌, Option, none, some, List, [], ◌∷◌, All, arith,
  leb, if◌then◌else◌, Bool-cases, inl, inr,
}
use dayu_water_agent.Dict.{get}
use dayu_water_agent.Errors.{domain, make_error, Result, ok, err}
use dayu_water_agent.Errors.Kinds.{guardrail}
use dayu_water_agent.Tools.Defs.{ToolDefinition, is_dangerous_permission, is_dangerous_risk}
use dayu_water_agent.Tools.Registry.{ToolRegistry}
use dayu_water_agent.Tools.Safety.{IsSafe}

pub record GuardrailDecision : Type 0 where
  pub allowed : Bool
  pub reason : Option String

abbrev pub allow : GuardrailDecision
allow = record { allowed = true; reason = none }

abbrev pub block : String → GuardrailDecision
block reason = record { allowed = false; reason = some reason }

-- The code points that `str.strip` takes for white space.
unfoldable pub is_space : ℕ → Bool
is_space c =
    (leb 9 c && leb c 13)
    || (leb 28 c && leb c 32)
    || (leb 133 c && leb c 133)
    || (leb 160 c && leb c 160)
    || (leb 5760 c && leb c 5760)
    || (leb 8192 c && leb c 8202)
    || (leb 8232 c && leb c 8233)
    || (leb 8239 c && leb c 8239)
    || (leb 8287 c && leb c 8287)
    || (leb 12288 c && leb c 12288)

-- `not content.strip()`
unfoldable pub is_blank : String → Bool
unfolding is_space
is_blank String.[] = true
is_blank (String.◌∷◌ c s) = is_space (code c) && is_blank s

unfoldable pub non_empty_input : String → GuardrailDecision
unfolding is_blank
non_empty_input content = if is_blank content then block "Message must not be empty." else allow

unfoldable pub non_empty_output : String → GuardrailDecision
unfolding is_blank
non_empty_output content =
    if is_blank content then block "Provider output must not be empty." else allow

-- A permission or a risk level that is no member of its enumeration is not the dangerous one.
abbrev pub is_dangerous_tool : ToolDefinition → Bool
is_dangerous_tool tool = elim tool.permission [ none ↦ false | some p ↦ is_dangerous_permission p ]

abbrev pub is_risky_tool : ToolDefinition → Bool
is_risky_tool tool = elim tool.risk_level [ none ↦ false | some l ↦ is_dangerous_risk l ]

unfoldable pub phase_zero_tool : ToolDefinition → GuardrailDecision
phase_zero_tool tool =
    if is_dangerous_tool tool
    then block "Dangerous permission is prohibited."
    else if is_risky_tool tool
    then block "Dangerous risk is prohibited."
    else allow

-- The loop that raises a `GuardrailError` at the first decision that does not allow.
unfoldable pub check {ℓ} : {A : Type ℓ} → List (A → GuardrailDecision) → A → Result (Unit {0})
check [] a = ok tt
check (g ∷ gs) a =
    if not (g a).allowed
    then err (domain (make_error guardrail (g a).reason none false))
    else check gs a

-- A check passes only when every guardrail allows.
pub check-allowed {ℓ} :
    {A : Type ℓ} (gs : List (A → GuardrailDecision)) (a : A)
    → check gs a ≡ ok tt
    → All (λ g. (g a).allowed ≡ true) gs
unfolding check
check-allowed [] a e = tt
check-allowed (g ∷ gs) a e = elim (Bool-cases (g a).allowed) [
  | inl y ↦ (y, check-allowed gs a (ground (arith, e, y)))
  | inr n ↦ absurd (ground (arith, e, n))
]

-- The default guardrail lets every tool of a safe registry pass: registration has already refused
-- what it blocks.
registered-allowed :
    (reg : ToolRegistry) (name : String) (t : ToolDefinition)
    → IsSafe reg
    → get reg.tools name ≡ some t
    → check (phase_zero_tool ∷ []) t ≡ ok tt
unfolding check phase_zero_tool
registered-allowed reg name t v e =
    let safe = v.tools name t e in ground (arith, safe.permission, safe.risk)
