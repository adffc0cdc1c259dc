-- ===== src/Supervisor/Commands.antt =====
-- `_parse_tool_command`. What `json.loads` makes of a text is an argument: `none` is a
-- JSONDecodeError.
use Prim.Native.Char.{code}
use dayu_water_agent.Prelude.{
  String, ◌==◌, false, not, Option, none, some, List, [], ◌∷◌, if◌then◌else◌,
}
use text.Mathlib.Text.{starts_with}
use dayu_water_agent.Json.{Json, object}
use dayu_water_agent.Errors.{domain, make_error, Failure, Result, ok, err}
use dayu_water_agent.Errors.Kinds.{tool_validation}
use dayu_water_agent.Guardrails.{is_space}
use dayu_water_agent.Supervisor.Requests.{strip_start}

-- The first word of a text that does not start with white space, and what follows it.
unfoldable pub first_word : String → String × String
unfolding is_space
first_word String.[] = (String.[], String.[])
first_word (String.◌∷◌ c s) =
    let rest = first_word s in
    if is_space (code c) then (String.[], String.◌∷◌ c s) else (String.◌∷◌ c rest.0, rest.1)

-- The words that `message.split(maxsplit=2)` cuts off, and then what is left.
abbrev pub cut : (String → List String) → String → List String
cut more String.[] = []
cut more (String.◌∷◌ c s) = let (word, rest) = first_word (String.◌∷◌ c s) in word ∷ more rest

abbrev pub remainder : String → List String
remainder String.[] = []
remainder (String.◌∷◌ c s) = String.◌∷◌ c s ∷ []

unfoldable pub split_in_three : String → List String
unfolding strip_start first_word
split_in_three message =
    cut (λ rest. cut (λ last. remainder (strip_start last)) (strip_start rest))
      (strip_start message)

abbrev pub invalid : String → Failure
invalid message = domain (make_error tool_validation (some message) none false)

abbrev pub not_an_object : Failure
not_an_object = invalid "Tool command payload must be a JSON object."

abbrev pub ToolCommand : Type 0
ToolCommand = Option (String × Json)

abbrev pub read_payload : String → Option Json → Result ToolCommand
read_payload name (some (object fields)) = ok (some (name, object fields))
read_payload name _ = err not_an_object

abbrev pub no_name : Failure
no_name = invalid "Tool command must include a registered tool name."

abbrev pub command_of : (String → Option Json) → List String → Result ToolCommand
command_of loads (command ∷ name ∷ text ∷ []) = read_payload name (loads text)
command_of loads (command ∷ name ∷ _) = read_payload name (loads "{}")
command_of loads _ = err no_name

unfoldable pub parse_tool_command : (String → Option Json) → String → Result ToolCommand
unfolding split_in_three
parse_tool_command loads message =
    if message == "/tool"
    then err no_name
    else if not (starts_with message "/tool ")
    then ok none
    else command_of loads (split_in_three message)
