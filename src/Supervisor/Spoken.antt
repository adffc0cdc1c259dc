-- ===== src/Supervisor/Spoken.antt =====
-- A tool command is read back from its text.
use Prim.Native.Char.{code}
use Prim.Native.String.{◌++◌, count}
use text.Mathlib.TextPositions.{starts_with_of_prefix}
use text.Mathlib.TextLemmas.{append_assoc, length-append, cons-append, nil-append}
use dayu_water_agent.Prelude.{
  String, ◌==◌, eq_iff, ◌≡◌, refl, ◌∙◌, ap, Bool, true, false, not, ◌&&◌, Option, some, List, [],
  ◌∷◌, inl, inr, Bool-cases, arith,
}
use dayu_water_agent.Json.{Json, object, Fields}
use dayu_water_agent.Errors.{ok}
use dayu_water_agent.Guardrails.{is_space}
use dayu_water_agent.Supervisor.Requests.{strip_start}
use dayu_water_agent.Supervisor.Commands.{
  first_word, cut, remainder, split_in_three, parse_tool_command,
}

unfoldable pub has_no_space : String → Bool
unfolding is_space
has_no_space String.[] = true
has_no_space (String.◌∷◌ c s) = not (is_space (code c)) && has_no_space s

-- A word: it has a character, and no white space.
abbrev pub is_word : String → Bool
is_word String.[] = false
is_word (String.◌∷◌ c s) = has_no_space (String.◌∷◌ c s)

-- A text that has a character and does not start with white space.
abbrev pub is_trimmed : String → Bool
is_trimmed String.[] = false
is_trimmed (String.◌∷◌ c s) = not (is_space (code c))

-- `/tool name text`
abbrev pub tool_text : String → String → String
tool_text name text = "/tool " ++ (name ++ (" " ++ text))

space_text : (text : String) → " " ++ text ≡ String.◌∷◌ " " text
space_text text = cons-append " " String.[] text ∙ ap (String.◌∷◌ " ") (nil-append text)

first_word_lem :
    (name text : String)
    → has_no_space name ≡ true
    → first_word (name ++ (String.◌∷◌ " " text)) ≡ (name, String.◌∷◌ " " text)
unfolding first_word has_no_space is_space
first_word_lem String.[] text e = rw (nil-append (String.◌∷◌ " " text)) refl
first_word_lem (String.◌∷◌ c s) text e =
    let rest = first_word_lem s text (ground (arith, e)) in
    let here : is_space (code c) ≡ false = ground (arith, e) in
    rw (cons-append c s (String.◌∷◌ " " text), here, rest) refl

strip_start-trimmed : (s : String) → is_trimmed s ≡ true → strip_start s ≡ s
unfolding strip_start is_space
strip_start-trimmed String.[] e = refl
strip_start-trimmed (String.◌∷◌ c s) e =
    let here : is_space (code c) ≡ false = ground (arith, e) in rw here refl

-- The blank before a text is stripped.
strip_start-space : (s : String) → is_trimmed s ≡ true → strip_start (String.◌∷◌ " " s) ≡ s
unfolding strip_start is_space
strip_start-space s e = strip_start-trimmed s e

is_word-trimmed : (name rest : String) → is_word name ≡ true → is_trimmed (name ++ rest) ≡ true
unfolding has_no_space
is_word-trimmed String.[] rest e = absurd (ground (arith, e))
is_word-trimmed (String.◌∷◌ c s) rest e = rw (cons-append c s rest) (ground (arith, e))

is_word-has_no_space : (name : String) → is_word name ≡ true → has_no_space name ≡ true
is_word-has_no_space String.[] e = absurd (ground (arith, e))
is_word-has_no_space (String.◌∷◌ c s) e = e

cut_lem :
    (more : String → List String) (name text : String)
    → is_word name ≡ true
    → cut more (name ++ String.◌∷◌ " " text) ≡ name ∷ more (String.◌∷◌ " " text)
cut_lem more String.[] text e = absurd (ground (arith, e))
cut_lem more (String.◌∷◌ c s) text e =
    let word = first_word_lem (String.◌∷◌ c s) text e in
    let split = cons-append c s (String.◌∷◌ " " text) in
    let parts : first_word (String.◌∷◌ c (s ++ String.◌∷◌ " " text))
        ≡ (String.◌∷◌ c s, String.◌∷◌ " " text) =
      rw (← split) word in
    rw split (ap (λ p. p.0 ∷ more p.1) parts)

remainder_lem : (text : String) → is_trimmed text ≡ true → remainder text ≡ text ∷ []
remainder_lem String.[] e = absurd (ground (arith, e))
remainder_lem (String.◌∷◌ c s) e = refl

-- The text of a command, by its first blank.
tool_text-split :
    (name text : String)
    → tool_text name text ≡ "/tool" ++ (String.◌∷◌ " " (name ++ (String.◌∷◌ " " text)))
tool_text-split name text =
    let rest = name ++ (" " ++ text) in
    let blank : "/tool " ++ rest ≡ "/tool" ++ (" " ++ rest) = append_assoc "/tool" " " rest in
    blank
    ∙ ap (λ r. "/tool" ++ r)
        (space_text rest ∙ ap (λ r. String.◌∷◌ " " (name ++ r)) (space_text text))

command-word : is_word "/tool" ≡ true
unfolding has_no_space is_space
command-word = refl

split_in_three-tool_text :
    (name text : String)
    → is_word name ≡ true
    → is_trimmed text ≡ true
    → split_in_three (tool_text name text) ≡ "/tool" ∷ name ∷ text ∷ []
unfolding split_in_three
split_in_three-tool_text name text word trimmed =
    let last = λ (rest : String). remainder (strip_start rest) in
    let tail = name ++ (String.◌∷◌ " " text) in
    rw
      (
        tool_text-split name text,
        strip_start-trimmed ("/tool" ++ (String.◌∷◌ " " tail))
            (is_word-trimmed "/tool" (String.◌∷◌ " " tail) command-word),
        cut_lem (λ rest. cut last (strip_start rest)) "/tool" tail command-word,
        strip_start-space tail (is_word-trimmed name (String.◌∷◌ " " text) word),
        cut_lem last name text word,
        strip_start-space text trimmed,
        remainder_lem text trimmed,
      )
      refl

tool_text-longer : (name text : String) → (tool_text name text == "/tool") ≡ false
tool_text-longer name text = elim (Bool-cases (tool_text name text == "/tool")) [
  | inr n ↦ n
  | inl y ↦
      let same = ap count ((eq_iff (tool_text name text) "/tool").0 y) in
      let long = length-append "/tool " (name ++ (" " ++ text)) in
      absurd (omega (arith, same, long))
]

-- A tool command is read back from its text `/tool name text`, when the name is one word, the text
-- does not start with white space, and the JSON library reads an object from it.
pub parse_tool_command_roundtrip :
    (loads : String → Option Json) (name text : String) (fields : Fields)
    → is_word name ≡ true
    → is_trimmed text ≡ true
    → loads text ≡ some (object fields)
    → parse_tool_command loads (tool_text name text) ≡ ok (some (name, object fields))
unfolding parse_tool_command
parse_tool_command_roundtrip loads name text fields word trimmed read =
    let begins =
      starts_with_of_prefix "/tool " (tool_text name text) (name ++ (" " ++ text), refl) in
    rw (tool_text-longer name text, begins, split_in_three-tool_text name text word trimmed, read)
      refl
