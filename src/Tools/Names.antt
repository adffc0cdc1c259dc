-- ===== src/Tools/Names.antt =====
-- `TOOL_NAME_PATTERN` of src/dayu_agent/tools/registry.py: segments of a letter and then letters,
-- digits and underscores, at least two of them, joined by dots.
use Prim.Native.Char.{code}
use dayu_water_agent.Prelude.{ℕ, String, Bool, true, false, not, ◌&&◌, ◌||◌, List, [], ◌∷◌, leb}

codes : String → List ℕ
codes String.[] = []
codes (String.◌∷◌ c s) = code c ∷ codes s

is_char : ℕ → ℕ → Bool
is_char a c = leb a c && leb c a

is_lower : ℕ → Bool
is_lower c = leb b'a' c && leb c b'z'

is_word : ℕ → Bool
unfolding is_lower is_char
is_word c = is_lower c || (leb b'0' c && leb c b'9') || is_char b'_' c

-- The rest of a name: whether a segment must begin here, and whether a dot has been passed.
scan : Bool → Bool → List ℕ → Bool
unfolding is_word
scan true dotted [] = false
scan true dotted (c ∷ cs) = is_lower c && scan false dotted cs
scan false dotted [] = dotted
scan false dotted (c ∷ cs) =
    (is_word c || is_char b'.' c) && scan (not (is_word c)) (dotted || not (is_word c)) cs

unfoldable pub name_matches : String → Bool
unfolding codes scan
name_matches name = scan true false (codes name)
